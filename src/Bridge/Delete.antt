-- ===== src/Bridge/Delete.antt =====
-- What `Delete` of the bridge does when iproute2 fails.
use terraform_provider_zedam.Prelude.{false, [], ◌∷◌, some, ◌≡◌, refl}
use terraform_provider_zedam.Text.{Text, codes}
use terraform_provider_zedam.ErrChecker.{contains_one}
use terraform_provider_zedam.GoError.{GoError, error_text}
use terraform_provider_zedam.Exec.{Result, Host, diagnostics}
use terraform_provider_zedam.Exec.Act.{stop}
use terraform_provider_zedam.Exec.Exited.{IsExit, contains_one-IsExit}
use terraform_provider_zedam.Prelude.{arith}
use terraform_provider_zedam.Attr.{value_string}
use terraform_provider_zedam.IpLink.{ProviderConfig, build_ip_command}
use terraform_provider_zedam.Resource.{NetLib, intf_not_found_strs, run_ip}
use terraform_provider_zedam.Bridge.{BridgeModel, netns_of, resource_dir}
use terraform_provider_zedam.Bridge.Handlers.{delete, after_delete}

module _ (h : Host) (net : NetLib) (conf : ProviderConfig) (state : BridgeModel) where
  open h use {World}

  abbrev pub dir : Text
  dir = resource_dir h net conf (value_string state.id)

  -- the command that deletes the link
  abbrev pub delete_link : World → Result × World
  delete_link w =
      run_ip h dir (build_ip_command conf (netns_of state.netns))
        (codes "link"
          ∷ codes "delete"
          ∷ value_string state.name
          ∷ codes "type"
          ∷ codes "bridge"
          ∷ [])
        w

  -- A deletion of the link that runs and exits with another code than 0, as it does when the bridge is
  -- gone, makes the deletion of the resource fail and leaves its directory, whatever the code and
  -- whatever iproute2 wrote to its standard error, with the local and with the remote executor.
  pub delete_exited :
      (w : World) (e : GoError)
      → (delete_link w).0.error ≡ some e
      → IsExit e
      → delete h net conf state w ≡ (
        stop (
            record { summary = codes "Failed to delete bridge"; detail = error_text e }
            ∷ diagnostics (delete_link w).0),
        (delete_link w).1,
      )
  unfolding delete after_delete
  delete_exited w e he exit =
      let missed : contains_one (error_text e) intf_not_found_strs ≡ false =
        contains_one-IsExit e intf_not_found_strs exit (ground arith) in
      rw (he, after_delete) (rw missed refl)
