-- ===== src/NetNs/Delete.antt =====
-- What `Delete` of internal/provider/netns_resource.go does when iproute2 fails.
use terraform_provider_zedam.Prelude.{false}
use terraform_provider_zedam.Prelude.{[], ◌∷◌, some, ◌≡◌, refl}
use terraform_provider_zedam.Text.{codes}
use terraform_provider_zedam.ErrChecker.{contains_one}
use terraform_provider_zedam.GoError.{GoError, error_text}
use terraform_provider_zedam.Exec.{Result, Host, diagnostics}
use terraform_provider_zedam.Exec.Act.{stop}
use terraform_provider_zedam.Exec.Exited.{IsExit, contains_one-IsExit}
use terraform_provider_zedam.Prelude.{arith}
use terraform_provider_zedam.Attr.{value_string}
use terraform_provider_zedam.IpLink.{ProviderConfig}
use terraform_provider_zedam.Resource.{run_ip}
use terraform_provider_zedam.NetNs.{
  NetNsModel, ip_command, no_netns_strs, netns_dir, after_delete, delete,
}

module _ (h : Host) (conf : ProviderConfig) (state : NetNsModel) where
  open h use {World}

  abbrev pub delete_netns : World → Result × World
  delete_netns w =
      run_ip h (netns_dir h conf (value_string state.id)) (ip_command conf)
        (codes "netns" ∷ codes "delete" ∷ value_string state.name ∷ []) w

  -- A deletion of the namespace that runs and exits with another code than 0, as it does when the
  -- namespace is gone, makes the deletion of the resource fail and leaves its directory, whatever the
  -- code and whatever the command wrote to its standard error, with the local and with the remote
  -- executor.
  pub netns_delete_exited :
      (w : World) (e : GoError)
      → (delete_netns w).0.error ≡ some e
      → IsExit e
      → delete h conf state w ≡ (
        stop (
            record { summary = codes "Failed to delete network namespace"; detail = error_text e }
            ∷ diagnostics (delete_netns w).0),
        (delete_netns w).1,
      )
  unfolding delete after_delete
  netns_delete_exited w e he exit =
      let missed : contains_one (error_text e) no_netns_strs ≡ false =
        contains_one-IsExit e no_netns_strs exit (ground arith) in
      rw (he, after_delete) (rw missed refl)
