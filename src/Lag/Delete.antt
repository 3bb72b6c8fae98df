-- ===== src/Lag/Delete.antt =====
-- What `Delete` of internal/provider/lag_resource.go tolerates.
use terraform_provider_zedam.Prelude.{
  true, false, List, [], ◌∷◌, ◌≡◌, refl, arith, Option-cases, inl, inr,
}
use terraform_provider_zedam.Text.{Text, codes}
use terraform_provider_zedam.Diag.{diags_none, diags_none_hit}
use terraform_provider_zedam.ErrChecker.{contains_one}
use terraform_provider_zedam.GoError.{GoError}
use terraform_provider_zedam.Exec.{Result, Host, diagnostics}
use terraform_provider_zedam.Attr.{value_string}
use terraform_provider_zedam.IpLink.{ProviderConfig, build_ip_command}
use terraform_provider_zedam.Resource.{NetLib, intf_not_found_strs, not_tolerated, run_ip}
use terraform_provider_zedam.Bridge.{netns_of}
use terraform_provider_zedam.Lag.{LagModel}
use terraform_provider_zedam.Lag.Handlers.{resource_dir, delete, after_delete, remove_dir}

not_tolerated_stderr :
    (res : Result) (e : GoError) (strs : List Text)
    → contains_one res.stderr strs ≡ true
    → not_tolerated res e strs ≡ false
unfolding not_tolerated
not_tolerated_stderr res e strs hit =
    let found : diags_none (diagnostics res) strs ≡ false =
      unfold diagnostics in diags_none_hit _ _ strs (inr (inr (inl refl))) hit in
    ground (arith, found)

module _ (h : Host) (net : NetLib) (conf : ProviderConfig) (state : LagModel) where
  open h use {World}

  -- the command that deletes the bond
  abbrev pub delete_bond : World → Result × World
  delete_bond w =
      run_ip h (resource_dir h net conf (value_string state.id))
        (build_ip_command conf (netns_of state.netns))
        (codes "link" ∷ codes "delete" ∷ value_string state.name ∷ codes "type" ∷ codes "bond" ∷ [])
        w

  -- Deleting a bond that is gone succeeds: if iproute2 says on its standard error that there is no
  -- such device, then, whatever the error of the command, the directory is removed, and that
  -- decides the result.
  pub delete_absent :
      (w : World)
      → contains_one (delete_bond w).0.stderr intf_not_found_strs ≡ true
      → delete h net conf state w
        ≡ remove_dir h net conf (resource_dir h net conf (value_string state.id)) (delete_bond w).1
  unfolding delete after_delete
  delete_absent w hit = elim (Option-cases (delete_bond w).0.error) [
    | inl he ↦ rw (he, after_delete) refl
    | inr (e, he) ↦
        rw (he, after_delete)
          (rw (not_tolerated_stderr (delete_bond w).0 e intf_not_found_strs hit) refl)
  ]
