-- ===== src/Tap/Pending.antt =====
-- `Read` of internal/provider/tap_resource.go for an interface that the mover has to move.
use terraform_provider_zedam.Prelude.{
  true, false, ◌||◌, List, [], ◌∷◌, Option, none, some, ◌≡◌, ◌≢◌, refl, sym, ap, arith, Bool-cases,
  inl, inr, ◌∙◌,
}
use terraform_provider_zedam.Text.{Text, codes, ◌=ᵗ◌}
use terraform_provider_zedam.Text.Laws.{=ᵗ_ne}
use terraform_provider_zedam.Diag.{
  Diagnostic, diags_any, diags_none, diags_none-not, diags_none_hit,
}
use terraform_provider_zedam.ErrChecker.{contains_one}
use terraform_provider_zedam.GoError.{GoError, errorf, error_contains_any}
use terraform_provider_zedam.Exec.{Result, Host, diagnostics}
use terraform_provider_zedam.Exec.Act.{Step, go, stop}
use terraform_provider_zedam.Exec.Try.{Attempt, Try, done, failed, then_try}
use terraform_provider_zedam.Attr.{known, is_set, value_string}
use terraform_provider_zedam.IpLink.{ProviderConfig, build_ip_command}
use terraform_provider_zedam.Resource.{NetLib, intf_not_found_strs, run_ip}
use terraform_provider_zedam.Resource.ReadLink.{quoted, try_run, judge_try}
use terraform_provider_zedam.Tap.{TapModel, read_tap}
use terraform_provider_zedam.Tap.Mover.{read_mover_status}
use terraform_provider_zedam.Tap.Handlers.{
  resource_dir, read, read_result, keep_planned, read_by_status,
}

-- The attributes that the mover applies are those of the other model.
abbrev pub KeepsPlan : TapModel → TapModel → Type 0
KeepsPlan state m =
    (m.master ≡ state.master) × (m.state ≡ state.state) × (m.ipv4_address ≡ state.ipv4_address)

-- the model that a handler goes on with, and one with its planned attributes
abbrev taken : TapModel → Step (Option TapModel) → TapModel
taken d (go (some m)) = m
taken d (go none) = d
taken d (stop ds) = d

abbrev planned : TapModel → TapModel → TapModel
planned plan x = record x {
  master = plan.master;
  state = plan.state;
  ipv4_address = plan.ipv4_address;
}

module _ (h : Host) (net : NetLib) (conf : ProviderConfig) where
  open h use {World}

  keep_planned-KeepsPlan :
      (state m : TapModel) (r : Attempt TapModel × World) (w' : World)
      → read_result h net conf (keep_planned h net conf state r) ≡ (go (some m), w')
      → KeepsPlan state m
  keep_planned-KeepsPlan state m (done x, w) w' = λ e.
      let same : planned state x ≡ m = ap (λ r. taken state r.0) e in
      (
        ap (λ z. z.master) (sym same),
        ap (λ z. z.state) (sym same),
        ap (λ z. z.ipv4_address) (sym same),
      )
  keep_planned-KeepsPlan state m (failed ds x, w) w' =
      elim (Bool-cases
        (error_contains_any x intf_not_found_strs || diags_any ds intf_not_found_strs)) [
          | inl y ↦ rw y (λ e. absurd (cc e))
          | inr n ↦ rw n (λ e. absurd (cc e))
        ]

  -- `Read` with a namespace
  read_moving :
      (state : TapModel) (w : World)
      → is_set state.netns ≡ true
      → read h net conf state w
        ≡ read_by_status h net conf
            (resource_dir h net conf (value_string state.id))
            state
            (read_mover_status h (resource_dir h net conf (value_string state.id)) w)
  unfolding read
  read_moving state w hs = rw hs refl

  pending_lem :
      (state m : TapModel) (p : Text × World) (w' : World)
      → p.0 ≢ codes "moved"
      → read_by_status h net conf (resource_dir h net conf (value_string state.id)) state p
        ≡ (go (some m), w')
      → KeepsPlan state m
  unfolding read_by_status
  pending_lem state m (status, w) w' ne = rw (=ᵗ_ne status (codes "moved") ne) (λ e.
      keep_planned-KeepsPlan state m
        (read_tap h net (resource_dir h net conf (value_string state.id)) (build_ip_command conf [])
          (record state { mover_status = known status }) w)
        w' e)

  -- As long as the mover of a TAP with a namespace has not reported that the interface is moved,
  -- `Read` either fails, or removes the resource, or keeps the master, the state and the address as
  -- they were asked for.
  pub read-KeepsPlan :
      (state m : TapModel) (w w' : World)
      → is_set state.netns ≡ true
      → (read_mover_status h (resource_dir h net conf (value_string state.id)) w).0 ≢ codes "moved"
      → read h net conf state w ≡ (go (some m), w')
      → KeepsPlan state m
  read-KeepsPlan state m w w' hs ne e =
      pending_lem state m (read_mover_status h (resource_dir h net conf (value_string state.id)) w)
        w' ne (sym (read_moving state w hs) ∙ e)

  -- the command with which `Read` looks for the interface in the default namespace
  abbrev pub show_link : TapModel → World → Result × World
  show_link state w =
      run_ip h (resource_dir h net conf (value_string state.id)) (build_ip_command conf [])
        (codes "link" ∷ codes "show" ∷ value_string state.name ∷ []) w

  failed_try :
      {A : Type 0} (message : Text) (r : Result × World) (e : GoError) (k : Result → Try World A)
      → r.0.error ≡ some e
      → then_try (judge_try h message r) k ≡ (failed (diagnostics r.0) (errorf message e), r.1)
  failed_try message (res, w) e k he = simp he

  read_tap_absent :
      (state : TapModel) (status : Text) (w : World) (e : GoError)
      → (show_link state w).0.error ≡ some e
      → read_tap h net
          (resource_dir h net conf (value_string state.id))
          (build_ip_command conf [])
          (record state { mover_status = known status })
          w
        ≡ (
          failed (diagnostics (show_link state w).0) (
              errorf
                (quoted (codes "can't retrieve TAP") (value_string state.name) (codes " details: "))
                e),
          (show_link state w).1,
        )
  unfolding read_tap try_run
  read_tap_absent state status w e he =
      failed_try
        (quoted (codes "can't retrieve TAP") (value_string state.name) (codes " details: "))
        (show_link state w) e _ he

  told :
      (res : Result)
      → contains_one res.stderr intf_not_found_strs ≡ true
      → diags_any (diagnostics res) intf_not_found_strs ≡ true
  told res hit =
      let none_found : diags_none (diagnostics res) intf_not_found_strs ≡ false =
        unfold diagnostics in diags_none_hit _ _ intf_not_found_strs (inr (inr (inl refl))) hit in
      ground (arith, none_found, diags_none-not (diagnostics res) intf_not_found_strs)

  forget_lem :
      (state : TapModel) (ds : List Diagnostic) (x : GoError) (w : World)
      → diags_any ds intf_not_found_strs ≡ true
      → (read_result h net conf (keep_planned h net conf state (failed ds x, w))).0 ≡ go none
  forget_lem state ds x w hit =
      let b : (error_contains_any x intf_not_found_strs || diags_any ds intf_not_found_strs)
          ≡ true =
        ground (arith, hit) in
      rw b refl

  forgets_lem :
      (state : TapModel) (p : Text × World) (e : GoError)
      → p.0 ≡ codes "error"
      → (show_link state p.1).0.error ≡ some e
      → contains_one (show_link state p.1).0.stderr intf_not_found_strs ≡ true
      → (read_by_status h net conf (resource_dir h net conf (value_string state.id)) state p).0
        ≡ go none
  unfolding read_by_status ◌=ᵗ◌
  forgets_lem state (status, w) e hr he hit = rw hr (
      rw (read_tap_absent state (codes "error") w e he) (
        forget_lem state (diagnostics (show_link state w).0) _ (show_link state w).1
          (told (show_link state w).0 hit)))

  -- When the mover of a TAP with a namespace has reported an error, `Read` looks for the interface in the default namespace
  -- alone: if iproute2 says there, by its standard error, that there is no such device, as it does
  -- when the mover had moved the interface before it failed, then the resource is removed from the
  -- state.
  pub read_forgets :
      (state : TapModel) (w : World) (e : GoError)
      → is_set state.netns ≡ true
      → (read_mover_status h (resource_dir h net conf (value_string state.id)) w).0 ≡ codes "error"
      → (show_link state
          (read_mover_status h (resource_dir h net conf (value_string state.id)) w).1).0.error
        ≡ some e
      → contains_one
          (show_link state
            (read_mover_status h (resource_dir h net conf (value_string state.id)) w).1).0.stderr
          intf_not_found_strs
        ≡ true
      → (read h net conf state w).0 ≡ go none
  read_forgets state w e hs hr he hit = rw (read_moving state w hs) (
      forgets_lem state (read_mover_status h (resource_dir h net conf (value_string state.id)) w) e
        hr he hit)
