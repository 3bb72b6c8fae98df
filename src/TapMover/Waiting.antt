-- ===== src/TapMover/Waiting.antt =====
-- How the loop of main_tap_mover_linux_amd64.go ends, and what it has written by then.
use terraform_provider_zedam.Prelude.{
  Bool, true, false, List, [], ◌∷◌, ◌++◌, Option, none, some, ◌≡◌, ◌⊎◌, inl, inr, refl, sym, subst,
  All, Bool-cases, if◌then◌else◌, Member,
}
use terraform_provider_zedam.Prelude.Int.{ℤ, pos}
use terraform_provider_zedam.Text.{Text, codes, is_empty, ◌=ᵗ◌}
use terraform_provider_zedam.Text.Laws.{=ᵗ_refl, =ᵗ_ne}
use terraform_provider_zedam.GoError.{GoError, error_text}
use terraform_provider_zedam.TapMover.{
  MoverCfg, MoverStatus, Machine, Event, link_update, deadline, signal, Progress, waiting, exited,
  error_status, moved_status, write_status, give_up, report_moved, or_give_up, if_given, set_state,
  add_address, set_master, move_tap, await_link, run_ip, run_ip_in_netns, positive_or,
  tap_mover_main,
}

-- An event that the loop answers: one of the interface, or the end of the context.
abbrev pub IsDecisive : MoverCfg → Event → Type 0
IsDecisive cfg (link_update name operstate) = name ≡ cfg.tap_name
IsDecisive cfg deadline = Unit
IsDecisive cfg signal = Unit

-- The program has ended and what it did last was to write its status: "moved" with exit code 0, or
-- "error" with exit code 1.
abbrev pub HasReported : (m : Machine) → MoverCfg → Progress × m.World → Type 0
HasReported m cfg (p, w') =
    (w : m.World) × (s : MoverStatus) × (((p ≡ exited 0) × (s.status ≡ codes "moved"))
      ⊎ ((p ≡ exited 1) × (s.status ≡ codes "error")))
    × (w' ≡ write_status m cfg.status_file s w)

decisive_name :
    (cfg : MoverCfg) (name operstate : Text) (e : Event)
    → (name =ᵗ cfg.tap_name) ≡ false
    → link_update name operstate ≡ e
    → IsDecisive cfg e
    → ⊥
decisive_name cfg name operstate e n p dec =
    let same : name ≡ cfg.tap_name = subst (λ x. IsDecisive cfg x) (sym p) dec in
    let y : (name =ᵗ cfg.tap_name) ≡ true = subst (λ t. (name =ᵗ t) ≡ true) same (=ᵗ_refl name) in
    absurd cc

decisive_lem :
    (cfg : MoverCfg) (t : ℤ) (e : Event)
    → IsDecisive cfg e
    → IsDecisive (record cfg { timeout_s = t }) e
decisive_lem cfg t (link_update name operstate) dec = dec
decisive_lem cfg t deadline dec = tt
decisive_lem cfg t signal dec = tt

module _ (m : Machine) where
  open m use {World, now}

  give_up-HasReported :
      (cfg : MoverCfg) (message : Text) (w : World) → HasReported m cfg (give_up m cfg message w)
  unfolding give_up
  give_up-HasReported cfg message w = (w, error_status message (now w), inr (refl, refl), refl)

  report_moved-HasReported :
      (cfg : MoverCfg) (operstate : Text) (w : World)
      → HasReported m cfg (report_moved m cfg operstate w)
  unfolding report_moved
  report_moved-HasReported cfg operstate w =
      (w, moved_status operstate (now w), inl (refl, refl), refl)

  or_give_up-HasReported :
      (cfg : MoverCfg) (message : Text) (r : Option GoError × World) (k : World → Progress × World)
      → ((w : World) → HasReported m cfg (k w))
      → HasReported m cfg (or_give_up m cfg message r k)
  or_give_up-HasReported cfg message (none, w) k hk = hk w
  or_give_up-HasReported cfg message (some e, w) k hk =
      give_up-HasReported cfg (message ++ error_text e) w

  given :
      (b : Bool) (cfg : MoverCfg) (x y : Progress × World)
      → HasReported m cfg x
      → HasReported m cfg y
      → HasReported m cfg (if b then x else y)
  given true cfg x y hx hy = hx
  given false cfg x y hx hy = hy

  if_given-HasReported :
      (cfg : MoverCfg) (message value : Text) (args : List Text) (k : World → Progress × World)
      → ((w : World) → HasReported m cfg (k w))
      → (w : World) → HasReported m cfg (if_given m cfg message value args k w)
  if_given-HasReported cfg message value args k hk w =
      given (is_empty value) cfg (k w) (or_give_up m cfg message (run_ip_in_netns m cfg args w) k)
        (hk w) (or_give_up-HasReported cfg message (run_ip_in_netns m cfg args w) k hk)

  set_state-HasReported :
      (cfg : MoverCfg) (operstate : Text) (w : World)
      → HasReported m cfg (set_state m cfg operstate w)
  unfolding set_state
  set_state-HasReported cfg operstate =
      if_given-HasReported cfg (codes "failed to set state on TAP inside netns: ") cfg.state
        (codes "link" ∷ codes "set" ∷ cfg.tap_name ∷ cfg.state ∷ []) (report_moved m cfg operstate)
        (report_moved-HasReported cfg operstate)

  add_address-HasReported :
      (cfg : MoverCfg) (operstate : Text) (w : World)
      → HasReported m cfg (add_address m cfg operstate w)
  unfolding add_address
  add_address-HasReported cfg operstate =
      if_given-HasReported cfg (codes "failed to add IPv4 address on TAP inside netns: ")
        cfg.ipv4_address
        (codes "addr" ∷ codes "add" ∷ cfg.ipv4_address ∷ codes "dev" ∷ cfg.tap_name ∷ [])
        (set_state m cfg operstate) (set_state-HasReported cfg operstate)

  set_master-HasReported :
      (cfg : MoverCfg) (operstate : Text) (w : World)
      → HasReported m cfg (set_master m cfg operstate w)
  unfolding set_master
  set_master-HasReported cfg operstate =
      if_given-HasReported cfg (codes "failed to set master on TAP inside netns: ") cfg.master
        (codes "link" ∷ codes "set" ∷ cfg.tap_name ∷ codes "master" ∷ cfg.master ∷ [])
        (add_address m cfg operstate) (add_address-HasReported cfg operstate)

  -- However the commands turn out, moving the interface ends the program with a written status that
  -- agrees with its exit code.
  pub move_tap-HasReported :
      (cfg : MoverCfg) (operstate : Text) (w : World)
      → HasReported m cfg (move_tap m cfg operstate w)
  unfolding move_tap
  move_tap-HasReported cfg operstate w =
      or_give_up-HasReported cfg (codes "failed to move TAP to netns: ")
        (run_ip m cfg (codes "link" ∷ codes "set" ∷ cfg.tap_name ∷ codes "netns" ∷ cfg.netns ∷ [])
          w)
        (set_master m cfg operstate) (set_master-HasReported cfg operstate)

  -- the loop, once one of its events is decisive
  await_link-HasReported :
      (cfg : MoverCfg) (es : List Event) (e : Event) (w : World)
      → Member e es
      → IsDecisive cfg e
      → HasReported m cfg (await_link m cfg es w)
  unfolding await_link
  await_link-HasReported cfg [] e w mem dec = elim mem [ ]
  await_link-HasReported cfg (link_update name operstate ∷ es) e w mem dec =
      elim (Bool-cases (name =ᵗ cfg.tap_name)) [
        | inl y ↦
            let same : await_link m cfg (link_update name operstate ∷ es) w
                ≡ move_tap m cfg operstate w =
              rw y refl in
            subst (λ r. HasReported m cfg r) (sym same) (move_tap-HasReported cfg operstate w)
        | inr n ↦
            let same : await_link m cfg (link_update name operstate ∷ es) w
                ≡ await_link m cfg es w =
              rw n refl in
            subst (λ r. HasReported m cfg r) (sym same)
              (elim mem [
                | inl p ↦ absurd (decisive_name cfg name operstate e n p dec)
                | inr later ↦ await_link-HasReported cfg es e w later dec
              ])
      ]
  await_link-HasReported cfg (deadline ∷ es) e w mem dec = give_up-HasReported cfg _ w
  await_link-HasReported cfg (signal ∷ es) e w mem dec = give_up-HasReported cfg _ w

  -- The program ends once an event of the interface, the deadline or a signal comes, whatever comes
  -- before it and however the commands turn out, also if the subscription fails; what it does last
  -- is to write a status, which is "moved" exactly if the exit code is 0, and else "error".
  pub tap_mover_main-HasReported :
      (cfg : MoverCfg) (subscribed : Option GoError) (es : List Event) (e : Event) (w : World)
      → Member e es
      → IsDecisive cfg e
      → HasReported m cfg (tap_mover_main m cfg subscribed es w)
  unfolding tap_mover_main
  tap_mover_main-HasReported cfg (some x) es e w mem dec = give_up-HasReported cfg _ w
  tap_mover_main-HasReported cfg none es e w mem dec =
      await_link-HasReported (record cfg { timeout_s = positive_or (pos 300) cfg.timeout_s }) es e w
        mem (decisive_lem cfg (positive_or (pos 300) cfg.timeout_s) e dec)

  -- As long as no event of the interface, deadline or signal comes, the mover waits and has run and
  -- written nothing.
  pub await_link_idle :
      (cfg : MoverCfg) (es : List Event) (w : World)
      → All (λ e. ¬ IsDecisive cfg e) es
      → await_link m cfg es w ≡ (waiting, w)
  unfolding await_link
  await_link_idle cfg [] w h = refl
  await_link_idle cfg (link_update name operstate ∷ es) w (he, h) =
      rw (=ᵗ_ne name cfg.tap_name he) (await_link_idle cfg es w h)
  await_link_idle cfg (deadline ∷ es) w (he, h) = absurd (he tt)
  await_link_idle cfg (signal ∷ es) w (he, h) = absurd (he tt)
