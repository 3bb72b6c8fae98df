-- ===== src/Lag/Members.antt =====
-- What the two member operations of internal/provider/lag_resource.go do to a bond, from what
-- iproute2 documents of `nomaster` and `master`.
use terraform_provider_zedam.Prelude.{
  Bool, false, ◌&&◌, ◌||◌, not, List, [], ◌∷◌, none, some, ◌≡◌, ◌≢◌, refl, subst, ap, ◌∙◌, arith,
  Bool-cases, Option-cases, inl, inr,
}
use terraform_provider_zedam.Text.{Text, codes, ◌=ᵗ◌}
use terraform_provider_zedam.Text.Laws.{=ᵗ_refl, =ᵗ→≡}
use terraform_provider_zedam.Diag.{Diagnostic}
use terraform_provider_zedam.GoError.{GoError}
use terraform_provider_zedam.Exec.{Result, Host}
use terraform_provider_zedam.Exec.Try.{Attempt, done, failed, Try, then_try}
use terraform_provider_zedam.IpLink.{has_text}
use terraform_provider_zedam.Resource.{IpCommand, intf_not_found_strs, not_tolerated, run_ip}
use terraform_provider_zedam.Resource.ReadLink.{try_run, judge_try}
use terraform_provider_zedam.Lag.{
  strings_difference, set_dev, judge_tolerant, enslave_member, release_member,
}

-- The membership in one bond, as iproute2 keeps it: a link whose `nomaster` succeeds, or that does
-- not exist, is no member, one whose `master` succeeds is one, and nothing else changes.
pub record BondLinks (h : Host) (d : Text) (ip : IpCommand) (bond : Text) : Type 0 where
  pub is_member : Text → h.World → Bool
  pub nomaster_done :
      (i x : Text) (w : h.World)
      → (run_ip h d ip (set_dev i (codes "nomaster" ∷ [])) w).0.error ≡ none
      → is_member x (run_ip h d ip (set_dev i (codes "nomaster" ∷ [])) w).1
        ≡ (not (i =ᵗ x) && is_member x w)
  pub nomaster_missing :
      (i x : Text) (w : h.World) (e : GoError)
      → (run_ip h d ip (set_dev i (codes "nomaster" ∷ [])) w).0.error ≡ some e
      → not_tolerated (run_ip h d ip (set_dev i (codes "nomaster" ∷ [])) w).0 e intf_not_found_strs
        ≡ false
      → is_member x (run_ip h d ip (set_dev i (codes "nomaster" ∷ [])) w).1
        ≡ (not (i =ᵗ x) && is_member x w)
  pub master_done :
      (i x : Text) (w : h.World)
      → (run_ip h d ip (set_dev i (codes "master" ∷ bond ∷ [])) w).0.error ≡ none
      → is_member x (run_ip h d ip (set_dev i (codes "master" ∷ bond ∷ [])) w).1
        ≡ (i =ᵗ x || is_member x w)
  pub down_keeps :
      (i x : Text) (w : h.World)
      → is_member x (run_ip h d ip (set_dev i (codes "down" ∷ [])) w).1 ≡ is_member x w
  pub up_keeps :
      (i x : Text) (w : h.World)
      → is_member x (run_ip h d ip (set_dev i (codes "up" ∷ [])) w).1 ≡ is_member x w

not_done :
    {W A : Type 0} {ds : List Diagnostic} {e : GoError} {a : A} {w w' : W}
    → ◌≢◌ {A = Attempt A × W} (failed ds e, w) (done a, w')
not_done p = cc

-- the elements of the first list that are not in the second
pub has_text-strings_difference :
    (a b : List Text) (x : Text)
    → has_text x (strings_difference a b) ≡ (has_text x a && not (has_text x b))
unfolding strings_difference has_text
has_text-strings_difference [] b x = refl
has_text-strings_difference (s ∷ a) b x = elim (Bool-cases (s =ᵗ x)) [
  | inl same ↦ rw (=ᵗ→≡ s x same) (ground (arith, has_text-strings_difference a b x, =ᵗ_refl x))
  | inr other ↦ ground (arith, has_text-strings_difference a b x, other)
]

module _ (h : Host) where
  open h use {World}

  -- a tolerant command succeeds, or fails in a tolerated way
  tolerant_elim :
      (P : World → Type 0) (message : Text) (r : Result × World) (w' : World)
      → judge_tolerant h message intf_not_found_strs r ≡ (done tt, w')
      → (r.0.error ≡ none → P r.1)
      → ((e : GoError)
          → r.0.error ≡ some e
          → not_tolerated r.0 e intf_not_found_strs ≡ false
          → P r.1)
      → P w'
  tolerant_elim P message (res, w) w' e on_none on_some = elim (Option-cases res.error) [
    | inl he ↦ subst P (ap (λ p. p.1) (rw he at e)) (on_none he)
    | inr (x, he) ↦ elim (Bool-cases (not_tolerated res x intf_not_found_strs)) [
      | inl out ↦ absurd (not_done (rw (he, out) at e))
      | inr in_list ↦ subst P (ap (λ p. p.1) (rw (he, in_list) at e)) (on_some x he in_list)
    ]
  ]

  -- a chain whose first command must succeed
  then_elim :
      (P : World → Type 0) (message : Text) (r : Result × World) (k : Try World (Unit {0}))
      (w' : World)
      → then_try (judge_try h message r) (λ res. k) ≡ (done tt, w')
      → (r.0.error ≡ none → k r.1 ≡ (done tt, w') → P w')
      → P w'
  then_elim P message (res, w) k w' e go_on = elim (Option-cases res.error) [
    | inl he ↦ go_on he (rw he at e)
    | inr (x, he) ↦ absurd (not_done (rw he at e))
  ]

module _ {h : Host} {d : Text} {ip : IpCommand} {bond : Text} (links : BondLinks h d ip bond) where
  open h use {World}
  open links use {is_member}

  pub release_member_lem :
      (i x : Text) (w w' : World)
      → release_member h d ip i w ≡ (done tt, w')
      → is_member x w' ≡ (not (i =ᵗ x) && is_member x w)
  unfolding release_member
  release_member_lem i x w w' e =
      tolerant_elim h (λ w'. is_member x w' ≡ (not (i =ᵗ x) && is_member x w)) _
        (run_ip h d ip (set_dev i (codes "nomaster" ∷ [])) w) w' e (links.nomaster_done i x w)
        (links.nomaster_missing i x w)

  pub enslave_member_lem :
      (i x : Text) (w w' : World)
      → enslave_member h d ip bond i w ≡ (done tt, w')
      → is_member x w' ≡ (i =ᵗ x || is_member x w)
  unfolding enslave_member try_run
  enslave_member_lem i x w w' e =
      let r1 = run_ip h d ip (set_dev i (codes "down" ∷ [])) w in
      let r2 = run_ip h d ip (set_dev i (codes "master" ∷ bond ∷ [])) r1.1 in
      let r3 = run_ip h d ip (set_dev i (codes "up" ∷ [])) r2.1 in
      then_elim h (λ w'. is_member x w' ≡ (i =ᵗ x || is_member x w)) _ r1 _ w' e
        (λ n1 e1.
          then_elim h (λ w'. is_member x w' ≡ (i =ᵗ x || is_member x w)) _ r2 _ w' e1
            (λ n2 e2.
              then_elim h (λ w'. is_member x w' ≡ (i =ᵗ x || is_member x w)) _ r3 _ w' e2
                (λ n3 e3.
                  subst (λ w'. is_member x w' ≡ (i =ᵗ x || is_member x w)) (ap (λ p. p.1) e3)
                    (links.up_keeps i x r2.1
                      ∙ (links.master_done i x r1.1 n2
                          ∙ ap (λ b. i =ᵗ x || b) (links.down_keeps i x w))))))
