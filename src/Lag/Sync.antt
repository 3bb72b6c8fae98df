-- ===== src/Lag/Sync.antt =====
-- The change of the members in `Update` of internal/provider/lag_resource.go, against the sets of
-- members that the plan and the state name.
use terraform_provider_zedam.Prelude.{
  true, false, ◌&&◌, ◌||◌, not, List, [], ◌∷◌, ◌≡◌, refl, arith, ap, subst,
}
use terraform_provider_zedam.Text.{Text}
use terraform_provider_zedam.Exec.{Host}
use terraform_provider_zedam.Exec.Act.{Act, Step, go, stop, next}
use terraform_provider_zedam.Exec.Try.{Attempt, done, failed, report}
use terraform_provider_zedam.Attr.{Attr, is_unknown}
use terraform_provider_zedam.IpLink.{ProviderConfig, has_text}
use terraform_provider_zedam.Resource.{NetLib, IpCommand}
use terraform_provider_zedam.Lag.{
  lag_members_slice, strings_difference, enslave_member, release_member,
}
use terraform_provider_zedam.Lag.Handlers.{enslave_members}
use terraform_provider_zedam.Lag.Update.{update_error, release_members, update_members}
use terraform_provider_zedam.Lag.Members.{
  BondLinks, has_text-strings_difference, release_member_lem, enslave_member_lem,
}

-- an action before another that goes on has gone on itself
next_elim :
    {W A : Type 0} (Q : Type 0) (r : Attempt (Unit {0}) × W) (title : Text) (k : Act W A) (a : A)
    (w' : W)
    → next (report title r) (λ t. k) ≡ (go a, w')
    → ((w1 : W) → r ≡ (done tt, w1) → k w1 ≡ (go a, w') → Q)
    → Q
next_elim Q (done t, w) title k a w' e go_on = go_on w refl e
next_elim Q (failed ds x, w) title k a w' e go_on = absurd cc

after_elim :
    {W A : Type 0} (Q : Type 0) (r : Step (Unit {0}) × W) (k : Act W A) (a : A) (w' : W)
    → next r (λ t. k) ≡ (go a, w')
    → ((w1 : W) → r ≡ (go tt, w1) → k w1 ≡ (go a, w') → Q)
    → Q
after_elim Q (go t, w) k a w' e go_on = go_on w refl e
after_elim Q (stop ds, w) k a w' e go_on = absurd cc

module _ {h : Host} {d : Text} {ip : IpCommand} {bond : Text} (links : BondLinks h d ip bond) where
  open h use {World}
  open links use {is_member}

  release_members_lem :
      (title : Text) (ifaces : List Text) (x : Text) (w w' : World)
      → release_members h d ip title ifaces w ≡ (go tt, w')
      → is_member x w' ≡ (not (has_text x ifaces) && is_member x w)
  unfolding release_members has_text
  release_members_lem title [] x w w' e =
      subst (λ v. is_member x v ≡ is_member x w) (ap (λ p. p.1) e) refl
  release_members_lem title (i ∷ ifaces) x w w' e =
      next_elim _ (release_member h d ip i w) title (release_members h d ip title ifaces) tt w' e
        (λ w1 e1 e2. ground (
          arith,
          release_member_lem links i x w w1 e1,
          release_members_lem title ifaces x w1 w' e2,
        ))

  module _ (net : NetLib) (conf : ProviderConfig) where
    enslave_members_lem :
        (title : Text) (ifaces : List Text) (x : Text) (w w' : World)
        → enslave_members h net conf d ip title bond ifaces w ≡ (go tt, w')
        → is_member x w' ≡ (has_text x ifaces || is_member x w)
    unfolding enslave_members has_text
    enslave_members_lem title [] x w w' e =
        subst (λ v. is_member x v ≡ is_member x w) (ap (λ p. p.1) e) refl
    enslave_members_lem title (i ∷ ifaces) x w w' e =
        next_elim _ (enslave_member h d ip bond i w) title
          (enslave_members h net conf d ip title bond ifaces) tt w' e
          (λ w1 e1 e2. ground (
            arith,
            enslave_member_lem links i x w w1 e1,
            enslave_members_lem title ifaces x w1 w' e2,
          ))

    -- Given what iproute2 does to a bond's members, an update of them that succeeds, for a plan whose
    -- members are known, leaves as members exactly those of the plan, and
    -- those that were members without being managed: if the managed members of the state still are
    -- members before, then afterwards a link is a member if the plan names it, or if it was one and
    -- the state does not name it.
    pub update_members-exact :
        (plan state : Attr (List Text)) (w w' : World)
        → is_unknown plan ≡ false
        → ((x : Text) → has_text x (lag_members_slice state) ≡ true → is_member x w ≡ true)
        → update_members h net conf d ip bond plan state w ≡ (go tt, w')
        → (x : Text)
        → is_member x w' ≡ (
            has_text x (lag_members_slice plan)
            || not (has_text x (lag_members_slice state)) && is_member x w)
    unfolding update_members
    update_members-exact plan state w w' planned held e x =
        let ps = lag_members_slice plan in
        let ss = lag_members_slice state in
        after_elim _ (release_members h d ip update_error (strings_difference ss ps) w)
          (enslave_members h net conf d ip update_error bond (strings_difference ps ss)) tt w'
          (rw planned at e)
          (λ w1 e1 e2. ground (
            arith,
            release_members_lem update_error (strings_difference ss ps) x w w1 e1,
            enslave_members_lem update_error (strings_difference ps ss) x w1 w' e2,
            has_text-strings_difference ps ss x,
            has_text-strings_difference ss ps x,
            held x,
          ))
