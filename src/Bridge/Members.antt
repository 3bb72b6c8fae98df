-- ===== src/Bridge/Members.antt =====
-- The members that `readBridge` reports.
use terraform_provider_zedam.Prelude.{
  List, [], ◌∷◌, ◌≡◌, ◌↔◌, refl, sym, arith, subst, Member, inl, inr, Bool-cases,
}
use terraform_provider_zedam.Text.{Text, codes}
use terraform_provider_zedam.Exec.{Result, Host}
use terraform_provider_zedam.Exec.Try.{done, then_try}
use terraform_provider_zedam.Attr.{Attr, null, unknown, known}
use terraform_provider_zedam.IpLink.{ProviderConfig, has_text}
use terraform_provider_zedam.IpLink.Flags.{has_text_iff}
use terraform_provider_zedam.IpLink.Parse.{member_names}
use terraform_provider_zedam.Resource.{NetLib, IpCommand, run_ip}
use terraform_provider_zedam.Resource.ReadLink.{kept_members, read_members, try_run, judge_try}
use terraform_provider_zedam.Bridge.{members_or_null, read_enslaved}

kept→both :
    (current ms : List Text) (x : Text)
    → Member x (kept_members current ms)
    → Member x ms × Member x current
unfolding kept_members
kept→both current [] x m = elim m [ ]
kept→both current (y ∷ ms) x m = elim (Bool-cases (has_text y current)) [
  | inl here ↦ elim (rw here at m) [
    | inl p ↦ (inl p, subst (λ z. Member z current) p ((has_text_iff y current).0 here))
    | inr r ↦ (let (a, b) = kept→both current ms x r in (inr a, b))
  ]
  | inr gone ↦ (let (a, b) = kept→both current ms x (rw gone at m) in (inr a, b))
]

both→kept :
    (current ms : List Text) (x : Text)
    → Member x ms
    → Member x current
    → Member x (kept_members current ms)
unfolding kept_members
both→kept current [] x m c = elim m [ ]
both→kept current (y ∷ ms) x (inl p) c =
    rw ((has_text_iff y current).1 (subst (λ z. Member z current) (sym p) c)) (inl p)
both→kept current (y ∷ ms) x (inr m) c = elim (Bool-cases (has_text y current)) [
  | inl here ↦ rw here (inr (both→kept current ms x m c))
  | inr gone ↦ rw gone (both→kept current ms x m c)
]

-- the managed members that are left, and no other
pub kept_members_iff :
    (current ms : List Text) (x : Text)
    → Member x (kept_members current ms) ↔ (Member x ms × Member x current)
kept_members_iff current ms x = (kept→both current ms x, λ (a, b). both→kept current ms x a b)

-- the interfaces of an attribute
abbrev pub members_of : Attr (List Text) → List Text
members_of null = []
members_of unknown = []
members_of (known ms) = ms

members_of-members_or_null : (ms : List Text) → members_of (members_or_null ms) ≡ ms
members_of-members_or_null [] = refl
members_of-members_or_null (m ∷ ms) = refl

module _ (h : Host) (net : NetLib) (conf : ProviderConfig) (d : Text) (ip : IpCommand) where
  open h use {World}

  -- what `ip link show master` prints
  abbrev pub members_output : Text → World → Result × World
  members_output br w = run_ip h d ip (codes "link" ∷ codes "show" ∷ codes "master" ∷ br ∷ []) w

  after_members :
      (ms : List Text) (r : Result × World) (message : Text) (v : Attr (List Text)) (w' : World)
      → then_try
          (then_try (judge_try h message r) (λ res w. (done (member_names res.stdout), w)))
          (λ current w. (done (members_or_null (kept_members current ms)), w))
        ≡ (done v, w')
      → v ≡ members_or_null (kept_members (member_names r.0.stdout) ms)
  after_members ms (res, w) message v w' e = ground arith

  -- A bridge reports as enslaved exactly those interfaces that it manages and that iproute2 lists
  -- as members: none that others attached, and none that has left. Without managed interfaces the
  -- attribute stays null.
  pub read_enslaved-exact :
      (br : Text) (managed v : Attr (List Text)) (w w' : World)
      → read_enslaved h net conf d ip br managed w ≡ (done v, w')
      → (x : Text)
      → Member x (members_of v)
        ↔ (Member x (members_of managed) × Member x (member_names (members_output br w).0.stdout))
  unfolding read_enslaved read_members try_run
  read_enslaved-exact br null v w w' e x =
      let none_managed : v ≡ null = ground arith in
      rw none_managed (λ m. elim m [ ], λ p. elim p.0 [ ])
  read_enslaved-exact br unknown v w w' e x =
      let none_managed : v ≡ null = ground arith in
      rw none_managed (λ m. elim m [ ], λ p. elim p.0 [ ])
  read_enslaved-exact br (known ms) v w w' e x =
      rw (after_members ms (members_output br w) _ v w' e) (
        rw
          (members_of-members_or_null
            (kept_members (member_names (members_output br w).0.stdout) ms))
          (kept_members_iff _ ms x))
