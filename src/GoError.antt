-- ===== src/GoError.antt =====
-- The errors that the provider's own code makes: `errors.New`, and `fmt.Errorf` with one `%w` at
-- the end of its format. They are an instance of what internal/errchecker searches.
use terraform_provider_zedam.Prelude.{
  suc, not, Bool, true, false, ◌&&◌, List, [], ◌∷◌, ◌++◌, Option, none, some, ◌≡◌, ◌↔◌, refl, sym,
  arith, ap, Member, inl, inr, subst,
}
use terraform_provider_zedam.Text.{Text, ◌=ᵗ◌}
use terraform_provider_zedam.Text.Laws.{=ᵗ_refl, =ᵗ→≡}
use terraform_provider_zedam.ErrChecker.{
  Errors, IsClosed, wrapped, degree, contains_any, contains_none, Reach, here, wraps, Hits,
}
use mathlib.Core.Option
use terraform_provider_zedam.ErrChecker.Search.{contains_none-not}
use terraform_provider_zedam.ErrChecker.Found.{contains_any_exact}

-- `errorf prefix cause` is `fmt.Errorf("<prefix>%w", cause)`.
pub data GoError : Type 0 where
  new : Text → GoError
  errorf : Text → GoError → GoError

-- `err.Error()`
unfoldable pub error_text : GoError → Text
error_text (new m) = m
error_text (errorf p e) = p ++ error_text e

pub same_error : GoError → GoError → Bool
same_error (new m) (new n) = m =ᵗ n
same_error (new m) (errorf q f) = false
same_error (errorf p e) (new n) = false
same_error (errorf p e) (errorf q f) = p =ᵗ q && same_error e f

same_error_refl : (e : GoError) → same_error e e ≡ true
unfolding same_error
same_error_refl (new m) = =ᵗ_refl m
same_error_refl (errorf p e) = ground (arith, =ᵗ_refl p, same_error_refl e)

same_error→≡ : (e f : GoError) → same_error e f ≡ true → e ≡ f
unfolding same_error
same_error→≡ (new m) (new n) h = ap new (=ᵗ→≡ m n h)
same_error→≡ (new m) (errorf q f) h = cc
same_error→≡ (errorf p e) (new n) h = cc
same_error→≡ (errorf p e) (errorf q f) h = ground (arith, =ᵗ→≡ p q, same_error→≡ e f)

pub same_error_iff : (e f : GoError) → (same_error e f ≡ true) ↔ (e ≡ f)
same_error_iff e f =
    (same_error→≡ e f, λ p. subst (λ g. same_error e g ≡ true) p (same_error_refl e))

-- `errors.Unwrap(err)`
abbrev pub unwrap : GoError → Option GoError
unwrap (new m) = none
unwrap (errorf p e) = some e

abbrev pub go_errors : Errors
go_errors = record {
  Err = GoError;
  message = error_text;
  same = same_error;
  same_iff = same_error_iff;
  unwrap = unwrap;
  unwrap_all = λ e. [];
}

-- an error and all that it wraps
chain : GoError → List GoError
chain (new m) = new m ∷ []
chain (errorf p e) = errorf p e ∷ chain e

chain_self : (e : GoError) → Member e (chain e)
unfolding chain
chain_self (new m) = inl refl
chain_self (errorf p e) = inl refl

chain-IsClosed : (e : GoError) → IsClosed go_errors (chain e)
unfolding chain
chain-IsClosed (new m) x (inl p) c w =
    elim (subst (λ y. Member c (wrapped go_errors y)) (sym p) w) [ ]
chain-IsClosed (new m) x (inr n) c w = elim n [ ]
chain-IsClosed (errorf p e) x (inl q) c w =
    elim (subst (λ y. Member c (wrapped go_errors y)) (sym q) w) [
      | inl r ↦ inr (subst (λ y. Member y (chain e)) r (chain_self e))
      | inr n ↦ elim n [ ]
    ]
chain-IsClosed (errorf p e) x (inr m) c w = inr (chain-IsClosed e x m c w)

abbrev or_false : Option Bool → Bool
or_false none = false
or_false (some b) = b

-- `errchecker.ContainsAny(err, strs)`; the chain of `err` gives enough fuel.
unfoldable pub error_contains_any : GoError → List Text → Bool
unfolding chain contains_any degree same_error
error_contains_any e strs =
    or_false (contains_any go_errors (suc (degree go_errors (chain e))) (some e) strs)

abbrev or_true : Option Bool → Bool
or_true none = true
or_true (some b) = b

-- `errchecker.ContainsNone(err, strs)`
unfoldable pub error_contains_none : GoError → List Text → Bool
unfolding chain contains_none degree same_error
error_contains_none e strs =
    or_true (contains_none go_errors (suc (degree go_errors (chain e))) (some e) strs)

-- The search of an error's chain answers whether some error in it has one of the texts.
pub error_contains_any_iff :
    (e : GoError) (strs : List Text)
    → (error_contains_any e strs ≡ true)
      ↔ ((x : GoError) × Reach go_errors e x × Hits go_errors strs x)
unfolding error_contains_any
error_contains_any_iff e strs =
    let (b, r, iff) =
      contains_any_exact go_errors (chain e) e strs (chain-IsClosed e) (chain_self e) in
    (λ h. iff.0 (ground arith), λ w. ground (arith, iff.1 w))

or_true-not : (o : Option Bool) → or_true (Option.map not o) ≡ not (or_false o)
or_true-not none = refl
or_true-not (some b) = refl

-- The two searches of an error disagree, always.
pub error_contains_none-not :
    (e : GoError) (strs : List Text) → error_contains_none e strs ≡ not (error_contains_any e strs)
unfolding error_contains_none error_contains_any
error_contains_none-not e strs =
    rw (contains_none-not go_errors (suc (degree go_errors (chain e))) (some e) strs)
      (or_true-not _)

pub Reach-cause :
    (p : Text) (e : GoError) {x : GoError} → Reach go_errors e x → Reach go_errors (errorf p e) x
Reach-cause p e here = wraps e here (inl refl)
Reach-cause p e (wraps c r m) = wraps c (Reach-cause p e r) m

-- What an error holds is found through every wrapper.
pub error_contains_any-errorf :
    (p : Text) (e : GoError) (strs : List Text)
    → error_contains_any e strs ≡ true
    → error_contains_any (errorf p e) strs ≡ true
error_contains_any-errorf p e strs h =
    let (x, r, hits) = (error_contains_any_iff e strs).0 h in
    (error_contains_any_iff (errorf p e) strs).1 (x, Reach-cause p e r, hits)
