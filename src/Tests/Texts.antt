-- ===== src/Tests/Texts.antt =====
-- Errors that wrap each other, quoted command lines and the forwards of an edge node.
use terraform_provider_zedam.Prelude.{
  ℕ, zero, suc, ◌==◌, ==→≡, Bool, true, not, [], ◌∷◌, Option, some, ◌≡◌, ◌↔◌, refl, arith, Member,
  inl, inr, subst, sym,
}
use mathlib.Core.Option
use terraform_provider_zedam.Text.{Text, codes}
use terraform_provider_zedam.ErrChecker.{
  Errors, wrapped, contains_any, contains_none, degree, Reach, Hits, IsClosed,
}
use terraform_provider_zedam.ErrChecker.Search.{contains_none-not}
use terraform_provider_zedam.ErrChecker.Found.{contains_any_exact}
use terraform_provider_zedam.GoError.{GoError, new, errorf}
use terraform_provider_zedam.Shell.{shell_join}
use terraform_provider_zedam.Shell.Lexer.{words, words-shell_join}
use terraform_provider_zedam.Forwards.{standard_forwards, parse_forwards, gvproxy_forwards, ok}
use terraform_provider_zedam.Forwards.Gvproxy.{forwards_of, parse_forwards-gvproxy_forwards}

abbrev ring_message : ℕ → Text
ring_message zero = codes "open link"
ring_message (suc n) = codes "no such device"

-- two errors that wrap each other, and every other one itself
abbrev ring_wraps : ℕ → Option ℕ
ring_wraps zero = some 1
ring_wraps (suc zero) = some 0
ring_wraps (suc (suc n)) = some (suc (suc n))

ring_same_iff : (a b : ℕ) → ((a == b) ≡ true) ↔ (a ≡ b)
ring_same_iff a b = (==→≡ a b, λ p. ground arith)

abbrev ring : Errors
ring = record {
  Err = ℕ;
  message = ring_message;
  same = λ a b. a == b;
  same_iff = ring_same_iff;
  unwrap = ring_wraps;
  unwrap_all = λ e. [];
}

ring-IsClosed : IsClosed ring (0 ∷ 1 ∷ [])
ring-IsClosed x (inl p) c m = elim (subst (λ y. Member c (wrapped ring y)) (sym p) m) [
  | inl q ↦ inr (inl q)
  | inr n ↦ elim n [ ]
]
ring-IsClosed x (inr (inl p)) c m = elim (subst (λ y. Member c (wrapped ring y)) (sym p) m) [
  | inl q ↦ inl q
  | inr n ↦ elim n [ ]
]
ring-IsClosed x (inr (inr n)) c m = elim n [ ]

contains_any_exact_example :
    (b : Bool) × (contains_any ring
        (suc (degree ring (0 ∷ 1 ∷ [])))
        (some 0)
        (codes "no such device" ∷ [])
      ≡ some b)
    × ((b ≡ true) ↔ ((e : ℕ) × Reach ring 0 e × Hits ring (codes "no such device" ∷ []) e))
contains_any_exact_example =
    contains_any_exact ring (0 ∷ 1 ∷ []) 0 (codes "no such device" ∷ []) ring-IsClosed (inl refl)

contains_none-not_example :
    contains_none ring 3 (some 0) (codes "refused" ∷ [])
    ≡ Option.map not (contains_any ring 3 (some 0) (codes "refused" ∷ []))
contains_none-not_example = contains_none-not ring 3 (some 0) (codes "refused" ∷ [])

abbrev deep_error : GoError
deep_error = errorf (codes "can't retrieve bridge details: ") (new (codes "exit status 1"))

words-shell_join_example :
    words (shell_join (codes "/bin/echo") (codes "it's" ∷ codes "$HOME; rm -rf /" ∷ [] ∷ []))
    ≡ some (codes "/bin/echo" ∷ codes "it's" ∷ codes "$HOME; rm -rf /" ∷ [] ∷ [])
words-shell_join_example =
    words-shell_join (codes "/bin/echo") (codes "it's" ∷ codes "$HOME; rm -rf /" ∷ [] ∷ [])

parse_forwards-gvproxy_forwards_example :
    parse_forwards (gvproxy_forwards 50222 (codes "192.168.127.2"))
    ≡ ok (forwards_of 50222 (codes "192.168.127.2") standard_forwards)
parse_forwards-gvproxy_forwards_example =
    parse_forwards-gvproxy_forwards 50222 (codes "192.168.127.2") (ground arith) (omega arith)
