-- ===== src/Exec/Exited.antt =====
-- The error of a command that ran and exited with another code than 0, as both executors return it:
-- that of os/exec (internal/cmd/cmd_run.go), and that of the package ssh (internal/exec/ssh.go).
use terraform_provider_zedam.Prelude.{
  ℕ, false, List, [], ◌∷◌, ◌++◌, ◌≡◌, ◌≢◌, ◌⊎◌, inl, inr, refl, arith, Member, All,
}
use terraform_provider_zedam.Text.{Text, codes, contains, has_prefix, cut_prefix}
use terraform_provider_zedam.Text.Laws.{Lacks}
use terraform_provider_zedam.Text.Decimal.{format, format-IsDigit, IsDigit}
use terraform_provider_zedam.ErrChecker.{contains_one}
use terraform_provider_zedam.GoError.{GoError, error_text}

-- What such an error says: nothing of what the command printed.
abbrev pub IsExit : GoError → Type 0
IsExit e =
    (n : ℕ) × ((error_text e ≡ codes "exit status " ++ format n)
      ⊎ (error_text e ≡ codes "Process exited with status " ++ format n))

has_prefix-Lacks : (c : ℕ) (s p : Text) → Lacks c s → Member c p → has_prefix s p ≡ false
unfolding has_prefix cut_prefix
has_prefix-Lacks c s [] h m = elim m [ ]
has_prefix-Lacks c [] (d ∷ p) h m = refl
has_prefix-Lacks c (b ∷ s) (d ∷ p) (hb, hs) (inl e) = ground arith
has_prefix-Lacks c (b ∷ s) (d ∷ p) (hb, hs) (inr m) = ground (arith, has_prefix-Lacks c s p hs m)

-- A text that lacks a byte does not contain a text that has it.
contains-Lacks : (c : ℕ) (s p : Text) → Lacks c s → Member c p → contains s p ≡ false
unfolding contains
contains-Lacks c [] p h m = has_prefix-Lacks c [] p h m
contains-Lacks c (b ∷ s) p h m = rw (has_prefix-Lacks c (b ∷ s) p h m) (contains-Lacks c s p h.1 m)

-- The letters that neither message has, and that each of the texts looked for has.
abbrev pub Foreign : Text → Type 0
Foreign p = Member b'v' p ⊎ Member b'n' p ⊎ Member b'f' p

abbrev IsPlain : ℕ → Type 0
IsPlain c = (c ≢ b'v') × (c ≢ b'n') × (c ≢ b'f')

All-append : (s t : Text) → All IsPlain s → All IsPlain t → All IsPlain (s ++ t)
All-append [] t hs ht = ht
All-append (c ∷ s) t (hc, hs) ht = (hc, All-append s t hs ht)

digits-All-IsPlain : (s : Text) → All IsDigit s → All IsPlain s
digits-All-IsPlain [] h = tt
digits-All-IsPlain (c ∷ s) ((lo, hi), h) = (ground arith, digits-All-IsPlain s h)

IsExit-All-IsPlain : (e : GoError) → IsExit e → All IsPlain (error_text e)
IsExit-All-IsPlain e (n, inl q) = rw q (
    All-append (codes "exit status ") (format n) (ground arith)
      (digits-All-IsPlain (format n) (format-IsDigit n)))
IsExit-All-IsPlain e (n, inr q) = rw q (
    All-append (codes "Process exited with status ") (format n) (ground arith)
      (digits-All-IsPlain (format n) (format-IsDigit n)))

plain_Lacks : (s : Text) → All IsPlain s → Lacks b'v' s × Lacks b'n' s × Lacks b'f' s
plain_Lacks [] h = (tt, tt, tt)
plain_Lacks (c ∷ s) ((v, n, f), h) =
    let (hv, hn, hf) = plain_Lacks s h in ((v, hv), (n, hn), (f, hf))

plain_misses : (s p : Text) → All IsPlain s → Foreign p → contains s p ≡ false
plain_misses s p h (inl m) = contains-Lacks b'v' s p (plain_Lacks s h).0 m
plain_misses s p h (inr (inl m)) = contains-Lacks b'n' s p (plain_Lacks s h).1 m
plain_misses s p h (inr (inr m)) = contains-Lacks b'f' s p (plain_Lacks s h).2 m

misses_each :
    (s : Text) (ps : List Text) → All IsPlain s → All Foreign ps → contains_one s ps ≡ false
unfolding contains_one
misses_each s [] h ms = refl
misses_each s (p ∷ ps) h (m, ms) = rw (plain_misses s p h m) (misses_each s ps h ms)

-- The message of such an error holds none of the texts that name a missing device or file.
pub contains_one-IsExit :
    (e : GoError) (ps : List Text)
    → IsExit e
    → All Foreign ps
    → contains_one (error_text e) ps ≡ false
contains_one-IsExit e ps h ms = misses_each (error_text e) ps (IsExit-All-IsPlain e h) ms
