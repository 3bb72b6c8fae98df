-- ===== src/Daemon/Pid.antt =====
-- The process identifier in the file `pid`: main.go writes it, the provider reads it back.
use terraform_provider_zedam.Prelude.{
  ℕ, zero, suc, ◌+◌, ◌-◌, ◌*◌, ◌^◌, ◌≤◌, ◌<◌, true, false, [], ◌∷◌, some, leb, ltb, ◌≡◌, ◌≢◌, Bool,
  ◌⊎◌, if◌then◌else◌, refl, arith, All, Bool-cases, inl, inr, sym, subst, ◌∙◌, ap,
}
use terraform_provider_zedam.Prelude.Int.{ℤ, pos, negsuc}
use terraform_provider_zedam.Text.{Text, is_space, trim_space}
use terraform_provider_zedam.Text.Laws.{trim_space_id}
use terraform_provider_zedam.Text.Decimal.{
  format, scan, parse_uint-scan, format-ne-nil, parse_uint-format, format-IsDigit, IsDigit,
}
use terraform_provider_zedam.GoError.{GoError}
use terraform_provider_zedam.Exec.{Fallible, got, failure}
use terraform_provider_zedam.Daemon.{parse_int32, scan32, digits32, negated, signed32}

-- the numbers of a signed integer of 32 bits
abbrev pub IsInt32 : ℤ → Type 0
IsInt32 (pos n) = n < 2 ^ 31
IsInt32 (negsuc n) = n < 2 ^ 31

scan_le : (s : Text) (n m : ℕ) → scan s n ≡ some m → n ≤ m
unfolding scan
scan_le [] n m h = ground arith
scan_le (c ∷ s) n m h = ground (arith, scan_le s (n * 10 + (c - b'0')) m)

scan32-scan : (s : Text) (n m : ℕ) → scan s n ≡ some m → m < 2 ^ 32 → scan32 s n ≡ got m
unfolding scan scan32
scan32-scan [] n m h lt = ground arith
scan32-scan (c ∷ s) n m h lt =
    ground (arith, scan32-scan s (n * 10 + (c - b'0')) m, scan_le s (n * 10 + (c - b'0')) m)

digits32-scan32 : (s : Text) → s ≢ [] → digits32 s ≡ scan32 s 0
unfolding digits32
digits32-scan32 [] h = absurd (h refl)
digits32-scan32 (c ∷ s) h = refl

digits32-format : (n : ℕ) → n < 2 ^ 32 → digits32 (format n) ≡ got n
digits32-format n lt =
    digits32-scan32 (format n) (format-ne-nil n)
    ∙ scan32-scan (format n) 0 n
        (sym (parse_uint-scan (format n) (format-ne-nil n)) ∙ parse_uint-format n (omega arith)) lt

-- a text of digits has no sign
parse_int32-digits :
    (s : Text) → s ≢ [] → All IsDigit s → parse_int32 s ≡ signed32 false s (digits32 s)
unfolding parse_int32
parse_int32-digits [] h all = absurd (h refl)
parse_int32-digits (c ∷ s) h ((lo, hi), all) = ground arith

digits-NoSpace : (s : Text) → All IsDigit s → All (λ c. is_space c ≡ false) s
digits-NoSpace [] h = tt
digits-NoSpace (c ∷ s) ((lo, hi), h) = (ground arith, digits-NoSpace s h)

-- A process identifier that the daemon writes in decimal is the one that the provider reads, for
-- every number below 2^31.
pub parse_int32-format : (n : ℕ) → n < 2 ^ 31 → parse_int32 (trim_space (format n)) ≡ got (pos n)
parse_int32-format n lt = rw (trim_space_id (format n) (digits-NoSpace _ (format-IsDigit n))) (
    parse_int32-digits (format n) (format-ne-nil n) (format-IsDigit n)
    ∙ (ap (signed32 false (format n)) (digits32-format n (omega arith)) ∙ ground arith))

negated-IsInt32 : (n : ℕ) → n ≤ 2 ^ 31 → IsInt32 (negated n)
negated-IsInt32 zero h = omega arith
negated-IsInt32 (suc n) h = omega arith

in_range :
    (b : Bool) (k z : ℤ) (e : GoError)
    → IsInt32 k ⊎ (b ≡ false)
    → (if b then got k else failure e) ≡ got z
    → IsInt32 z
in_range true k z e (inl r) h = subst IsInt32 (cc h) r
in_range true k z e (inr n) h = absurd cc
in_range false k z e r h = absurd cc

signed32-IsInt32 :
    (neg : Bool) (s : Text) (d : Fallible ℕ) (z : ℤ) → signed32 neg s d ≡ got z → IsInt32 z
signed32-IsInt32 neg s (failure e) z h = absurd cc
signed32-IsInt32 true s (got n) z h =
    in_range (leb n (2 ^ 31)) (negated n) z _
      (elim (Bool-cases (leb n (2 ^ 31))) [
        | inl y ↦ inl (negated-IsInt32 n (ground arith))
        | inr no_fit ↦ inr no_fit
      ])
      h
signed32-IsInt32 false s (got n) z h =
    in_range (ltb n (2 ^ 31)) (pos n) z _
      (elim (Bool-cases (ltb n (2 ^ 31))) [ inl y ↦ inl (ground arith) | inr no_fit ↦ inr no_fit ])
      h

-- What is read is a signed number of 32 bits, whatever the file holds.
pub parse_int32-IsInt32 : (s : Text) (z : ℤ) → parse_int32 s ≡ got z → IsInt32 z
unfolding parse_int32
parse_int32-IsInt32 [] z h = signed32-IsInt32 false [] (digits32 []) z h
parse_int32-IsInt32 (c ∷ s) z h = ground (
  arith,
  signed32-IsInt32 true (c ∷ s) (digits32 s) z,
  signed32-IsInt32 false (c ∷ s) (digits32 s) z,
  signed32-IsInt32 false (c ∷ s) (digits32 (c ∷ s)) z,
)
