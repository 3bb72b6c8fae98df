-- ===== src/Text/Decimal.antt =====
-- Decimal numbers: `fmt`'s `%d`, `strconv.ParseUint(s, 10, 64)` and `strconv.Atoi` at an unsigned
-- number.
use terraform_provider_zedam.Prelude.{
  ℕ, zero, suc, ◌+◌, ◌-◌, ◌*◌, ◌/◌, ◌%◌, ◌^◌, ◌≤◌, ◌<◌, Bool, [], ◌∷◌, Option, none, some, ltb, leb,
  Bool-cases, inl, inr, ◌∙◌, ap, ◌&&◌, if◌then◌else◌, ◌≡◌, ◌≢◌, refl, arith, All,
}
use terraform_provider_zedam.Text.{Text, codes}

-- the digits of `n` before `out`; the fuel is the number of rounds
emit : ℕ → ℕ → Text → Text
emit zero n out = out
emit (suc f) n out =
    let rest = emit f (n / 10) ((b'0' + n % 10) ∷ out) in
    if ltb n 10 then (b'0' + n) ∷ out else rest

-- `fmt.Sprintf("%d", n)`. The fuel `n + 1` is more than the number of digits.
unfoldable pub format : ℕ → Text
unfolding emit
format n = emit (suc n) n []

abbrev pub max_u64 : ℕ
max_u64 = 2 ^ 64 - 1

abbrev is_digit : ℕ → Bool
is_digit c = leb b'0' c && leb c b'9'

unfoldable pub scan : Text → ℕ → Option ℕ
scan [] n = some n
scan (c ∷ s) n =
    let rest = scan s (n * 10 + (c - b'0')) in
    if is_digit c && leb (n * 10 + (c - b'0')) max_u64 then rest else none

-- `strconv.ParseUint(s, 10, 64)`: the error is `none`
unfoldable pub parse_uint : Text → Option ℕ
unfolding scan
parse_uint [] = none
parse_uint (c ∷ s) = scan (c ∷ s) 0

abbrev pub IsDigit : ℕ → Type 0
IsDigit c = (b'0' ≤ c) × (c ≤ b'9')

emit-scan_last :
    (n : ℕ) (out : Text) → n ≤ max_u64 → scan ((b'0' + n % 10) ∷ out) (n / 10) ≡ scan out n
unfolding scan
emit-scan_last n out h = ground arith

scan-emit : (f n : ℕ) (out : Text) → n < f → n ≤ max_u64 → scan (emit f n out) 0 ≡ scan out n
unfolding emit
scan-emit zero n out lt h = absurd (omega arith)
scan-emit (suc f) n out lt h = elim (Bool-cases (ltb n 10)) [
  | inl small ↦ rw small (unfold scan in ground arith)
  | inr big ↦ rw big (
      scan-emit f (n / 10) ((b'0' + n % 10) ∷ out) (ground arith) (omega arith)
      ∙ emit-scan_last n out h)
]

emit-ne-nil : (f n : ℕ) (out : Text) → out ≢ [] → emit f n out ≢ []
unfolding emit
emit-ne-nil zero n out h = h
emit-ne-nil (suc f) n out h = ground (arith, emit-ne-nil f (n / 10) ((b'0' + n % 10) ∷ out))

pub parse_uint-scan : (s : Text) → s ≢ [] → parse_uint s ≡ scan s 0
unfolding parse_uint
parse_uint-scan [] h = absurd (h refl)
parse_uint-scan (c ∷ s) h = refl

pub format-ne-nil : (n : ℕ) → format n ≢ []
unfolding format emit
format-ne-nil n = ground (arith, emit-ne-nil n (n / 10) ((b'0' + n % 10) ∷ []))

-- Every number of 64 bits is read back from its decimal print.
pub parse_uint-format : (n : ℕ) → n ≤ max_u64 → parse_uint (format n) ≡ some n
unfolding format scan
parse_uint-format n h =
    rw (parse_uint-scan _ (format-ne-nil n)) (scan-emit (suc n) n [] (omega arith) h)

emit-IsDigit : (f n : ℕ) (out : Text) → All IsDigit out → All IsDigit (emit f n out)
unfolding emit
emit-IsDigit zero n out h = h
emit-IsDigit (suc f) n out h = ground (arith, emit-IsDigit f (n / 10) ((b'0' + n % 10) ∷ out))

-- A decimal print holds digits alone.
pub format-IsDigit : (n : ℕ) → All IsDigit (format n)
unfolding format
format-IsDigit n = emit-IsDigit (suc n) n [] tt

-- Different numbers have different prints.
pub format_ne : (n m : ℕ) → n ≤ max_u64 → m ≤ max_u64 → n ≢ m → format n ≢ format m
format_ne n m hn hm h e = h (cc (parse_uint-format n hn, parse_uint-format m hm, ap parse_uint e))

prints_a_port : format 50277 ≡ codes "50277"
unfolding format
prints_a_port = refl

refuses_overflow : parse_uint (codes "18446744073709551616") ≡ none
unfolding parse_uint
refuses_overflow = refl
