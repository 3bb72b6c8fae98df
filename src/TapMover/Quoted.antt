-- ===== src/TapMover/Quoted.antt =====
-- The word `moved` in quotes, which `readMoverStatus` of internal/provider/tap_resource.go looks for,
-- in the JSON that main_tap_mover_linux_amd64.go writes.
use terraform_provider_zedam.Prelude.{
  ℕ, ◌≤◌, ◌/◌, ◌%◌, Bool, true, false, ◌||◌, ltb, ◌==◌, [], ◌∷◌, ◌++◌, ◌≡◌, ◌≢◌, ◌⊎◌, inl, inr,
  refl, sym, subst, arith, All, Bool-cases, ==→≡, if◌then◌else◌, ◌∙◌, ap, ap₂, append_assoc,
}
use terraform_provider_zedam.Text.{Text, codes, contains, has_prefix}
use terraform_provider_zedam.Text.Laws.{Lacks}
use terraform_provider_zedam.Text.Quote.{json_byte, json_bytes, hex_byte, hex_digit}

abbrev pub moved_name : Text
moved_name = codes "moved"

-- `"moved"` with its quotes
abbrev pub moved_text : Text
moved_text = b'"' ∷ (moved_name ++ (b'"' ∷ []))

skip : (c : ℕ) (s : Text) → c ≢ b'"' → contains (c ∷ s) moved_text ≡ contains s moved_text
unfolding contains has_prefix
skip c s h = ground arith

pub skip_all : (a s : Text) → Lacks b'"' a → contains (a ++ s) moved_text ≡ contains s moved_text
skip_all [] s h = refl
skip_all (c ∷ a) s (hc, ha) = skip c (a ++ s) hc ∙ skip_all a s ha

pub skip_quote :
    (s : Text)
    → has_prefix s (moved_name ++ (b'"' ∷ [])) ≡ false
    → contains (b'"' ∷ s) moved_text ≡ contains s moved_text
unfolding contains has_prefix
skip_quote s h = rw h refl

hex_digit_ne : (n : ℕ) → hex_digit n ≢ b'"'
unfolding hex_digit
hex_digit_ne n = ground arith

json_byte-Lacks : (c : ℕ) → c ≢ b'"' → Lacks b'"' (json_byte c)
unfolding json_byte hex_byte
json_byte-Lacks c h = ground (arith, hex_digit_ne (c / 16), hex_digit_ne (c % 16))

-- how the JSON of a byte looks: the byte itself, which is then no quote, or an escape
abbrev IsJson : ℕ → Text → Type 0
IsJson c t = ((t ≡ c ∷ []) × (c ≢ b'"')) ⊎ ((r : Text) × (t ≡ 92 ∷ r))

if-IsJson :
    (c : ℕ) (b : Bool) (x y : Text) → IsJson c x → IsJson c y → IsJson c (if b then x else y)
if-IsJson c true x y hx hy = hx
if-IsJson c false x y hx hy = hy

json_byte-IsJson : (c : ℕ) → IsJson c (json_byte c)
unfolding json_byte hex_byte
json_byte-IsJson c = elim (Bool-cases (c == b'"' || c == 92)) [
  | inl y ↦ rw y (inr (c ∷ [], refl))
  | inr n ↦ rw n (
      if-IsJson c (c == 8) _ _ (inr (_, refl)) (
        if-IsJson c (c == 12) _ _ (inr (_, refl)) (
          if-IsJson c (c == 10) _ _ (inr (_, refl)) (
            if-IsJson c (c == 13) _ _ (inr (_, refl)) (
              if-IsJson c (c == 9) _ _ (inr (_, refl)) (
                if-IsJson c (ltb c 32 || c == b'<' || c == b'>' || c == b'&') _ _ (inr (_, refl))
                  (inl (refl, ground arith))))))))
]

abbrev IsLetter : ℕ → Type 0
IsLetter d = (b'a' ≤ d) × (d ≤ b'z')

prefix_cons :
    (c d : ℕ) (s p : Text) → has_prefix (c ∷ s) (d ∷ p) ≡ true → (c ≡ d) × (has_prefix s p ≡ true)
unfolding has_prefix
prefix_cons c d s p h = ground arith

prefix_json :
    (c d : ℕ) (t rest p : Text)
    → IsJson c t
    → d ≢ 92
    → has_prefix (t ++ rest) (d ∷ p) ≡ true
    → (c ≢ b'"') × (c ≡ d) × (has_prefix rest p ≡ true)
prefix_json c d t rest p (inl (e, h)) hd pre =
    let (a, b) =
      prefix_cons c d rest p (subst (λ x. has_prefix (x ++ rest) (d ∷ p) ≡ true) e pre) in
    (h, a, b)
prefix_json c d t rest p (inr (r, e)) hd pre = absurd (
    hd (
      sym
        (prefix_cons 92 d (r ++ rest) p
          (subst (λ x. has_prefix (x ++ rest) (d ∷ p) ≡ true) e pre)).0))

json_head :
    (c d : ℕ) (s r p : Text)
    → d ≢ 92
    → has_prefix (json_bytes (c ∷ s) ++ r) (d ∷ p) ≡ true
    → (c ≢ b'"') × (c ≡ d) × (has_prefix (json_bytes s ++ r) p ≡ true)
unfolding json_bytes
json_head c d s r p hd pre =
    prefix_json c d (json_byte c) (json_bytes s ++ r) p (json_byte-IsJson c) hd
      (subst (λ x. has_prefix x (d ∷ p) ≡ true) (append_assoc (json_byte c) (json_bytes s) r) pre)

-- A text of letters in front of a quote, in the JSON of a text, is all of that text.
prefix_plain :
    (u s r : Text)
    → All IsLetter u
    → has_prefix (json_bytes s ++ (b'"' ∷ r)) (u ++ (b'"' ∷ [])) ≡ true
    → s ≡ u
prefix_plain [] [] r h pre = refl
prefix_plain [] (c ∷ s) r h pre =
    let (ne, e, _) = json_head c b'"' s (b'"' ∷ r) [] (omega arith) pre in absurd (ne e)
prefix_plain (d ∷ u) [] r ((lo, hi), h) pre =
    let (e, _) = prefix_cons b'"' d r (u ++ (b'"' ∷ [])) (unfold json_bytes in pre) in
    absurd (omega arith)
prefix_plain (d ∷ u) (c ∷ s) r ((lo, hi), h) pre =
    let (_, e, rest) = json_head c d s (b'"' ∷ r) (u ++ (b'"' ∷ [])) (omega arith) pre in
    ap₂ (λ x y. x ∷ y) e (prefix_plain u s r h rest)

-- No end of the text is `moved` behind a quote.
abbrev pub TailFree : Text → Type 0
TailFree [] = Unit
TailFree (c ∷ s) = (c ∷ s ≢ b'"' ∷ moved_name) × TailFree s

letters : All IsLetter moved_name
letters = ground arith

pub not_moved :
    (s r : Text)
    → s ≢ moved_name
    → has_prefix (json_bytes s ++ (b'"' ∷ r)) (moved_name ++ (b'"' ∷ [])) ≡ false
not_moved s r h =
    elim (Bool-cases (has_prefix (json_bytes s ++ (b'"' ∷ r)) (moved_name ++ (b'"' ∷ [])))) [
      | inl y ↦ absurd (h (prefix_plain moved_name s r letters y))
      | inr n ↦ n
    ]

escaped :
    (c : ℕ) (r : Text)
    → c ≡ b'"'
    → has_prefix r (moved_name ++ (b'"' ∷ [])) ≡ false
    → contains (json_byte c ++ r) moved_text ≡ contains r moved_text
escaped c r e h =
    subst (λ x. contains (json_byte x ++ r) moved_text ≡ contains r moved_text) (sym e)
      (unfold json_byte in skip 92 (b'"' ∷ r) (omega arith) ∙ skip_quote r h)

-- In the JSON of such a text, and behind it, the quoted word does not stand.
pub json_free : (s : Text) → TailFree s → contains (json_bytes s ++ codes "\"}") moved_text ≡ false
unfolding json_bytes
json_free [] h = unfold contains has_prefix in refl
json_free (c ∷ s) (hc, h) =
    ap (λ x. contains x moved_text) (append_assoc (json_byte c) (json_bytes s) (codes "\"}"))
    ∙ (elim (Bool-cases (c == b'"')) [
      | inl y ↦
          let e : c ≡ b'"' = ==→≡ c b'"' y in
          escaped c (json_bytes s ++ codes "\"}") e
            (not_moved s (codes "}") (λ p. hc (ap₂ (λ a b. a ∷ b) e p)))
          ∙ json_free s h
      | inr n ↦
          skip_all (json_byte c) (json_bytes s ++ codes "\"}") (json_byte-Lacks c (ground arith))
          ∙ json_free s h
    ])
