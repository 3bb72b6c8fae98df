-- ===== src/Text/Laws.antt =====
-- Laws of the text functions.
use terraform_provider_zedam.Prelude.{none}
use terraform_provider_zedam.Prelude.{
  ℕ, true, false, List, [], ◌∷◌, ◌++◌, some, ◌≡◌, ◌≢◌, refl, arith, ap, All, All-append, reverse,
  Bool-cases, inl, inr,
}
use mathlib.Core.List.{reverse-cons, reverse-reverse}
use terraform_provider_zedam.Text.{
  Text, ◌=ᵗ◌, split, cut, join, join_from, is_empty, is_space, trim_left, trim_space,
}

pub =ᵗ_refl : (s : Text) → (s =ᵗ s) ≡ true
unfolding ◌=ᵗ◌
=ᵗ_refl [] = refl
=ᵗ_refl (c ∷ s) = ground (arith, =ᵗ_refl s)

pub =ᵗ→≡ : (s t : Text) → (s =ᵗ t) ≡ true → s ≡ t
unfolding ◌=ᵗ◌
=ᵗ→≡ [] [] h = refl
=ᵗ→≡ [] (d ∷ t) h = cc
=ᵗ→≡ (c ∷ s) [] h = cc
=ᵗ→≡ (c ∷ s) (d ∷ t) h = ground (arith, =ᵗ→≡ s t)

abbrev pub Lacks : ℕ → Text → Type 0
Lacks b = All (λ c. c ≢ b)

pub split-ne-nil : (s : Text) (sep : ℕ) → split s sep ≢ []
unfolding split
split-ne-nil [] sep = cc
split-ne-nil (c ∷ s) sep = ground arith

-- A text without the separator is one part, and ends at the first separator behind it.
pub split-Lacks : (s : Text) (sep : ℕ) → Lacks sep s → split s sep ≡ s ∷ []
unfolding split
split-Lacks [] sep h = refl
split-Lacks (c ∷ s) sep (hc, hs) = ground (arith, split-Lacks s sep hs)

pub split_at :
    (s rest : Text) (sep : ℕ) → Lacks sep s → split (s ++ sep ∷ rest) sep ≡ s ∷ split rest sep
unfolding split
split_at [] rest sep h = ground arith
split_at (c ∷ s) rest sep (hc, hs) = ground (arith, split_at s rest sep hs)

-- Splitting undoes joining by a separator that no part holds.
pub split-join :
    (p : Text) (ps : List Text) (sep : ℕ)
    → All (Lacks sep) (p ∷ ps)
    → split (join (p ∷ ps) (sep ∷ [])) sep ≡ p ∷ ps
unfolding join join_from
split-join p [] sep (hp, _) = split-Lacks p sep hp
split-join p (q ∷ qs) sep (hp, hqs) =
    rw (split_at p _ sep hp) (ap (λ r. p ∷ r) (split-join q qs sep hqs))

pub cut_at : (s rest : Text) (sep : ℕ) → Lacks sep s → cut (s ++ sep ∷ rest) sep ≡ some (s, rest)
unfolding cut
cut_at [] rest sep h = ground arith
cut_at (c ∷ s) rest sep (hc, hs) = ground (arith, cut_at s rest sep hs)

pub cut-Lacks : (s : Text) (sep : ℕ) → Lacks sep s → cut s sep ≡ none
unfolding cut
cut-Lacks [] sep h = refl
cut-Lacks (c ∷ s) sep (hc, hs) = ground (arith, cut-Lacks s sep hs)

pub is_empty-append : (s : Text) (c : ℕ) (t : Text) → is_empty (s ++ c ∷ t) ≡ false
is_empty-append [] c t = refl
is_empty-append (d ∷ s) c t = refl

All-reverse {κ} : (P : ℕ → Type κ) (s : Text) → All P s → All P (reverse s)
All-reverse P [] h = h
All-reverse P (c ∷ s) (hc, hs) =
    rw (reverse-cons c s) (All-append P (reverse s) (c ∷ []) (All-reverse P s hs) (hc, tt))

-- No byte is white space.
abbrev pub NoSpace : Text → Type 0
NoSpace = All (λ c. is_space c ≡ false)

trim_left_id : (s : Text) → NoSpace s → trim_left s ≡ s
unfolding trim_left
trim_left_id [] h = refl
trim_left_id (c ∷ s) (hc, hs) = rw hc

-- A text with no white space is left as it is.
pub trim_space_id : (s : Text) → NoSpace s → trim_space s ≡ s
unfolding trim_space
trim_space_id s h =
    rw (trim_left_id s h, trim_left_id (reverse s) (All-reverse _ s h)) (reverse-reverse s)

pub =ᵗ_ne : (s t : Text) → s ≢ t → (s =ᵗ t) ≡ false
=ᵗ_ne s t h = elim (Bool-cases (s =ᵗ t)) [ inl y ↦ absurd (h (=ᵗ→≡ s t y)) | inr n ↦ n ]
