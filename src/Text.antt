-- ===== src/Text.antt =====
-- Go strings as lists of bytes, with the functions of Go's `strings` and `strconv` packages that
-- the provider calls. The functions on white space are those of ASCII text.
pub mod Laws
pub mod Decimal
pub mod Quote
use Prim.Native.Char.{code}
use Prim.Native.String.{String}
use terraform_provider_zedam.Prelude.{
  ℕ, zero, suc, Bool, true, false, List, [], ◌∷◌, ◌++◌, Option, none, some, ◌==◌, ◌&&◌, ◌||◌, leb,
  ◌-◌, if◌then◌else◌, reverse, ◌≡◌, refl,
}

abbrev pub Text : Type 0
Text = List ℕ

-- the code points of a literal; these are its bytes when the text is ASCII
abbrev pub codes : String → Text
codes String.[] = []
codes (String.◌∷◌ c s) = code c ∷ codes s

-- `s == t`
infix 50 ◌=ᵗ◌
unfoldable pub ◌=ᵗ◌ : Text → Text → Bool
[] =ᵗ [] = true
[] =ᵗ (d ∷ t) = false
(c ∷ s) =ᵗ [] = false
(c ∷ s) =ᵗ (d ∷ t) = c == d && s =ᵗ t

-- `s == ""`
abbrev pub is_empty : Text → Bool
is_empty [] = true
is_empty (c ∷ s) = false

-- `strings.CutPrefix(s, p)`: the rest behind the prefix, if it is there
unfoldable pub cut_prefix : Text → Text → Option Text
cut_prefix s [] = some s
cut_prefix [] (d ∷ p) = none
cut_prefix (c ∷ s) (d ∷ p) = if c == d then cut_prefix s p else none

abbrev found : Option Text → Bool
found none = false
found (some r) = true

-- `strings.HasPrefix(s, p)`
unfoldable pub has_prefix : Text → Text → Bool
unfolding cut_prefix
has_prefix s p = found (cut_prefix s p)

-- `strings.TrimPrefix(s, p)`
unfoldable pub trim_prefix : Text → Text → Text
unfolding cut_prefix
trim_prefix s p = elim (cut_prefix s p) [ none ↦ s | some r ↦ r ]

-- `strings.HasSuffix(s, p)`
unfoldable pub has_suffix : Text → Text → Bool
unfolding has_prefix
has_suffix s p = has_prefix (reverse s) (reverse p)

-- `strings.TrimSuffix(s, p)`
unfoldable pub trim_suffix : Text → Text → Text
unfolding trim_prefix
trim_suffix s p = reverse (trim_prefix (reverse s) (reverse p))

-- `strings.Contains(s, sub)`
unfoldable pub contains : Text → Text → Bool
unfolding has_prefix
contains [] sub = has_prefix [] sub
contains (c ∷ s) sub = has_prefix (c ∷ s) sub || contains s sub

abbrev pub is_space : ℕ → Bool
is_space c = c == 32 || (leb 9 c && leb c 13)

unfoldable pub trim_left : Text → Text
trim_left [] = []
trim_left (c ∷ s) = if is_space c then trim_left s else c ∷ s

-- `strings.TrimSpace(s)`
unfoldable pub trim_space : Text → Text
unfolding trim_left
trim_space s = reverse (trim_left (reverse (trim_left s)))

-- a first byte before the first part of a split
abbrev pub onto_first : ℕ → List Text → List Text
onto_first c [] = (c ∷ []) ∷ []
onto_first c (p ∷ ps) = (c ∷ p) ∷ ps

-- `strings.Split(s, sep)` at a separator of one byte
unfoldable pub split : Text → ℕ → List Text
split [] sep = [] ∷ []
split (c ∷ s) sep = let rest = split s sep in if c == sep then [] ∷ rest else onto_first c rest

-- `strings.Cut(s, sep)` at a separator of one byte, and what `strings.SplitN(s, sep, 2)` gives:
-- the two sides of the first separator
unfoldable pub cut : Text → ℕ → Option (Text × Text)
cut [] sep = none
cut (c ∷ s) sep =
    let rest = cut s sep in
    if c == sep then some ([], s) else elim rest [ none ↦ none | some (a, b) ↦ some (c ∷ a, b) ]

unfoldable pub join_from : Text → List Text → Text → Text
join_from p [] sep = p
join_from p (q ∷ qs) sep = p ++ (sep ++ join_from q qs sep)

-- `strings.Join(parts, sep)`
unfoldable pub join : List Text → Text → Text
unfolding join_from
join [] sep = []
join (p ∷ ps) sep = join_from p ps sep

-- the pieces of a text one after the other, as a template writes them
unfoldable pub concat : List Text → Text
concat [] = []
concat (p ∷ ps) = p ++ concat ps

-- `strings.ReplaceAll(s, old, new)` for an `old` of one byte
unfoldable pub replace_all : Text → ℕ → Text → Text
replace_all [] old new = []
replace_all (c ∷ s) old new =
    let rest = replace_all s old new in if c == old then new ++ rest else c ∷ rest

trims : trim_space (codes "  a b\t\n") ≡ codes "a b"
unfolding trim_space
trims = refl

splits : split (codes "a,,b") b',' ≡ codes "a" ∷ [] ∷ codes "b" ∷ []
unfolding split
splits = refl

suffixes : trim_suffix (codes "0/KVM") (codes "/KVM") ≡ codes "0"
unfolding trim_suffix
suffixes = refl
