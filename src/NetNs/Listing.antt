-- ===== src/NetNs/Listing.antt =====
-- How `Read` of internal/provider/netns_resource.go finds its namespace in `ip netns list`.
use terraform_provider_zedam.Prelude.{
  ℕ, true, List, [], ◌∷◌, ◌++◌, map, Member, ◌≡◌, ◌↔◌, refl, arith, inl, inr, ◌⊎◌, Bool-cases,
  subst, sym, append_assoc, append-nil,
}
use terraform_provider_zedam.Text.{Text, ◌=ᵗ◌, split}
use terraform_provider_zedam.Text.Laws.{Lacks, NoSpace, split_at, =ᵗ→≡, =ᵗ_refl}
use terraform_provider_zedam.NetNs.{fields_from, fields, first_is, listed, found}

-- A line of `ip netns list`: a name without white space, alone or before a blank and more text,
-- as in `blue (id: 0)`.
pub record Entry : Type 0 where
  pub first : ℕ
  pub more : Text
  pub rest : Text
  pub no_space : NoSpace (first ∷ more)
  pub one_line : Lacks 10 ((first ∷ more) ++ rest)
  pub apart : (rest ≡ []) ⊎ ((t : Text) × (rest ≡ 32 ∷ t))

abbrev pub name_of : Entry → Text
name_of e = e.first ∷ e.more

abbrev pub line_of : Entry → Text
line_of e = name_of e ++ e.rest

fields_from_word :
    (word s rest : Text) → NoSpace s → fields_from word (s ++ rest) ≡ fields_from (word ++ s) rest
unfolding fields_from
fields_from_word word [] rest h = rw append-nil refl
fields_from_word word (c ∷ s) rest (hc, hs) =
    rw (hc, fields_from)
      (rw (fields_from_word (word ++ c ∷ []) s rest hs, append_assoc word (c ∷ []) s) refl)

first_field : (name : Text) (e : Entry) → first_is name (fields (line_of e)) ≡ (name_of e =ᵗ name)
unfolding fields
first_field name e = rw (fields_from_word [] (name_of e) e.rest e.no_space) (elim e.apart [
  | inl q ↦ rw q (unfold fields_from in refl)
  | inr (t, q) ↦ rw q (unfold fields_from in refl)
])

-- the standard output: each line with the newline that ends it
abbrev pub output_of : List Entry → Text
output_of [] = []
output_of (e ∷ es) = line_of e ++ 10 ∷ output_of es

-- The namespace is found exactly when it is the name of one of the lines: not as a part of another
-- name, nor in what stands behind one, nor in the empty text behind the last newline, which is all
-- there is when no namespace exists.
pub found_iff :
    (name : Text) (es : List Entry)
    → (found name (output_of es) ≡ true) ↔ Member name (map name_of es)
unfolding found listed fields fields_from split
found_iff name [] = (λ h. cc, λ m. elim m [ ])
found_iff name (e ∷ es) =
    let (to, from) = found_iff name es in
    rw (split_at (line_of e) (output_of es) 10 e.one_line, listed)
      (rw (first_field name e) (
        λ h. elim (Bool-cases (name_of e =ᵗ name)) [
          | inl same ↦ inl (=ᵗ→≡ (name_of e) name same)
          | inr other ↦ inr (to (ground arith))
        ],
        λ m. elim m [
          | inl p ↦ ground (arith, subst (λ z. (z =ᵗ name) ≡ true) (sym p) (=ᵗ_refl name))
          | inr n ↦ ground (arith, from n)
        ],
      ))
