-- ===== src/Diag.antt =====
-- Terraform's diagnostics as the provider uses them, and `DiagsAny` and `DiagsNone` of
-- internal/errchecker/checker.go, which search their details.
use terraform_provider_zedam.Prelude.{
  Bool, true, false, not, List, [], ◌∷◌, if◌then◌else◌, ◌≡◌, refl, arith, Member, inl, inr, subst,
  sym,
}
use terraform_provider_zedam.Text.{Text}
use terraform_provider_zedam.ErrChecker.{contains_one}

-- An error diagnostic: its summary and its detail. The provider's own code adds no warnings to
-- those modelled here.
pub record Diagnostic : Type 0 where
  pub summary : Text
  pub detail : Text

-- the loop over the diagnostics
any_detail : List Diagnostic → List Text → Bool
any_detail [] strs = false
any_detail (d ∷ diags) strs =
    let rest = any_detail diags strs in if contains_one d.detail strs then true else rest

no_detail : List Diagnostic → List Text → Bool
no_detail [] strs = true
no_detail (d ∷ diags) strs =
    let rest = no_detail diags strs in if contains_one d.detail strs then false else rest

-- `DiagsAny`, with its test for empty lists
unfoldable pub diags_any : List Diagnostic → List Text → Bool
unfolding any_detail
diags_any [] strs = false
diags_any (d ∷ diags) [] = false
diags_any (d ∷ diags) (s ∷ strs) = any_detail (d ∷ diags) (s ∷ strs)

unfoldable pub diags_none : List Diagnostic → List Text → Bool
unfolding no_detail
diags_none [] strs = true
diags_none (d ∷ diags) [] = true
diags_none (d ∷ diags) (s ∷ strs) = no_detail (d ∷ diags) (s ∷ strs)

no_detail-not :
    (diags : List Diagnostic) (strs : List Text)
    → no_detail diags strs ≡ not (any_detail diags strs)
unfolding no_detail any_detail
no_detail-not [] strs = refl
no_detail-not (d ∷ diags) strs = ground (arith, no_detail-not diags strs)

-- `DiagsNone` answers the negation of `DiagsAny`, for all lists.
pub diags_none-not :
    (diags : List Diagnostic) (strs : List Text)
    → diags_none diags strs ≡ not (diags_any diags strs)
unfolding diags_none diags_any
diags_none-not [] strs = refl
diags_none-not (d ∷ diags) [] = refl
diags_none-not (d ∷ diags) (s ∷ strs) = no_detail-not (d ∷ diags) (s ∷ strs)

no_detail_hit :
    (diags : List Diagnostic) (d : Diagnostic) (strs : List Text)
    → Member d diags
    → contains_one d.detail strs ≡ true
    → no_detail diags strs ≡ false
unfolding no_detail
no_detail_hit [] d strs m hit = elim m [ ]
no_detail_hit (c ∷ diags) d strs (inl p) hit =
    rw (subst (λ z. contains_one z.detail strs ≡ true) (sym p) hit) refl
no_detail_hit (c ∷ diags) d strs (inr m) hit = ground (arith, no_detail_hit diags d strs m hit)

-- One diagnostic with one of the texts in its detail is found.
pub diags_none_hit :
    (diags : List Diagnostic) (d : Diagnostic) (strs : List Text)
    → Member d diags
    → contains_one d.detail strs ≡ true
    → diags_none diags strs ≡ false
unfolding diags_none contains_one
diags_none_hit [] d strs m hit = elim m [ ]
diags_none_hit (c ∷ diags) d [] m hit = cc
diags_none_hit (c ∷ diags) d (s ∷ strs) m hit = no_detail_hit (c ∷ diags) d (s ∷ strs) m hit
