-- ===== src/Lag/Validate.antt =====
-- Which configurations of a bond `ValidateConfig` accepts.
use terraform_provider_zedam.Prelude.{
  true, ◌||◌, List, [], ◌∷◌, ◌++◌, ◌≡◌, ◌↔◌, ◌⊎◌, inl, inr, refl, arith, Bool-cases,
}
use terraform_provider_zedam.Text.{Text, codes, ◌=ᵗ◌}
use terraform_provider_zedam.Attr.{Attr, is_set, is_unknown, value_string}
use terraform_provider_zedam.Lag.{LagModel, validate_config, rate_diags, policy_diags}

rate_diags_nil :
    (rate : Attr Text) (mode : Text)
    → (rate_diags rate mode ≡ []) ↔ (is_set rate ≡ true → (mode =ᵗ codes "802.3ad") ≡ true)
unfolding rate_diags
rate_diags_nil rate mode = (λ e set. ground arith, λ c. ground arith)

policy_diags_nil :
    (policy : Attr Text) (mode : Text)
    → (policy_diags policy mode ≡ [])
      ↔ (is_set policy ≡ true → (mode =ᵗ codes "802.3ad" || mode =ᵗ codes "balance-xor") ≡ true)
unfolding policy_diags
policy_diags_nil policy mode = (λ e set. ground arith, λ c. ground arith)

append_both_nil : {A : Type 0} (a b : List A) → (a ++ b) ≡ [] → (a ≡ []) × (b ≡ [])
append_both_nil [] b e = (refl, e)
append_both_nil (x ∷ a) b e = absurd cc

-- A configuration is accepted exactly if its mode is not known yet, or if a rate is set for the
-- mode 802.3ad alone and a hash policy for the modes 802.3ad and balance-xor alone.
pub validate_config_ok :
    (model : LagModel)
    → (validate_config model ≡ []) ↔ (
        (is_unknown model.mode ≡ true)
        ⊎ ((is_set model.lacp_rate ≡ true → (value_string model.mode =ᵗ codes "802.3ad") ≡ true)
            × (is_set model.xmit_hash_policy ≡ true
                → (value_string model.mode =ᵗ codes "802.3ad"
                    || value_string model.mode =ᵗ codes "balance-xor")
                  ≡ true)))
unfolding validate_config
validate_config_ok model =
    let mode = value_string model.mode in
    let rate = rate_diags_nil model.lacp_rate mode in
    let policy = policy_diags_nil model.xmit_hash_policy mode in
    (
      λ e. elim (Bool-cases (is_unknown model.mode)) [
        | inl u ↦ inl u
        | inr k ↦ (let (a, b) = append_both_nil _ _ (rw k at e) in inr (rate.0 a, policy.0 b))
      ],
      λ c. elim c [
        | inl u ↦ rw u refl
        | inr (a, b) ↦ elim (Bool-cases (is_unknown model.mode)) [
          | inl u ↦ rw u refl
          | inr k ↦ rw k (rw (rate.1 a, policy.1 b) refl)
        ]
      ],
    )
