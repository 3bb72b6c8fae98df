-- ===== src/Attr.antt =====
-- The attribute values of terraform-plugin-framework (`types.String`, `types.Int64`, `types.Set`):
-- null, not known before apply, or known.
use terraform_provider_zedam.Prelude.{Bool, true, false, ◌&&◌, ◌==◌, not, [], if◌then◌else◌}
use terraform_provider_zedam.Prelude.Int.{ℤ, pos, negsuc}
use terraform_provider_zedam.Text.{Text}

pub data Attr (A : Type 0) : Type 0 where
  null unknown : Attr A
  known : A → Attr A

module _ {A : Type 0} where
  abbrev pub is_null : Attr A → Bool
  is_null null = true
  is_null unknown = false
  is_null (known a) = false

  abbrev pub is_unknown : Attr A → Bool
  is_unknown null = false
  is_unknown unknown = true
  is_unknown (known a) = false

  -- `!v.IsNull() && !v.IsUnknown()`
  abbrev pub is_set : Attr A → Bool
  is_set v = not (is_null v) && not (is_unknown v)

-- `v.ValueString()`, which is "" for a value that is not known
abbrev pub value_string : Attr Text → Text
value_string null = []
value_string unknown = []
value_string (known s) = s

-- `v.Equal(w)`, for a test of the known values
abbrev pub equal : {A : Type 0} → (A → A → Bool) → Attr A → Attr A → Bool
equal eq null null = true
equal eq unknown unknown = true
equal eq (known a) (known b) = eq a b
equal eq v w = false

-- `ValueInt64`
abbrev pub value_int64 : Attr ℤ → ℤ
value_int64 null = pos 0
value_int64 unknown = pos 0
value_int64 (known n) = n

abbrev pub same_int : ℤ → ℤ → Bool
same_int (pos a) (pos b) = a == b
same_int (negsuc a) (negsuc b) = a == b
same_int a b = false

-- `Equal` of two integer attributes
abbrev pub same_int64 : Attr ℤ → Attr ℤ → Bool
same_int64 v w = equal (λ a b. same_int a b) v w

-- `ValueBool`
abbrev pub value_bool : Attr Bool → Bool
value_bool null = false
value_bool unknown = false
value_bool (known b) = b

-- `Equal` of two Boolean attributes
abbrev pub same_bool : Attr Bool → Attr Bool → Bool
same_bool v w = equal (λ a b. if a then b else not b) v w

-- a default for an attribute that is not set
abbrev pub or_default : {A : Type 0} → A → Attr A → Attr A
or_default a null = known a
or_default a unknown = known a
or_default a (known b) = known b
