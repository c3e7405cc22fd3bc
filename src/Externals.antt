-- ===== src/Externals.antt =====
-- The functions that the controllers call and that are not part of the repository, with what their
-- documentation says and the theorems use.
use machine_controller_k0s.Prelude.{ℕ, ◌≡◌, Bool, true, Option, if◌then◌else◌}
use machine_controller_k0s.Prelude.Int.{ℤ, ltb_ℤ}
use machine_controller_k0s.Prelude.Decimal.{Text}
use machine_controller_k0s.Objects.{
  ObjectMeta, OwnerReference, Labels, LabelSelector, IntOrString, MachineTemplateSpec,
}

pub record Externals : Type 0 where
  -- `intstr.GetValueFromIntOrPercent(v, total, roundUp)`; `none` is its error.
  pub get_value : Option IntOrString → ℤ → Bool → Option ℤ
  -- `integer.RoundToInt32(float64(a) / float64(b))`
  pub round_quotient : ℤ → ℤ → ℤ
  -- `integer.Int32Min` and `integer.Int32Max`
  pub int32_min : ℤ → ℤ → ℤ
  pub int32_max : ℤ → ℤ → ℤ
  pub int32_min_lem : (a b : ℤ) → int32_min a b ≡ (if ltb_ℤ b a then b else a)
  pub int32_max_lem : (a b : ℤ) → int32_max a b ≡ (if ltb_ℤ a b then b else a)
  -- `apiequality.Semantic.DeepEqual` on two templates
  pub deep_equal : MachineTemplateSpec → MachineTemplateSpec → Bool
  pub deep_equal_refl : (t : MachineTemplateSpec) → deep_equal t t ≡ true
  -- the FNV hash of the template as `spew` prints it, a `uint32`
  pub fnv_hash : MachineTemplateSpec → ℕ
  -- `rand.SafeEncodeString`
  pub safe_encode_string : Text → Text
  -- `metav1.LabelSelectorAsSelector` succeeds; the selector is empty; it matches the labels
  pub selector_parses : LabelSelector → Bool
  pub selector_is_empty : LabelSelector → Bool
  pub selector_matches : LabelSelector → Labels → Bool
  -- `metav1.GetControllerOf`, `metav1.IsControlledBy` and `metav1.NewControllerRef`
  pub controller_of : ObjectMeta → Option OwnerReference
  pub is_controlled_by : ObjectMeta → ObjectMeta → Bool
  pub new_controller_ref : ObjectMeta → OwnerReference
