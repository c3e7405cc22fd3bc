-- ===== src/Admission.antt =====
-- The webhook for machine deployments: pkg/apis/cluster/v1alpha1/defaults.go and
-- pkg/admission/machinedeployments_validation.go.
pub mod Accepted
pub mod Webhook
use machine_controller_k0s.Prelude.{
  ℕ, ◌+◌, List, [], ◌∷◌, ◌++◌, Option, none, some, Bool, true, false, not, ◌&&◌, ◌||◌, ◌==◌, length,
  if◌then◌else◌,
}
use machine_controller_k0s.Prelude.Int.{ℤ, pos, ltb_ℤ, eq_ℤ}
use machine_controller_k0s.Prelude.Decimal.{Text, codes}
use machine_controller_k0s.Api.{panicked, Result, ok, err, deref, ◌>>=◌}
use machine_controller_k0s.Objects.{
  template_labels, LabelSelector, IntOrString, int_val, str_val, RollingUpdate, StrategyType,
  rolling, unset, other, Strategy, MachineDeployment,
}
use machine_controller_k0s.Externals.{Externals}

abbrev pub or_default {ℓ} : {A : Type ℓ} → Option A → A → Option A
or_default none d = some d
or_default (some a) d = some a

abbrev update_of : Option RollingUpdate → RollingUpdate
update_of none = record { max_unavailable = none; max_surge = none }
update_of (some u) = u

abbrev default_update : RollingUpdate → RollingUpdate
default_update u = record {
  max_unavailable = or_default u.max_unavailable (int_val (pos 0));
  max_surge = or_default u.max_surge (int_val (pos 1));
}

abbrev typed : Strategy → Strategy
typed s = elim s.type [ unset ↦ record s { type = rolling } | rolling ↦ s | other ↦ s ]

abbrev with_update : Strategy → Strategy
with_update s = elim s.type [
  | rolling ↦ record s { rolling_update = some (default_update (update_of s.rolling_update)) }
  | unset ↦ s
  | other ↦ s
]

abbrev strategy_of : Option Strategy → Strategy
strategy_of none = record { type = unset; rolling_update = none }
strategy_of (some s) = s

abbrev pub default_strategy : Option Strategy → Strategy
default_strategy s = with_update (typed (strategy_of s))

abbrev namespace_of : Text → Text
namespace_of [] = codes "default"
namespace_of (c ∷ rest) = c ∷ rest

unfoldable pub populate_defaults_machine_deployment : MachineDeployment → MachineDeployment
populate_defaults_machine_deployment d = record d {
  meta = record d.meta { namespace = namespace_of d.namespace };
  spec_replicas = or_default d.spec_replicas (pos 1);
  min_ready_seconds = or_default d.min_ready_seconds (pos 0);
  revision_history_limit = or_default d.revision_history_limit (pos 1);
  progress_deadline_seconds = or_default d.progress_deadline_seconds (pos 600);
  strategy = some (default_strategy d.strategy);
}

-- `field.Error`, by what it complains of.
pub data FieldError : Type 0 where
  malformed_selector empty_selector invalid_selector labels_mismatch : FieldError
  bad_replicas bad_type bad_number negative_number above_all both_zero : FieldError

-- `ValidateLabelSelector`, and whether `IsValidPercent` finds no fault.
pub record Validators : Type 0 where
  pub selector_errors : LabelSelector → List FieldError
  pub is_valid_percent : Text → Bool

abbrev pub complain : Bool → FieldError → List FieldError
complain true e = e ∷ []
complain false e = []

-- `StrVal`, which is empty for a number.
abbrev str_val_of : IntOrString → Text
str_val_of (int_val n) = []
str_val_of (str_val s) = s

abbrev expressions {ℓ} : {A : Type ℓ} → Option (List A) → ℕ
expressions none = 0
expressions (some l) = length l

module _ (x : Externals) (v : Validators) where
  unfoldable pub get_int_or_percent : IntOrString → Bool → Option ℤ
  get_int_or_percent s round_up = x.get_value (some s) (pos 100) round_up

  -- The value, and 0 where there is an error, which is not looked at.
  abbrev value_or_zero : Option ℤ → ℤ
  value_or_zero none = pos 0
  value_or_zero (some n) = n

  unfoldable pub validate_positive_int_or_percent : IntOrString → List FieldError
  unfolding get_int_or_percent
  validate_positive_int_or_percent s = elim (get_int_or_percent s false) [
    | none ↦ bad_number ∷ []
    | some n ↦ complain (ltb_ℤ n (pos 0)) negative_number
  ]

  abbrev pub unavailable_errors : Option IntOrString → List FieldError
  unavailable_errors none = []
  unavailable_errors (some u) =
      validate_positive_int_or_percent u
      ++ complain
          (v.is_valid_percent (str_val_of u)
            && ltb_ℤ (pos 100) (value_or_zero (get_int_or_percent u false)))
          above_all

  abbrev pub surge_errors : Option IntOrString → List FieldError
  surge_errors none = []
  surge_errors (some s) = validate_positive_int_or_percent s

  abbrev pub zero_errors : Option IntOrString → Option IntOrString → List FieldError
  zero_errors (some u) (some s) =
      complain
        (eq_ℤ (value_or_zero (get_int_or_percent u false)) (pos 0)
          && eq_ℤ (value_or_zero (get_int_or_percent s true)) (pos 0))
        both_zero
  zero_errors (some u) none = []
  zero_errors none s = []

  unfoldable pub validate_machine_rolling_update_deployment : RollingUpdate → List FieldError
  unfolding validate_positive_int_or_percent get_int_or_percent
  validate_machine_rolling_update_deployment u =
      unavailable_errors u.max_unavailable
      ++ surge_errors u.max_surge
      ++ zero_errors u.max_unavailable u.max_surge

  abbrev pub update_errors : Option RollingUpdate → List FieldError
  update_errors none = []
  update_errors (some u) = validate_machine_rolling_update_deployment u

  -- A nil strategy panics.
  unfoldable pub validate_machine_deployment_strategy : Option Strategy → Result (List FieldError)
  unfolding validate_machine_rolling_update_deployment
  validate_machine_deployment_strategy none = err panicked
  validate_machine_deployment_strategy (some s) = elim s.type [
    | rolling ↦ ok (update_errors s.rolling_update)
    | unset ↦ ok (bad_type ∷ [])
    | other ↦ ok (bad_type ∷ [])
  ]

  abbrev selector_mismatch : MachineDeployment → List FieldError
  selector_mismatch d =
      if x.selector_parses d.selector
      then complain (not (x.selector_matches d.selector (template_labels d.template)))
          labels_mismatch
      else invalid_selector ∷ []

  -- The complaint about nil replicas prints their value, so it panics.
  abbrev pub replicas_errors : Option ℤ → Result (List FieldError)
  replicas_errors none = err panicked
  replicas_errors (some n) = ok (complain (ltb_ℤ n (pos 0)) bad_replicas)

  unfoldable pub validate_machine_deployment_spec : MachineDeployment → Result (List FieldError)
  unfolding validate_machine_deployment_strategy
  validate_machine_deployment_spec d = do
    r ← replicas_errors d.spec_replicas
    s ← validate_machine_deployment_strategy d.strategy
    ok (
        v.selector_errors d.selector
        ++ complain (length d.selector.match_labels + expressions d.selector.match_expressions == 0)
            empty_selector
        ++ selector_mismatch d
        ++ r
        ++ s)
