-- ===== src/Examples/Webhook.antt =====
-- The theorems on the webhook, at a deployment without its optional fields.
use machine_controller_k0s.Prelude.{◌≡◌, ◌≢◌, refl, [], ◌∷◌, none, true}
use machine_controller_k0s.Prelude.Decimal.{codes}
use machine_controller_k0s.Api.{ok, err, panicked}
use machine_controller_k0s.Objects.{MachineDeployment}
use machine_controller_k0s.Admission.{
  Validators, populate_defaults_machine_deployment, validate_machine_deployment_spec,
  validate_machine_deployment_strategy, validate_machine_rolling_update_deployment,
  validate_positive_int_or_percent, get_int_or_percent,
}
use machine_controller_k0s.Admission.Accepted.{IsSound, validate-IsSound, validate-defaulted}
use machine_controller_k0s.Examples.Base.{simple, deployment}

abbrev validators : Validators
validators = record { selector_errors = λ s. []; is_valid_percent = λ s. true }

abbrev bare : MachineDeployment
bare = record (deployment 3 1 0) {
  spec_replicas = none;
  strategy = none;
  selector = record { match_labels = ("app", codes "n") ∷ []; match_expressions = none };
}

bare_accepted :
    validate_machine_deployment_spec simple validators (populate_defaults_machine_deployment bare)
    ≡ ok []
unfolding validate_machine_deployment_spec validate_machine_deployment_strategy
    validate_machine_rolling_update_deployment validate_positive_int_or_percent get_int_or_percent
    populate_defaults_machine_deployment
bare_accepted = refl

validate-IsSound_example : IsSound simple validators (populate_defaults_machine_deployment bare)
validate-IsSound_example = validate-IsSound simple validators bare bare_accepted

validate-defaulted_example :
    validate_machine_deployment_spec simple validators (populate_defaults_machine_deployment bare)
    ≢ err panicked
validate-defaulted_example = validate-defaulted simple validators bare
