-- ===== src/Admission/Webhook.antt =====
-- The webhook for machines and machine deployments: pkg/admission/machines.go and
-- pkg/admission/machinedeployments.go.
pub mod Immutable
use machine_controller_k0s.Prelude.{
  List, [], ◌∷◌, Option, none, some, Bool, true, false, not, ◌&&◌, ◌==◌, length, if◌then◌else◌,
  String, delete,
}
use machine_controller_k0s.Prelude.Decimal.{Text, codes, text_eq}
use machine_controller_k0s.Api.{Error, message, Result, ok, err, ◌>>=◌}
use machine_controller_k0s.Objects.{
  read_map, Labels, Machine, MachineSpec, MachineDeployment, value_at,
}
use machine_controller_k0s.Externals.{Externals}
use machine_controller_k0s.ProviderConfig.{Encoding, get_config}
use machine_controller_k0s.Admission.{
  Validators, populate_defaults_machine_deployment, validate_machine_deployment_spec,
}

abbrev pub bypass_annotation : String
bypass_annotation = "kubermatic.io/bypass-no-spec-mutation-requirement"

pub data Operation : Type 0 where
  create update other_operation : Operation

-- A request for an object, with what `json.Unmarshal` makes of the new and of the old object.
pub record Review (A : Type 0) : Type 0 where
  pub operation : Operation
  pub object : Result A
  pub old_object : Result A

-- The part of a cloud provider that the webhook calls; a validation `none` is a valid spec.
pub record Validating : Type 0 where
  pub add_defaults : MachineSpec → Result MachineSpec
  pub validate : MachineSpec → Option Error

-- The registries of providers and of plugins, `ssh.ParseAuthorizedKey`, and
-- `equality.Semantic.DeepEqual` on specs.
pub record Surroundings : Type 0 where
  pub encoding : Encoding
  pub for_provider : Text → Option Validating
  pub has_plugin : Text → Bool
  pub parses_key : Text → Bool
  pub same_spec : MachineSpec → MachineSpec → Bool

-- The old spec, with the new name if that is the name of the machine.
abbrev pub renamed : Machine → Machine → MachineSpec
renamed old m =
    if not (text_eq old.spec.spec_name m.spec.spec_name) && text_eq m.spec.spec_name m.name
    then record old.spec { spec_name = m.spec.spec_name }
    else old.spec

abbrev pub is_bypassed : Machine → Bool
is_bypassed m = text_eq (value_at bypass_annotation (read_map m.annotations)) (codes "true")

-- Without the annotation for the bypass, and with a name in the spec.
abbrev pub without_bypass : Option Labels → Option Labels
without_bypass none = none
without_bypass (some l) = some (delete bypass_annotation l)

abbrev pub with_name : Text → MachineSpec → MachineSpec
with_name name spec = if length spec.spec_name == 0 then record spec { spec_name = name } else spec

abbrev pub admitted : Machine → Machine
admitted m = record m {
  meta = record m.meta { annotations = without_bypass m.annotations };
  spec = with_name m.name m.spec;
}

module _ (w : Surroundings) where
  unfoldable pub validate_public_keys : List Text → Result {0} Unit
  validate_public_keys [] = ok tt
  validate_public_keys (key ∷ keys) =
      let rest = validate_public_keys keys in
      if w.parses_key key then rest else err (message "invalid public key")

  abbrev valid_spec : Option Error → Result {0} Unit
  valid_spec none = ok tt
  valid_spec (some e) = err (message "validation failed")

  -- The defaults that the provider adds are validated; the spec of the caller stays as it is.
  unfoldable pub default_and_validate_machine_spec : MachineSpec → Result {0} Unit
  unfolding get_config validate_public_keys
  default_and_validate_machine_spec spec = elim (get_config w.encoding (some spec.provider_spec)) [
    | err e ↦ err (message "failed to read machine.spec.providerSpec")
    | ok config ↦ elim (w.for_provider config.cloud_provider) [
      | none ↦ err (message "failed to get cloud provider")
      | some prov ↦
          if not (w.has_plugin config.operating_system)
          then err (message "failed to get OS")
          else if length spec.kubelet == 0
          then err (message "Kubelet version must be set")
          else elim (validate_public_keys config.ssh_public_keys) [
            | err e ↦ err (message "Invalid public keys specified")
            | ok u ↦ elim (prov.add_defaults spec) [
              | err e ↦ err (message "failed to default machineSpec")
              | ok defaulted ↦ valid_spec (prov.validate defaulted)
            ]
          ]
    ]
  ]

  unfoldable pub check_update : Machine → Result Machine → Result {0} Unit
  unfolding text_eq value_at
  check_update m (err e) = err (message "failed to unmarshal OldObject")
  check_update m (ok old) =
      if is_bypassed m
      then ok tt
      else if w.same_spec m.spec (renamed old m)
      then ok tt
      else err (message "machine.spec is immutable")

  -- The machine of the response, which the source sends as a patch of the original one.
  unfoldable pub mutate_machines : Review Machine → Result Machine
  unfolding check_update default_and_validate_machine_spec
  mutate_machines r = elim r.object [
    | err e ↦ err (message "failed to unmarshal")
    | ok m ↦ elim r.operation [
      | other_operation ↦ ok (admitted m)
      | update ↦ elim (check_update m r.old_object) [ err e ↦ err e | ok u ↦ ok (admitted m) ]
      | create ↦ elim (default_and_validate_machine_spec (admitted m).spec) [
        | err e ↦ err e
        | ok u ↦ ok (admitted m)
      ]
    ]
  ]

  module _ (x : Externals) (v : Validators) where
    -- Whether the spec of the template is to be validated: on an update only if it changed.
    unfoldable pub needs_validation : Review MachineDeployment → MachineDeployment → Result Bool
    needs_validation r d = elim r.operation [
      | update ↦ elim r.old_object [
        | err e ↦ err (message "failed to unmarshal OldObject")
        | ok old ↦ ok (not (w.same_spec old.template.machine_spec d.template.machine_spec))
      ]
      | create ↦ ok true
      | other_operation ↦ ok true
    ]

    abbrev validated_spec : MachineDeployment → Bool → Result MachineDeployment
    validated_spec d false = ok d
    validated_spec d true = elim (default_and_validate_machine_spec d.template.machine_spec) [
      | err e ↦ err e
      | ok u ↦ ok d
    ]

    unfoldable pub mutate_machine_deployments : Review MachineDeployment → Result MachineDeployment
    unfolding populate_defaults_machine_deployment validate_machine_deployment_spec needs_validation
        default_and_validate_machine_spec
    mutate_machine_deployments r = elim r.object [
      | err e ↦ err (message "failed to unmarshal")
      | ok original ↦
          let d = populate_defaults_machine_deployment original in
          elim (validate_machine_deployment_spec x v d) [
            | err e ↦ err e
            | ok (e ∷ errors) ↦ err (message "validation failed")
            | ok [] ↦ needs_validation r d >>= (λ needed. validated_spec d needed)
          ]
    ]
