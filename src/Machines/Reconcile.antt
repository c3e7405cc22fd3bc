-- ===== src/Machines/Reconcile.antt =====
-- The reconciliation of a machine: Reconcile and reconcile of pkg/controller/machine/machine.go.
use machine_controller_k0s.Prelude.{
  Option, none, some, Bool, true, false, not, [], ◌∷◌, ◌++◌, any, length, ◌==◌, if◌then◌else◌,
  String,
}
use machine_controller_k0s.Prelude.Decimal.{Text, text_eq}
use machine_controller_k0s.Api.{message, Result, ok, err}
use machine_controller_k0s.Objects.{
  read_map, Machine, Node, NodeCondition, node_ready, other_condition, condition_true,
  condition_false, condition_unknown, value_at,
}
use machine_controller_k0s.ProviderConfig.{Config, get_config}
use machine_controller_k0s.Machines.Update.{
  Machining, Client, update_machine_with, clear_machine_error,
}
use machine_controller_k0s.Machines.Provider.{Provider}
use machine_controller_k0s.Machines.Deletion.{
  Surroundings, Outcome, get_node, delete_machine_object, is_missing,
}
use machine_controller_k0s.Machines.Nodes.{Held, ensure_node_labels_annotations_and_taints}
use machine_controller_k0s.Machines.Link.{Linking}
use machine_controller_k0s.Machines.Instances.{Bootstrap, ensure_instance_exists_for_machine}

abbrev pub controller_name_label_key : String
controller_name_label_key = "machine.k8s.io/controller"

abbrev pub annotation_machine_uninitialized : String
annotation_machine_uninitialized = "machine-controller.kubermatic.io/initializers"

abbrev is_true_ready : NodeCondition → Bool
is_true_ready condition = elim condition.type [
  | other_condition ↦ false
  | node_ready ↦ elim condition.condition_status [
    | condition_true ↦ true
    | condition_false ↦ false
    | condition_unknown ↦ false
  ]
]

unfoldable pub node_is_ready : Node → Bool
node_is_ready node = any is_true_ready node.conditions

abbrev pub ready_condition : NodeCondition
ready_condition = record {
  type = node_ready;
  condition_status = condition_true;
  last_transition_time = 0;
}

abbrev pub with_ready_condition : Machine → Machine
with_ready_condition m = record m { conditions = m.conditions ++ (ready_condition ∷ []) }

abbrev pub without_node_ref : Machine → Machine
without_node_ref m = record m { node_ref = none }

unfoldable pub ensure_machine_has_node_ready_condition :
    Client → Machining → Result {0} Unit × Machining
unfolding update_machine_with
ensure_machine_has_node_ready_condition c s =
    let updated = update_machine_with c with_ready_condition s in
    if any is_true_ready s.machine.conditions then (ok tt, s) else updated

abbrev pub finished : Result {0} Unit × Machining → Outcome × Machining
finished (ok u, s) = (ok none, s)
finished (err e, s) = (err e, s)

-- A provider by its name, and whether there is a plugin for an operating system.
pub record Registry : Type 0 where
  pub for_provider : Text → Option Provider
  pub has_plugin : Text → Bool

module _ (w : Surroundings) (b : Bootstrap) (k : Linking) (g : Registry) where
  abbrev drop_held : Result {0} Unit × Held → Result {0} Unit × Machining
  drop_held (r, (node, s)) = (r, s)

  -- The node that the machine refers to is there.
  unfoldable pub reconcile_node : Provider → Config → Node → Machining → Outcome × Machining
  unfolding node_is_ready ensure_machine_has_node_ready_condition ensure_instance_exists_for_machine
      ensure_node_labels_annotations_and_taints
  reconcile_node prov config node s =
      let (conditioned, s₁) = ensure_machine_has_node_ready_condition w.client s in
      let settings =
        drop_held (ensure_node_labels_annotations_and_taints w.client s₁.machine (node, s₁)) in
      let missing = ensure_instance_exists_for_machine w.client prov b k config s in
      if node_is_ready node
      then elim conditioned [
        | err e ↦ (err (message "failed to set nodeReady condition on machine"), s₁)
        | ok u ↦ finished settings
      ]
      else missing

  -- A machine with a provider, which is not being deleted.
  unfoldable pub reconcile_instance : Provider → Config → Machining → Outcome × Machining
  unfolding get_node update_machine_with ensure_instance_exists_for_machine reconcile_node
  reconcile_instance prov config s =
      let (read, s₁) = get_node s in
      let missing = ensure_instance_exists_for_machine w.client prov b k config s in
      let forgotten = finished (update_machine_with w.client without_node_ref s₁) in
      if not (g.has_plugin config.operating_system)
      then (err (message "failed to userdata provider"), s)
      else elim s.machine.node_ref [
        | none ↦ missing
        | some name ↦ elim read [
          | ok node ↦ reconcile_node prov config node s₁
          | err e ↦
              if is_missing e
              then forgotten
              else (err (message "failed to check if node for machine exists"), s₁)
        ]
      ]

  abbrev pub named : Machine → Machine
  named m =
      if length m.spec.spec_name == 0
      then record m { spec = record m.spec { spec_name = m.name } }
      else m

  unfoldable pub reconcile : Machining → Outcome × Machining
  unfolding get_config delete_machine_object reconcile_instance
  reconcile s₀ =
      let s = record s₀ { machine = named s₀.machine } in
      elim (get_config w.encoding (some s.machine.spec.provider_spec)) [
        | err e ↦ (err (message "failed to get provider config"), s)
        | ok config ↦ elim (g.for_provider config.cloud_provider) [
          | none ↦ (err (message "failed to get cloud provider"), s)
          | some prov ↦ elim s.machine.deletion_timestamp [
            | some t ↦ delete_machine_object w prov s
            | none ↦ reconcile_instance prov config s
          ]
        ]
      ]

  abbrev cleared : Outcome × Machining → Outcome × Machining
  cleared (ok r, s) = (ok r, clear_machine_error w.client s)
  cleared (err e, s) = (err e, s)

  -- `Reconcile`, where `read` is what the first read finds and `name` is that of the controller.
  unfoldable pub reconcile_request : Text → Result Machine → Machining → Outcome × Machining
  unfolding value_at text_eq reconcile clear_machine_error
  reconcile_request name read s = elim read [
    | err e ↦ (if is_missing e then ok none else err e, s)
    | ok m ↦
        let s₁ = record s { machine = m } in
        let reconciled = cleared (reconcile s₁) in
        if not (text_eq (value_at controller_name_label_key (read_map m.labels)) name)
        then (ok none, s₁)
        else if not
            (length (value_at annotation_machine_uninitialized (read_map m.annotations)) == 0)
        then (ok none, s₁)
        else reconciled
  ]
