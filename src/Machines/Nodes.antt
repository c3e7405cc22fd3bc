-- ===== src/Machines/Nodes.antt =====
-- The node of a machine: updateNode, getNode, ensureNodeOwnerRefAndConfigSource, updateMachineStatus
-- and ensureNodeLabelsAnnotationsAndTaints of pkg/controller/machine/machine.go.
pub mod Apply
pub mod Kept
pub mod Settings
use machine_controller_k0s.Prelude.{
  ℕ, ◌-◌, List, [], ◌∷◌, ◌++◌, Option, none, some, Bool, true, false, not, ◌≡◌, any, ltb, ◌==◌,
  if◌then◌else◌, String, lookup, insert, map,
}
use machine_controller_k0s.Prelude.Decimal.{Text, codes, text_eq}
use machine_controller_k0s.Api.{
  api, not_found, panicked, Error, message, Result, ok, err, Api, send, ◌>>=◌,
}
use machine_controller_k0s.Objects.{
  read_map, Machine, Node, NodeAddress, Taint, Labels, OwnerReference, value_at,
}
use machine_controller_k0s.Machines.Requests.{Request, update_node, delete_machine}
use machine_controller_k0s.Machines.Update.{Machining, Client, update_machine_with}
use machine_controller_k0s.Machines.Provider.{Instance}
use machine_controller_k0s.Machines.Deletion.{Outcome, get_node}

abbrev pub node_owner_label_name : String
node_owner_label_name = "machine-controller/owned-by"

abbrev pub annotation_autoscaler_identifier : String
annotation_autoscaler_identifier = "cluster.k8s.io/machine"

-- The node in memory beside the state.
abbrev pub Held : Type 0
Held = Node × Machining

-- A change of a node; a write to a nil map panics.
abbrev pub Modifier : Type 0
Modifier = Node → Result Node

unfoldable pub modify_all : List Modifier → Node → Result Node
modify_all [] node = ok node
modify_all (f ∷ modifiers) node = elim (f node) [
  | err e ↦ err e
  | ok changed ↦ modify_all modifiers changed
]

unfoldable pub send_node : Node → Machining → Result {0} Unit × Held
unfolding send
send_node node s =
    let (e, server) = send (update_node node) s.server in
    let s' = record s { server = server } in
    elim e [ none ↦ (ok tt, (node, s')) | some why ↦ (err (api why), (node, s')) ]

-- One try: the node is read again, changed and written.
unfoldable pub try_update_node : List Modifier → Held → Result {0} Unit × Held
unfolding get_node modify_all send_node
try_update_node modifiers (held, s) =
    let (read, s') = get_node s in
    elim read [
      | err e ↦ (err e, (held, s'))
      | ok node ↦ elim (modify_all modifiers node) [
        | err e ↦ (err e, (node, s'))
        | ok changed ↦ send_node changed s'
      ]
    ]

unfoldable pub update_node_with : Client → List Modifier → Held → Result {0} Unit × Held
unfolding try_update_node
update_node_with c modifiers h = c.retries.retry_on_conflict (try_update_node modifiers) h

abbrev pub set_label : String → Text → Modifier
set_label k v node = elim node.labels [
  | none ↦ err panicked
  | some m ↦ ok (record node { meta = record node.meta { labels = some (insert k v m) } })
]

abbrev pub set_annotation : String → Text → Modifier
set_annotation k v node = elim node.annotations [
  | none ↦ err panicked
  | some m ↦ ok (record node { meta = record node.meta { annotations = some (insert k v m) } })
]

-- To the taints of the node as it is then.
abbrev pub add_taint : Taint → Modifier
add_taint t node = ok (record node { node_taints = node.node_taints ++ (t ∷ []) })

-- The entries whose key the map misses, in the order in which Go gives them.
unfoldable pub missing_entries : Labels → Labels → Labels
unfolding lookup
missing_entries [] present = []
missing_entries (entry ∷ wanted) present =
    let rest = missing_entries wanted present in
    elim (lookup entry.0 present) [ none ↦ entry ∷ rest | some v ↦ rest ]

unfoldable pub missing_taints : Client → List Taint → List Taint → List Taint
missing_taints c [] present = []
missing_taints c (t ∷ wanted) present =
    let rest = missing_taints c wanted present in
    if any (λ u. c.match_taint u t) present then rest else t ∷ rest

abbrev pub autoscaler_value : Machine → Text
autoscaler_value machine = machine.namespace ++ codes "/" ++ machine.name

unfoldable pub autoscaler_modifiers : Node → Machine → List Modifier
unfolding text_eq value_at
autoscaler_modifiers node machine =
    if text_eq (value_at annotation_autoscaler_identifier (read_map node.annotations))
      (autoscaler_value machine)
    then []
    else set_annotation annotation_autoscaler_identifier (autoscaler_value machine) ∷ []

unfoldable pub node_modifiers : Client → Node → Machine → List Modifier
unfolding missing_entries autoscaler_modifiers missing_taints
node_modifiers c node machine =
    map (λ entry. set_label entry.0 entry.1)
      (missing_entries machine.spec.spec_labels (read_map node.labels))
    ++ map (λ entry. set_annotation entry.0 entry.1)
        (missing_entries machine.spec.spec_annotations (read_map node.annotations))
    ++ autoscaler_modifiers node machine
    ++ map (λ t. add_taint t) (missing_taints c machine.spec.taints node.node_taints)

abbrev pub as_node_error : String → Result {0} Unit × Held → Result {0} Unit × Held
as_node_error text (ok u, h) = (ok u, h)
as_node_error text (err panicked, h) = (err panicked, h)
as_node_error text (err e, h) = (err (message text), h)

unfoldable pub ensure_node_labels_annotations_and_taints :
    Client → Machine → Held → Result {0} Unit × Held
unfolding node_modifiers update_node_with
ensure_node_labels_annotations_and_taints c machine (node, s) =
    elim (node_modifiers c node machine) [
      | [] ↦ (ok tt, (node, s))
      | f ∷ modifiers ↦
          as_node_error "failed to update node after setting labels/annotations/taints"
            (update_node_with c (f ∷ modifiers) (node, s))
    ]
