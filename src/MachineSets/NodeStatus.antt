-- ===== src/MachineSets/NodeStatus.antt =====
-- The status of a machine set: pkg/controller/machineset/status.go.
pub mod Counts
use machine_controller_k0s.Prelude.{
  ◌+◌, ◌*◌, List, [], ◌∷◌, Option, none, some, Bool, true, false, not, ◌&&◌, ℕ, zero, suc, length,
  ltb, ◌==◌, if◌then◌else◌, String, lookup,
}
use machine_controller_k0s.Prelude.Int.{ℤ, pos, negsuc, int32, eq_ℤ, sub_ℕ, ltb_ℤ}
use machine_controller_k0s.Prelude.Decimal.{Text, text_eq}
use machine_controller_k0s.Api.{api, ApiError, no_node_ref, Result, ok, err, Api, send, ask}
use machine_controller_k0s.Objects.{
  template_labels, read_map, Labels, MachineSetStatus, MachineSet, Machine, Node, NodeCondition,
  ConditionType, node_ready, other_condition, ConditionStatus, condition_true, condition_false,
  condition_unknown,
}
use machine_controller_k0s.MachineSets.Requests.{Request, update_status}

abbrev is_true : ConditionStatus → Bool
is_true condition_true = true
is_true condition_false = false
is_true condition_unknown = false

abbrev pub is_ready_type : ConditionType → Bool
is_ready_type node_ready = true
is_ready_type other_condition = false

unfoldable pub get_ready_condition : List NodeCondition → Option NodeCondition
get_ready_condition [] = none
get_ready_condition (c ∷ rest) =
    let later = get_ready_condition rest in if is_ready_type c.type then some c else later

-- `isNodeReady` on the conditions of a node that is not nil.
unfoldable pub is_node_ready : List NodeCondition → Bool
is_node_ready [] = false
is_node_ready (c ∷ rest) =
    let later = is_node_ready rest in
    if is_ready_type c.type then is_true c.condition_status else later

-- `t.Add(d).Before(now)`, in seconds.
abbrev passed : ℕ → ℤ → ℕ → Bool
passed t (pos d) now = ltb (t + d) now
passed t (negsuc d) now = ltb t (now + suc d)

abbrev transition_passed : Option NodeCondition → ℤ → ℕ → Bool
transition_passed none d now = false
transition_passed (some c) d now =
    not (c.last_transition_time == 0) && passed c.last_transition_time d now

-- The condition that is read is there, since the node is ready.
unfoldable pub is_node_available : Node → ℤ → ℕ → Bool
unfolding is_node_ready get_ready_condition
is_node_available node min_ready_seconds now =
    if not (is_node_ready node.conditions)
    then false
    else if eq_ℤ min_ready_seconds (pos 0)
    then true
    else transition_passed (get_ready_condition node.conditions) min_ready_seconds now

-- `read` answers the read of the node that a machine refers to.
unfoldable pub get_machine_node : (Machine → Result Node) → Machine → Result Node
get_machine_node read machine = elim machine.node_ref [
  | none ↦ err no_node_ref
  | some name ↦ read machine
]

-- A selector made of labels matches the labels that have each of them.
abbrev same_value : Option Text → Text → Bool
same_value none v = false
same_value (some w) v = text_eq w v

unfoldable pub matches_all : Labels → Labels → Bool
unfolding lookup text_eq
matches_all [] labels = true
matches_all (entry ∷ rest) labels =
    let later = matches_all rest labels in same_value (lookup entry.0 labels) entry.1 && later

-- The counters of the loop.
pub record Counters : Type 0 where
  pub labeled : ℕ
  pub ready : ℕ
  pub available : ℕ

abbrev count_node : Result Node → ℤ → ℕ → Counters → Counters
count_node (err e) min_ready_seconds now c = c
count_node (ok node) min_ready_seconds now c =
    if not (is_node_ready node.conditions)
    then c
    else if is_node_available node min_ready_seconds now
    then record c { ready = suc c.ready; available = suc c.available }
    else record c { ready = suc c.ready }

abbrev count_labeled : Bool → Counters → Counters
count_labeled true c = record c { labeled = suc c.labeled }
count_labeled false c = c

unfoldable pub count_machine :
    (Machine → Result Node) → ℕ → MachineSet → Machine → Counters → Counters
unfolding is_node_ready is_node_available get_machine_node matches_all
count_machine read now ms machine c =
    count_node (get_machine_node read machine) ms.min_ready_seconds now
      (count_labeled (matches_all (template_labels ms.template) (read_map machine.labels)) c)

unfoldable pub count_machines :
    (Machine → Result Node) → ℕ → MachineSet → List Machine → Counters → Counters
unfolding count_machine
count_machines read now ms [] c = c
count_machines read now ms (machine ∷ rest) c =
    count_machines read now ms rest (count_machine read now ms machine c)

unfoldable pub calculate_status :
    (Machine → Result Node) → ℕ → MachineSet → List Machine → MachineSetStatus
unfolding count_machines
calculate_status read now ms machines =
    let c =
      count_machines read now ms machines (record { labeled = 0; ready = 0; available = 0 }) in
    record ms.status {
      replicas = int32 (pos (length machines));
      fully_labeled_replicas = int32 (pos c.labeled);
      ready_replicas = int32 (pos c.ready);
      available_replicas = int32 (pos c.available);
    }

abbrev pub same_counts : MachineSetStatus → MachineSetStatus → Bool
same_counts a b =
    eq_ℤ a.replicas b.replicas
    && eq_ℤ a.fully_labeled_replicas b.fully_labeled_replicas
    && eq_ℤ a.ready_replicas b.ready_replicas
    && eq_ℤ a.available_replicas b.available_replicas

abbrev pub status_update_retries : ℕ
status_update_retries = 1

-- One more round for each retry that is left; `fresh` is the set that the read between two rounds
-- gives. The server's answers to the writes and the reads come from its list.
unfoldable pub update_with_retries :
    ℕ → MachineSet → MachineSet → MachineSetStatus → Api Request → Result MachineSet × Api Request
unfolding send ask
update_with_retries zero fresh ms status s =
    let changed = record ms { status = status } in
    let (e, s₁) = send (update_status changed) s in
    elim e [ none ↦ (ok changed, s₁) | some problem ↦ (err (api problem), s₁) ]
update_with_retries (suc left) fresh ms status s =
    let changed = record ms { status = status } in
    let (e, s₁) = send (update_status changed) s in
    let (unread, s₂) = ask s₁ in
    let retried = update_with_retries left fresh fresh status s₂ in
    elim e [
      | none ↦ (ok changed, s₁)
      | some problem ↦ elim unread [ none ↦ retried | some why ↦ (err (api why), s₂) ]
    ]

unfoldable pub update_machine_set_status :
    MachineSet → MachineSet → MachineSetStatus → Api Request → Result MachineSet × Api Request
unfolding update_with_retries
update_machine_set_status fresh ms status s =
    if same_counts ms.status status && eq_ℤ ms.generation ms.status.observed_generation
    then (ok ms, s)
    else update_with_retries status_update_retries fresh ms
        (record status { observed_generation = ms.generation }) s
