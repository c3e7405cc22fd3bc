-- ===== src/Machines.antt =====
-- The machine controller: pkg/controller/machine/machine.go, in this module the choice whether the
-- node of a machine that is being deleted is evicted.
pub mod Requests
pub mod Update
pub mod Provider
pub mod Effect
pub mod Stored
pub mod Deletion
pub mod Nodes
pub mod Link
pub mod Instances
pub mod Reconcile
pub mod Targets
use machine_controller_k0s.Prelude.{
  ℕ, ◌-◌, List, Option, none, some, Bool, true, false, not, ◌&&◌, ltb, any, if◌then◌else◌,
}
use machine_controller_k0s.Prelude.Decimal.{Text, text_eq}
use machine_controller_k0s.Api.{ApiError, not_found, panicked, api, Result, ok, err, Api, ask}
use machine_controller_k0s.Objects.{Machine, Node}
use machine_controller_k0s.Machines.Requests.{Request}

-- What the lists of machines and of nodes give.
pub record Cluster : Type 0 where
  pub machines : List Machine
  pub nodes : List Node

abbrev is_missing : ApiError → Bool
is_missing not_found = true
is_missing e = false

-- A machine that waits for its node, which will be a place for pods.
abbrev pub has_no_node : Machine → Bool
has_no_node machine = elim machine.node_ref [ none ↦ true | some name ↦ false ]

abbrev pub is_target : Text → Node → Bool
is_target own node = not (text_eq node.name own) && not node.unschedulable

-- Times are in seconds; a nil deletion time, which the caller excludes, panics.
unfoldable pub should_evict : ℕ → ℕ → Cluster → Machine → Api Request → Result Bool × Api Request
unfolding ask text_eq
should_evict now skip_after cluster machine s = elim machine.deletion_timestamp [
  | none ↦ (err panicked, s)
  | some t ↦ if ltb skip_after (now - t) then (ok false, s) else elim machine.node_ref [
    | none ↦ (ok false, s)
    | some own ↦
        let (unread, s₁) = ask s in
        let (no_machines, s₂) = ask s₁ in
        let (no_nodes, s₃) = ask s₂ in
        elim unread [
          | some e ↦ (if is_missing e then ok false else err (api e), s₁)
          | none ↦ elim no_machines [
            | some e ↦ (err (api e), s₂)
            | none ↦ if any has_no_node cluster.machines then (ok true, s₂) else elim no_nodes [
              | some e ↦ (err (api e), s₃)
              | none ↦ (ok (any (is_target own) cluster.nodes), s₃)
            ]
          ]
        ]
  ]
]
