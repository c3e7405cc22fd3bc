-- ===== src/Machines/Targets.antt =====
-- When the node of a machine is evicted: pkg/controller/machine/machine.go.
use machine_controller_k0s.Prelude.{
  ℕ, ◌-◌, ◌≤◌, ◌≡◌, ◌≢◌, ◌↔◌, ◌⊎◌, inl, inr, [], Bool, none, some, true, false, arith, not, ◌&&◌,
  ◌||◌, ltb, any, IsAmong, any-IsAmong, any_of_IsAmong, Bool-cases, Option-cases,
}
use machine_controller_k0s.Prelude.Decimal.{Text, text_eq, text_eq_iff}
use machine_controller_k0s.Api.{ok, Result, Api, ask}
use machine_controller_k0s.Objects.{Machine, Node}
use machine_controller_k0s.Machines.Requests.{Request}
use machine_controller_k0s.Machines.{Cluster, has_no_node, is_target, should_evict}

-- A place for the pods of the node `own`: a machine whose node has yet to come, or another node that
-- takes pods.
abbrev pub HasPlace : Text → Cluster → Type 0
HasPlace own cluster =
    ((machine : Machine) × IsAmong machine cluster.machines × (machine.node_ref ≡ none))
    ⊎ ((node : Node) × IsAmong node cluster.nodes
        × (node.name ≢ own)
        × (node.unschedulable ≡ false))

unnamed : (machine : Machine) → has_no_node machine ≡ true → machine.node_ref ≡ none
unnamed machine h = ground (arith, h)

place_found :
    (own : Text) (cluster : Cluster)
    → any has_no_node cluster.machines || any (is_target own) cluster.nodes ≡ true
    → HasPlace own cluster
unfolding text_eq
place_found own cluster h = elim (Bool-cases (any has_no_node cluster.machines)) [
  | inl waits ↦
      let (machine, among, e) = any-IsAmong has_no_node cluster.machines waits in
      inl (machine, among, unnamed machine e)
  | inr none_waits ↦
      let (node, among, e) =
        any-IsAmong (is_target own) cluster.nodes (ground (arith, h, none_waits)) in
      inr
        (node, among, (λ same. ground (arith, (text_eq_iff node.name own).1 same, e)), ground arith)
]

found_place :
    (own : Text) (cluster : Cluster)
    → HasPlace own cluster
    → any has_no_node cluster.machines || any (is_target own) cluster.nodes ≡ true
found_place own cluster (inl (machine, among, e)) =
    ground (arith, any_of_IsAmong has_no_node machine cluster.machines among (ground (arith, e)))
found_place own cluster (inr (node, among, differs, free)) = ground (
  arith,
  any_of_IsAmong (is_target own) node cluster.nodes among
      (ground (arith, (text_eq_iff node.name own).0, differs, free)),
)

-- The answer where no read fails.
answered :
    (now skip_after : ℕ) (cluster : Cluster) (machine : Machine) (s : Api Request) (t : ℕ)
    (own : Text)
    → machine.deletion_timestamp ≡ some t
    → machine.node_ref ≡ some own
    → s.answers ≡ []
    → (should_evict now skip_after cluster machine s).0
      ≡ ok (
          not (ltb skip_after (now - t))
          && (any has_no_node cluster.machines || any (is_target own) cluster.nodes))
unfolding should_evict ask
answered now skip_after cluster machine s t own ht ho h = ground arith

-- Without a deletion time or without a node the answer is not true.
unanswered :
    (now skip_after : ℕ) (cluster : Cluster) (machine : Machine) (s : Api Request)
    → (machine.deletion_timestamp ≡ none) ⊎ (machine.node_ref ≡ none)
    → (should_evict now skip_after cluster machine s).0 ≢ ok true
unfolding should_evict ask
unanswered now skip_after cluster machine s (inl e) h = ground (arith, e, h)
unanswered now skip_after cluster machine s (inr e) h = ground (arith, e, h)

-- Where the server answers every read, the node of a machine is evicted exactly if the machine is
-- being deleted, within the time for evictions, and has a node, and there is a place for its pods:
-- a machine without a node, or a schedulable node of another name.
pub should_evict_iff :
    (now skip_after : ℕ) (cluster : Cluster) (machine : Machine) (s : Api Request)
    → s.answers ≡ []
    → ((should_evict now skip_after cluster machine s).0 ≡ ok true) ↔ (
        (t : ℕ) × (own : Text) × (machine.deletion_timestamp ≡ some t)
        × (machine.node_ref ≡ some own)
        × (now - t ≤ skip_after)
        × HasPlace own cluster)
should_evict_iff now skip_after cluster machine s h = (go, back)
  where
    answer : Result Bool
    answer = (should_evict now skip_after cluster machine s).0

    IsDue : Type 0
    IsDue =
        (t : ℕ) × (own : Text) × (machine.deletion_timestamp ≡ some t)
        × (machine.node_ref ≡ some own)
        × (now - t ≤ skip_after)
        × HasPlace own cluster

    go : answer ≡ ok true → IsDue
    go e = elim (Option-cases machine.deletion_timestamp) [
      | inl absent ↦ absurd (unanswered now skip_after cluster machine s (inl absent) e)
      | inr (t, ht) ↦ elim (Option-cases machine.node_ref) [
        | inl absent ↦ absurd (unanswered now skip_after cluster machine s (inr absent) e)
        | inr (own, ho) ↦
            let value = answered now skip_after cluster machine s t own ht ho h in
            (t, own, ht, ho, ground arith, place_found own cluster (ground arith))
      ]
    ]

    back : IsDue → answer ≡ ok true
    back (t, own, ht, ho, due, place) = ground (
      arith,
      answered now skip_after cluster machine s t own ht ho h,
      found_place own cluster place,
    )
