-- ===== src/Examples/Machines.antt =====
-- The theorems on machine sets and their machines, at concrete inputs.
use machine_controller_k0s.Prelude.{
  ◌≢◌, All, ℕ, ◌-◌, ◌/◌, ◌≡◌, ◌↔◌, refl, ◌⊎◌, List, [], ◌∷◌, Option, none, some, Bool, true, false,
  arith, length, ltb, keep_if, ◌≤◌,
}
use machine_controller_k0s.Prelude.Int.{ℤ, pos, negsuc}
use machine_controller_k0s.Prelude.Decimal.{codes}
use machine_controller_k0s.Api.{Api, send, Result, ok, err, refused, timed_out}
use machine_controller_k0s.Objects.{MachineSet, Machine, Node, node_ready, condition_true}
use mathlib.Core.List.{Perm}
use mathlib.Core.List.Perm
use machine_controller_k0s.MachineSets.Requests.{Request}
use machine_controller_k0s.MachineSets.DeletePolicy.{
  Priorities, get_delete_priority_func, random_delete_policy, get_machines_to_delete_prioritized,
}
use machine_controller_k0s.MachineSets.DeletePolicy.Order.{
  IsChoice, get_machines_to_delete_prioritized-IsChoice,
}
use machine_controller_k0s.MachineSets.NodeStatus.{calculate_status, update_machine_set_status}
use machine_controller_k0s.MachineSets.NodeStatus.Counts.{
  IsWritten, has_labels, has_ready_node, has_available_node, calculate_status_exact,
  update_machine_set_status_lem,
}
use machine_controller_k0s.MachineSets.Replicas.{
  Surroundings, Seen, blocked, claim_machines, should_exclude_machine, has_matching_labels,
  adopt_orphan, sync_replicas,
}
use machine_controller_k0s.MachineSets.Replicas.Effect.{
  IsScaleUp, sync_replicas_creates, sync_replicas_blocked,
}
use machine_controller_k0s.MachineSets.Replicas.Claim.{IsClaimable, claim_machines-IsClaimable}
use machine_controller_k0s.MachineSets.Reconcile.{
  View, contains, foreground_deletion, reconcile_request,
}
use machine_controller_k0s.MachineSets.Reconcile.Guard.{IsGuarded, reconcile_request-IsGuarded}
use machine_controller_k0s.Examples.Base.{machine_of, node_of, simple, meta_of, old_a}

ltb_asym : (p q : ℕ) → ltb p q ≡ true → ltb q p ≡ false
ltb_asym p q h = ground arith

ltb_trans : (p q r : ℕ) → ltb p q ≡ false → ltb q r ≡ false → ltb p r ≡ false
ltb_trans p q r h k = ground arith

abbrev priorities : Priorities
priorities = record {
  Priority = ℕ;
  must_delete = 100;
  better_delete = 50;
  could_delete = 20;
  must_not_delete = 0;
  of_age = λ s. s / 86400;
  remainder = λ p. 100 - p;
  below = ltb;
  below_asym = ltb_asym;
  below_trans = ltb_trans;
}

abbrev poll : List (Result {0} Bool) → Result {0} Unit
poll [] = err timed_out
poll (ok true ∷ rest) = ok tt
poll (ok false ∷ rest) = poll rest
poll (err e ∷ rest) = err e

abbrev nothing_seen : ℕ → Machine → List Seen
nothing_seen i m = []

abbrev in_order : List Machine → List Machine
in_order ms = ms

in_order-perm : (ms : List Machine) → Perm (in_order ms) ms
in_order-perm ms = Perm.refl ms

abbrev surroundings : Surroundings
surroundings = record {
  poll_immediate = poll;
  reads_of = nothing_seen;
  schedule = in_order;
  schedule_perm = in_order-perm;
}

abbrev idle : Api Request
idle = record { answers = none ∷ some refused ∷ []; accepted = [] }

abbrev machine : ℕ → Option ℕ → Machine
machine created deleted = record (machine_of (codes "m") (some (codes "n"))) {
  meta = record (meta_of (codes "m") created) { deletion_timestamp = deleted };
}

abbrev machines : List Machine
machines = machine 1 none ∷ machine 2 none ∷ machine 3 (some 9) ∷ []

abbrev set_of : ℤ → MachineSet
set_of n = record old_a { spec_replicas = some n }

abbrev node : Node
node = record (node_of (codes "n")) {
  conditions =
      record { type = node_ready; condition_status = condition_true; last_transition_time = 5 }
      ∷ [];
}

abbrev read_node : Machine → Result {0} Node
read_node m = ok node

abbrev view : View
view = record { now = 50; machines = machines; read_node = read_node; fresh = set_of (pos 5) }

policy_is_random :
    (n : ℤ)
    → get_delete_priority_func priorities 50 (set_of n) ≡ ok (random_delete_policy priorities)
unfolding get_delete_priority_func
policy_is_random n = refl

no_finalizer : contains [] foreground_deletion ≡ false
unfolding contains
no_finalizer = refl

get_machines_to_delete_prioritized-IsChoice_example :
    IsChoice priorities (random_delete_policy priorities) 2 machines (
      get_machines_to_delete_prioritized priorities machines
        (pos 2)
        (random_delete_policy priorities))
get_machines_to_delete_prioritized-IsChoice_example =
    get_machines_to_delete_prioritized-IsChoice priorities (random_delete_policy priorities)
      machines 2

sync_replicas_blocked_example :
    ((sync_replicas simple surroundings priorities 50 (set_of (negsuc 0)) machines idle).0
      ≡ blocked)
    ↔ ((m : ℕ) × (negsuc 0 ≡ negsuc m))
sync_replicas_blocked_example =
    sync_replicas_blocked simple surroundings priorities 50 (set_of (negsuc 0)) machines idle
      (negsuc 0) (random_delete_policy priorities) refl (policy_is_random (negsuc 0))

sync_replicas_creates_example :
    IsScaleUp simple surroundings priorities 2
      (set_of (pos 5))
      idle
      (sync_replicas simple surroundings priorities 50 (set_of (pos 5)) machines idle)
sync_replicas_creates_example =
    sync_replicas_creates simple surroundings priorities 50 1 (set_of (pos 5)) machines idle 5 refl
      refl

calculate_status_exact_example :
    (calculate_status read_node 50 (set_of (pos 5)) machines ≡ record old_a.status {
      replicas = pos 3;
      fully_labeled_replicas =
          pos (length (keep_if (has_labels read_node 50 (set_of (pos 5))) machines));
      ready_replicas =
          pos (length (keep_if (has_ready_node read_node 50 (set_of (pos 5))) machines));
      available_replicas =
          pos (length (keep_if (has_available_node read_node 50 (set_of (pos 5))) machines));
    })
    × (length (keep_if (has_labels read_node 50 (set_of (pos 5))) machines) ≤ 3)
    × (length (keep_if (has_ready_node read_node 50 (set_of (pos 5))) machines) ≤ 3)
    × (length (keep_if (has_available_node read_node 50 (set_of (pos 5))) machines)
        ≤ length (keep_if (has_ready_node read_node 50 (set_of (pos 5))) machines))
calculate_status_exact_example =
    calculate_status_exact read_node 50 (set_of (pos 5)) machines (omega arith)

update_machine_set_status_lem_example :
    let wanted = record old_a.status { observed_generation = pos 1 } in
    let r = update_machine_set_status (set_of (pos 5)) (set_of (pos 5)) old_a.status idle in
    ((old_a.status ≡ wanted) × (r ≡ (ok (set_of (pos 5)), idle)))
    ⊎ ((old_a.status ≢ wanted) × IsWritten wanted idle r)
update_machine_set_status_lem_example =
    update_machine_set_status_lem (set_of (pos 5)) (set_of (pos 5)) old_a.status idle

reconcile_request-IsGuarded_example :
    IsGuarded idle (reconcile_request simple surroundings priorities view (set_of (pos 5)) idle)
reconcile_request-IsGuarded_example =
    reconcile_request-IsGuarded simple surroundings priorities view (set_of (pos 5)) idle
      no_finalizer

claim_machines-IsClaimable_example :
    All
      (IsClaimable simple surroundings priorities (set_of (pos 5)))
      (claim_machines simple surroundings priorities (set_of (pos 5)) machines idle).0
claim_machines-IsClaimable_example =
    claim_machines-IsClaimable simple surroundings priorities (set_of (pos 5)) machines idle

-- The machine that is being deleted is not kept, and the orphan that the server refuses neither.
claimed :
    length (claim_machines simple surroundings priorities (set_of (pos 5)) machines idle).0 ≡ 1
unfolding claim_machines should_exclude_machine has_matching_labels adopt_orphan send
claimed = refl
