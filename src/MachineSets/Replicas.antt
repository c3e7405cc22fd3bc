-- ===== src/MachineSets/Replicas.antt =====
-- The creation and the deletion of machines: pkg/controller/machineset/machineset_controller.go
-- and hasMatchingLabels of pkg/controller/machineset/machine.go.
pub mod Effect
pub mod Deletion
pub mod Claim
use machine_controller_k0s.Prelude.{
  ℕ, zero, suc, ◌+◌, ◌≡◌, List, [], ◌∷◌, ◌++◌, Option, none, some, Bool, true, false, not, ◌&&◌,
  ◌||◌, length, leb, ltb, ◌==◌, if◌then◌else◌, String, find,
}
use machine_controller_k0s.Prelude.Int.{ℤ, pos, negsuc, sub_ℕ, eq_ℤ, ltb_ℤ}
use machine_controller_k0s.Prelude.Decimal.{Text, codes, text_eq}
use machine_controller_k0s.Api.{
  api, ApiError, not_found, nil_replicas, not_created, Error, Result, ok, err, Api, send, ◌>>=◌,
}
use machine_controller_k0s.Objects.{read_map, ObjectMeta, MachineSet, Machine}
use machine_controller_k0s.Externals.{Externals}
use machine_controller_k0s.MachineSets.Requests.{
  Request, create_machine, delete_machine, update_machine,
}
use machine_controller_k0s.MachineSets.DeletePolicy.{
  Priorities, get_machines_to_delete_prioritized, get_delete_priority_func,
}
use mathlib.Core.List.{Perm}

-- What a read of a machine finds.
pub data Seen : Type 0 where
  found : Machine → Seen
  failed : ApiError → Seen

-- `wait.PollImmediate`, given what each call of the condition returns until the time is up; the
-- reads of each machine; and the order in which the goroutines reach the server.
pub record Surroundings : Type 0 where
  pub poll_immediate : List (Result Bool) → Result {0} Unit
  pub reads_of : ℕ → Machine → List Seen
  pub schedule : List Machine → List Machine
  pub schedule_perm : (ms : List Machine) → Perm (schedule ms) ms

abbrev is_not_found : ApiError → Bool
is_not_found not_found = true
is_not_found e = false

-- The conditions of the two waits.
unfoldable pub is_created : Seen → Result Bool
is_created (found m) = ok true
is_created (failed e) = if is_not_found e then ok false else err (api e)

abbrev zero_or_none : Option ℕ → Bool
zero_or_none none = true
zero_or_none (some t) = t == 0

-- After a failed read the machine is the empty one, whose deletion time is zero.
unfoldable pub is_gone : Seen → Result Bool
is_gone (found m) = ok (not (zero_or_none m.deletion_timestamp))
is_gone (failed e) = if is_not_found e then ok true else err (api e)

abbrev map_reads : (Seen → Result Bool) → List Seen → List (Result Bool)
map_reads f [] = []
map_reads f (r ∷ rest) = f r ∷ map_reads f rest

-- `syncReplicas` returns, or waits for ever on its wait group.
pub data Sync : Type 0 where
  returned : Result {0} Unit → Sync
  blocked : Sync

module _ (x : Externals) (w : Surroundings) (f : Priorities) where
  unfoldable pub has_matching_labels : MachineSet → Machine → Bool
  has_matching_labels ms machine =
      if not (x.selector_parses ms.selector)
      then false
      else if x.selector_is_empty ms.selector
      then false
      else x.selector_matches ms.selector (read_map machine.labels)

  abbrev pub has_controller : Machine → Bool
  has_controller machine = elim (x.controller_of machine.meta) [ none ↦ false | some o ↦ true ]

  abbrev is_given : Option ℕ → Bool
  is_given none = false
  is_given (some t) = true

  unfoldable pub should_exclude_machine : MachineSet → Machine → Bool
  unfolding has_matching_labels
  should_exclude_machine ms machine =
      if has_controller machine && not (x.is_controlled_by machine.meta ms.meta)
      then true
      else if is_given machine.deletion_timestamp
      then true
      else not (has_matching_labels ms machine)

  -- The metadata of the template, with the name left to the API server.
  unfoldable pub new_machine : MachineSet → Machine
  new_machine ms = record {
    meta = record ms.template.template_meta {
      generate_name = ms.name ++ codes "-";
      namespace = ms.namespace;
      owner_references = x.new_controller_ref ms.meta ∷ [];
    };
    spec = ms.template.machine_spec;
    node_ref = none;
    error_reason = none;
    error_message = none;
    addresses = [];
    conditions = [];
    kubelet_version = none;
  }

  unfoldable pub adopt_orphan :
      MachineSet → Machine → Api Request → (Option ApiError × Machine) × Api Request
  unfolding send
  adopt_orphan ms machine s =
      let adopted = record machine {
        meta = record machine.meta {
          owner_references = machine.owner_references ++ (x.new_controller_ref ms.meta ∷ []);
        };
      } in
      let (e, s') = send (update_machine adopted) s in ((e, adopted), s')

  -- The machines that the set keeps, orphans adopted: the loop of `reconcile`.
  unfoldable pub claim_machines :
      MachineSet → List Machine → Api Request → List Machine × Api Request
  unfolding should_exclude_machine adopt_orphan
  claim_machines ms [] s = ([], s)
  claim_machines ms (machine ∷ rest) s =
      let excluded = claim_machines ms rest s in
      let ((e, adopted), s') = adopt_orphan ms machine s in
      let after = claim_machines ms rest s' in
      if should_exclude_machine ms machine
      then excluded
      else if has_controller machine
      then (machine ∷ excluded.0, excluded.1)
      else elim e [ none ↦ (adopted ∷ after.0, after.1) | some why ↦ after ]

  -- The waits go through the machines in order and stop at the first error.
  unfoldable pub wait_for_machines : (Seen → Result Bool) → ℕ → List Machine → Result {0} Unit
  wait_for_machines condition i [] = ok tt
  wait_for_machines condition i (machine ∷ rest) = do
    u ← w.poll_immediate (map_reads condition (w.reads_of i machine))
    wait_for_machines condition (suc i) rest

  unfoldable pub wait_for_machine_creation : List Machine → Result {0} Unit
  unfolding is_created wait_for_machines
  wait_for_machine_creation machines = wait_for_machines is_created 0 machines

  unfoldable pub wait_for_machine_deletion : List Machine → Result {0} Unit
  unfolding is_gone wait_for_machines
  wait_for_machine_deletion machines = wait_for_machines is_gone 0 machines

  -- The loop over `i`: the machines that the server created, and the errors.
  unfoldable pub create_machines :
      ℕ → MachineSet → Api Request → (List Machine × List ApiError) × Api Request
  unfolding new_machine send
  create_machines zero ms s = (([], []), s)
  create_machines (suc n) ms s =
      let (e, s₁) = send (create_machine (new_machine ms)) s in
      let ((made, errors), s₂) = create_machines n ms s₁ in
      (elim e [ none ↦ (new_machine ms ∷ made, errors) | some why ↦ (made, why ∷ errors) ], s₂)

  abbrev pub await_created : List Machine × List ApiError → Result {0} Unit
  await_created (made, []) = wait_for_machine_creation made
  await_created (made, e ∷ errors) = err not_created

  -- The goroutines, in the order in which they reach the server: the errors they put in the channel.
  unfoldable pub delete_machines : List Machine → Api Request → List ApiError × Api Request
  unfolding send
  delete_machines [] s = ([], s)
  delete_machines (machine ∷ rest) s =
      let (e, s₁) = send (delete_machine machine) s in
      let (errors, s₂) = delete_machines rest s₁ in
      (elim e [ none ↦ errors | some why ↦ why ∷ errors ], s₂)

  -- `wg.Add(diff)`, and one `wg.Done()` for each machine: the wait returns if the two are equal.
  abbrev pub await_deleted : ℕ → List Machine → List ApiError → Sync
  await_deleted diff machines (e ∷ errors) =
      if length machines == diff then returned (err (api e)) else blocked
  await_deleted diff machines [] =
      if length machines == diff then returned (wait_for_machine_deletion machines) else blocked

  unfoldable pub scale_down : ℕ → ℕ → MachineSet → List Machine → Api Request → Sync × Api Request
  unfolding get_delete_priority_func get_machines_to_delete_prioritized delete_machines
      wait_for_machine_deletion
  scale_down now diff ms machines s = elim (get_delete_priority_func f now ms) [
    | err e ↦ (returned (err e), s)
    | ok priority ↦
        let chosen = get_machines_to_delete_prioritized f machines (pos diff) priority in
        let (errors, s') = delete_machines (w.schedule chosen) s in
        (await_deleted diff chosen errors, s')
  ]

  abbrev scale_by : ℕ → ℤ → MachineSet → List Machine → Api Request → Sync × Api Request
  scale_by now (negsuc n) ms machines s =
      let (outcome, s') = create_machines (suc n) ms s in (returned (await_created outcome), s')
  scale_by now (pos diff) ms machines s =
      let down = scale_down now diff ms machines s in
      if diff == 0 then (returned (ok tt), s) else down

  -- `len(machines) - replicas`, in Go's 64-bit `int`.
  abbrev surplus : List Machine → ℤ → ℤ
  surplus machines (pos n) = sub_ℕ (length machines) n
  surplus machines (negsuc n) = pos (length machines + suc n)

  unfoldable pub sync_replicas : ℕ → MachineSet → List Machine → Api Request → Sync × Api Request
  unfolding create_machines scale_down wait_for_machine_creation
  sync_replicas now ms machines s = elim ms.spec_replicas [
    | none ↦ (returned (err nil_replicas), s)
    | some n ↦ scale_by now (surplus machines n) ms machines s
  ]
