-- ===== src/MachineSets/Reconcile.antt =====
-- The reconciliation of a machine set: pkg/controller/machineset/machineset_controller.go.
pub mod Guard
use machine_controller_k0s.Prelude.{
  ℕ, ◌+◌, List, [], ◌∷◌, ◌++◌, Option, none, some, Bool, true, false, not, ◌&&◌, ◌||◌,
  if◌then◌else◌, String, str_eq, ◌==◌,
}
use machine_controller_k0s.Prelude.Int.{ℤ, pos, eq_ℤ, ltb_ℤ}
use machine_controller_k0s.Api.{
  api, ApiError, not_found, bad_selector, Error, Result, ok, err, Api, send, ask,
}
use machine_controller_k0s.Objects.{template_labels, MachineSet, Machine, Node}
use machine_controller_k0s.Externals.{Externals}
use machine_controller_k0s.MachineSets.Requests.{Request, update_machine_set}
use machine_controller_k0s.MachineSets.DeletePolicy.{Priorities}
use machine_controller_k0s.MachineSets.Replicas.{
  Surroundings, Sync, returned, blocked, claim_machines, sync_replicas,
}
use machine_controller_k0s.MachineSets.NodeStatus.{calculate_status, update_machine_set_status}

abbrev pub foreground_deletion : String
foreground_deletion = "foregroundDeletion"

-- `contains`
unfoldable pub contains : List String → String → Bool
contains [] e = false
contains (s ∷ rest) e = let later = contains rest e in if str_eq s e then true else later

-- `reconcile.Result` and the error; `waiting` is a call that does not return.
pub data Outcome : Type 0 where
  done requeue : Outcome
  requeue_after : ℤ → Outcome
  failed : Error → Outcome
  waiting : Outcome

-- What the reads of one reconciliation give: the machines of the namespace, the nodes, and the set
-- when the write of the status is tried again.
pub record View : Type 0 where
  pub now : ℕ
  pub machines : List Machine
  pub read_node : Machine → Result Node
  pub fresh : MachineSet

abbrev wanted : Option ℤ → ℤ
wanted none = pos 0
wanted (some n) = n

abbrev resync : MachineSet → Outcome
resync ms =
    if ltb_ℤ (pos 0) ms.min_ready_seconds
      && eq_ℤ ms.status.ready_replicas (wanted ms.spec_replicas)
      && not (eq_ℤ ms.status.available_replicas (wanted ms.spec_replicas))
    then requeue_after ms.min_ready_seconds
    else done

-- The errors of the status and of the sync, in the order in which they count.
abbrev conclude : Result {0} Unit → Result MachineSet → Outcome
conclude synced (err e) = failed e
conclude (err e) (ok ms) = failed e
conclude (ok u) (ok ms) = resync ms

module _ (x : Externals) (w : Surroundings) (f : Priorities) where
  unfoldable pub sync_and_report :
      View → MachineSet → List Machine → Api Request → Outcome × Api Request
  unfolding sync_replicas calculate_status update_machine_set_status
  sync_and_report v ms machines s =
      let (synced, s₁) = sync_replicas x w f v.now ms machines s in
      let status = calculate_status v.read_node v.now ms machines in
      let (updated, s₂) = update_machine_set_status v.fresh ms status s₁ in
      elim synced [ blocked ↦ (waiting, s₁) | returned e ↦ (conclude e updated, s₂) ]

  unfoldable pub add_finalizer : MachineSet → Api Request → Outcome × Api Request
  unfolding send
  add_finalizer ms s =
      let changed = record ms {
        meta = record ms.meta { finalizers = ms.finalizers ++ (foreground_deletion ∷ []) };
      } in
      let (e, s') = send (update_machine_set changed) s in
      elim e [ none ↦ (requeue, s') | some why ↦ (failed (api why), s') ]

  abbrev is_deleted : Option ℕ → Bool
  is_deleted none = false
  is_deleted (some t) = not (t == 0)

  -- After the machines are listed, which may fail.
  unfoldable pub reconcile : View → MachineSet → Api Request → Outcome × Api Request
  unfolding ask add_finalizer claim_machines sync_and_report contains
  reconcile v ms s =
      let (e, s₁) = ask s in
      let added = add_finalizer ms s₁ in
      let (kept, s₂) = claim_machines x w f ms v.machines s₁ in
      let reported = sync_and_report v ms kept s₂ in
      elim e [
        | some why ↦ (failed (api why), s₁)
        | none ↦
            if not (x.selector_parses ms.selector)
            then (failed bad_selector, s₁)
            else if not (x.selector_matches ms.selector (template_labels ms.template))
            then (failed bad_selector, s₁)
            else if not (contains ms.finalizers foreground_deletion)
            then added
            else if is_deleted ms.deletion_timestamp
            then (done, s₁)
            else reported
      ]

  abbrev is_set : Option ℕ → Bool
  is_set none = false
  is_set (some t) = true

  -- `Reconcile`: the set is read; one that is gone or being deleted is left alone.
  unfoldable pub reconcile_request : View → MachineSet → Api Request → Outcome × Api Request
  unfolding ask reconcile
  reconcile_request v ms s =
      let (e, s₁) = ask s in
      let went_on = reconcile v ms s₁ in
      elim e [
        | some not_found ↦ (done, s₁)
        | some why ↦ (failed (api why), s₁)
        | none ↦ if is_set ms.deletion_timestamp then (done, s₁) else went_on
      ]
