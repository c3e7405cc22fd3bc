-- ===== src/Deployment/Status/Laws.antt =====
-- The status that `calculateStatus` of pkg/controller/machinedeployment/sync.go reports.
use machine_controller_k0s.Prelude.{
  ℕ, ◌-◌, ◌<◌, ◌≡◌, refl, List, Option, none, some, true, false, arith, All, sum_of, if◌then◌else◌,
  Option-cases, Bool-cases, ◌⊎◌, inl, inr, [], ◌∷◌, ◌≢◌,
}
use machine_controller_k0s.Prelude.Int.{pos, ltb_ℤ, sub32, sub32_pos, eq_ℤ_iff}
use machine_controller_k0s.Api.{api, ok, Api, ApiError, next_answer, later_answers, send}
use machine_controller_k0s.Objects.{MachineSet, MachineDeployment, MachineDeploymentStatus}
use machine_controller_k0s.Deployment.Counts.{
  size, available, IsSized, HasAvailable, pointers, get_actual_replica_count_for_machine_sets,
  get_ready_replica_count_for_machine_sets, replica_count-pointers, available_count-pointers,
}
use machine_controller_k0s.Deployment.Scaling.{Request, update_deployment_status}
use machine_controller_k0s.Deployment.Status.{
  calculate_status, status_eq, api_error, sync_deployment_status,
}

abbrev reported : List MachineSet → Option MachineSet → MachineDeployment → MachineDeploymentStatus
reported mss new_ms d = record {
  observed_generation = d.generation;
  replicas = get_actual_replica_count_for_machine_sets (pointers mss);
  updated_replicas = get_actual_replica_count_for_machine_sets (new_ms ∷ []);
  ready_replicas = get_ready_replica_count_for_machine_sets (pointers mss);
  available_replicas = pos (sum_of available mss);
  unavailable_replicas = pos (sum_of size mss - sum_of available mss);
}

below_zero :
    (a b : ℕ)
    → a < 2147483648
    → b < 2147483648
    → (if ltb_ℤ (sub32 (pos a) (pos b)) (pos 0) then pos 0 else sub32 (pos a) (pos b)) ≡ pos (a - b)
below_zero a b h k = ground (arith, sub32_pos a b)

calculate_status_value :
    (mss : List MachineSet) (new_ms : Option MachineSet) (d : MachineDeployment)
    → All IsSized mss
    → All HasAvailable mss
    → sum_of size mss < 2147483648
    → sum_of available mss < 2147483648
    → calculate_status (pointers mss) new_ms d ≡ ok (reported mss new_ms d)
unfolding calculate_status
calculate_status_value mss new_ms d sized have fits fits' = ground (
  arith,
  replica_count-pointers mss sized fits,
  available_count-pointers mss have fits',
  below_zero (sum_of size mss) (sum_of available mss) fits fits',
)

-- The status counts the available machines of all sets; the unavailable ones are those that the
-- sets ask for beyond these, and never fewer than 0; the generation is the deployment's.
pub calculate_status_counts :
    (mss : List MachineSet) (new_ms : Option MachineSet) (d : MachineDeployment)
    → All IsSized mss
    → All HasAvailable mss
    → sum_of size mss < 2147483648
    → sum_of available mss < 2147483648
    → (status : MachineDeploymentStatus) × (calculate_status (pointers mss) new_ms d ≡ ok status)
      × (status.available_replicas ≡ pos (sum_of available mss))
      × (status.unavailable_replicas ≡ pos (sum_of size mss - sum_of available mss))
      × (status.observed_generation ≡ d.generation)
calculate_status_counts mss new_ms d sized have fits fits' = (
  reported mss new_ms d,
  calculate_status_value mss new_ms d sized have fits fits',
  refl,
  refl,
  refl,
)

-- Equal statuses are the same.
pub status_eq-eq : (a b : MachineDeploymentStatus) → status_eq a b ≡ true → a ≡ b
unfolding status_eq
status_eq-eq a b h = ground (
  arith,
  eq_ℤ_iff a.observed_generation b.observed_generation,
  eq_ℤ_iff a.replicas b.replicas,
  eq_ℤ_iff a.updated_replicas b.updated_replicas,
  eq_ℤ_iff a.ready_replicas b.ready_replicas,
  eq_ℤ_iff a.available_replicas b.available_replicas,
  eq_ℤ_iff a.unavailable_replicas b.unavailable_replicas,
)

module _ (all : List (Option MachineSet)) (new_ms : Option MachineSet) (d : MachineDeployment)
    (s : Api Request) (status : MachineDeploymentStatus) where
  unchanged :
      calculate_status all new_ms d ≡ ok status
      → status_eq d.status status ≡ true
      → sync_deployment_status all new_ms d s ≡ record { deployment = d; server = s; error = none }
  unfolding sync_deployment_status
  unchanged e same = rw (e, sync_deployment_status) (rw same refl)

  abbrev accepted_with : Option ApiError → List Request
  accepted_with none = update_deployment_status (record d { status = status }) ∷ s.accepted
  accepted_with (some a) = s.accepted

  written :
      (answer : Option ApiError)
      → calculate_status all new_ms d ≡ ok status
      → status_eq d.status status ≡ false
      → next_answer s.answers ≡ answer
      → sync_deployment_status all new_ms d s ≡ record {
        deployment = record d { status = status };
        server = record { answers = later_answers s.answers; accepted = accepted_with answer };
        error = api_error answer;
      }
  unfolding sync_deployment_status send
  written none e other answer = ground arith
  written (some a) e other answer = ground arith

status_eq_itself : (a b : MachineDeploymentStatus) → status_eq a b ≡ false → a ≢ b
unfolding status_eq
status_eq_itself a b other e = ground (
  arith,
  e,
  other,
  eq_ℤ_iff b.observed_generation b.observed_generation,
  eq_ℤ_iff b.replicas b.replicas,
  eq_ℤ_iff b.updated_replicas b.updated_replicas,
  eq_ℤ_iff b.ready_replicas b.ready_replicas,
  eq_ℤ_iff b.available_replicas b.available_replicas,
  eq_ℤ_iff b.unavailable_replicas b.unavailable_replicas,
)

-- Where the status can be computed, the deployment has it afterwards, whatever the server answers.
-- If it had it before, nothing is sent and no error is returned. If it had another one, the server
-- is asked once: it accepts the deployment as it is then and no error is returned, or it refuses,
-- its error is returned, and it has accepted nothing new.
pub sync_deployment_status_lem :
    (all : List (Option MachineSet)) (new_ms : Option MachineSet) (d : MachineDeployment)
    (s : Api Request) (status : MachineDeploymentStatus)
    → calculate_status all new_ms d ≡ ok status
    → let r = sync_deployment_status all new_ms d s in
      (r.deployment ≡ record d { status = status })
      × ((d.status ≡ status) × (r.server ≡ s) × (r.error ≡ none)
          ⊎ (d.status ≢ status)
            × (r.server.answers ≡ later_answers s.answers)
            × ((next_answer s.answers ≡ none)
                  × (r.server.accepted ≡ update_deployment_status r.deployment ∷ s.accepted)
                  × (r.error ≡ none)
                ⊎ (a : ApiError) × (next_answer s.answers ≡ some a)
                  × (r.error ≡ some (api a))
                  × (r.server.accepted ≡ s.accepted)))
sync_deployment_status_lem all new_ms d s status e = elim (Bool-cases (status_eq d.status status)) [
  | inl same ↦
      let eq = status_eq-eq d.status status same in
      rw (unchanged all new_ms d s status e same) (ground arith, inl (eq, refl, refl))
  | inr other ↦
      let differs = status_eq_itself d.status status other in
      elim (Option-cases (next_answer s.answers)) [
        | inl answer ↦
            rw (written all new_ms d s status none e other answer)
              (refl, inr (differs, refl, inl (answer, refl, refl)))
        | inr (a, answer) ↦
            rw (written all new_ms d s status (some a) e other answer)
              (refl, inr (differs, refl, inr (a, answer, refl, refl)))
      ]
]
