-- ===== src/Deployment/Status.antt =====
-- The status of a deployment: pkg/controller/machinedeployment/sync.go.
pub mod Laws
use machine_controller_k0s.Prelude.{List, [], ◌∷◌, Option, none, some, Bool, ◌&&◌, if◌then◌else◌}
use machine_controller_k0s.Prelude.Int.{pos, ltb_ℤ, eq_ℤ, sub32}
use machine_controller_k0s.Api.{Error, Result, ok, err, api, Api, ApiError, send, ◌>>=◌}
use machine_controller_k0s.Objects.{MachineSet, MachineDeployment, MachineDeploymentStatus}
use machine_controller_k0s.Deployment.Counts.{
  get_replica_count_for_machine_sets, get_actual_replica_count_for_machine_sets,
  get_ready_replica_count_for_machine_sets, get_available_replica_count_for_machine_sets,
}
use machine_controller_k0s.Deployment.Scaling.{Request, update_deployment_status}

unfoldable pub calculate_status :
    List (Option MachineSet)
    → Option MachineSet
    → MachineDeployment
    → Result MachineDeploymentStatus
unfolding get_replica_count_for_machine_sets get_actual_replica_count_for_machine_sets
    get_ready_replica_count_for_machine_sets get_available_replica_count_for_machine_sets
calculate_status all_mss new_ms d = do
  let available = get_available_replica_count_for_machine_sets all_mss
  total ← get_replica_count_for_machine_sets all_mss
  let unavailable = sub32 total available
  ok (record {
    observed_generation = d.generation;
    replicas = get_actual_replica_count_for_machine_sets all_mss;
    updated_replicas = get_actual_replica_count_for_machine_sets (new_ms ∷ []);
    ready_replicas = get_ready_replica_count_for_machine_sets all_mss;
    available_replicas = available;
    unavailable_replicas = if ltb_ℤ unavailable (pos 0) then pos 0 else unavailable;
  })

-- `reflect.DeepEqual` on two statuses.
unfoldable pub status_eq : MachineDeploymentStatus → MachineDeploymentStatus → Bool
status_eq a b =
    eq_ℤ a.observed_generation b.observed_generation
    && (eq_ℤ a.replicas b.replicas
        && (eq_ℤ a.updated_replicas b.updated_replicas
            && (eq_ℤ a.ready_replicas b.ready_replicas
                && (eq_ℤ a.available_replicas b.available_replicas
                    && eq_ℤ a.unavailable_replicas b.unavailable_replicas))))

pub record Synced : Type 0 where
  pub deployment : MachineDeployment
  pub server : Api Request
  pub error : Option Error

abbrev pub api_error : Option ApiError → Option Error
api_error none = none
api_error (some e) = some (api e)

unfoldable pub sync_deployment_status :
    List (Option MachineSet) → Option MachineSet → MachineDeployment → Api Request → Synced
unfolding calculate_status status_eq send
sync_deployment_status all_mss new_ms d s = elim (calculate_status all_mss new_ms d) [
  | err e ↦ record { deployment = d; server = s; error = some e }
  | ok status ↦
      if status_eq d.status status
      then record { deployment = d; server = s; error = none }
      else let d' = record d { status = status } in
        let (e, s') = send (update_deployment_status d') s in
        record { deployment = d'; server = s'; error = api_error e }
]
