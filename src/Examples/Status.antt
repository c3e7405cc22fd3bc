-- ===== src/Examples/Status.antt =====
-- Tests and instances for the status and the clean-up.
use machine_controller_k0s.Prelude.{
  some, ◌-◌, ◌≡◌, ◌≢◌, refl, ◌⊎◌, List, [], ◌∷◌, none, some, arith, sum_of, length, keep_if,
}
use machine_controller_k0s.Prelude.Int.{pos, add32, sub32, int32}
use machine_controller_k0s.Prelude.Decimal.{codes}
use machine_controller_k0s.Api.{ApiError, api, later_answers, ok, next_answer}
use machine_controller_k0s.Objects.{MachineSet, MachineDeploymentStatus}
use machine_controller_k0s.Deployment.Counts.{size, available, pointers}
use machine_controller_k0s.Deployment.Scaling.{update_deployment_status, delete_machine_set}
use machine_controller_k0s.Deployment.Status.{calculate_status, sync_deployment_status}
use machine_controller_k0s.Deployment.Status.Laws.{
  calculate_status_counts, sync_deployment_status_lem,
}
use machine_controller_k0s.Deployment.Cleanup.{is_alive, cleanup_deployment}
use machine_controller_k0s.Deployment.Cleanup.History.{Deleted, cleanup_deployment-Deleted}
use machine_controller_k0s.Examples.Base.{
  deployment, machine_set, willing, old_a, old_b, new_c, rollout,
}

calculate_status_counts_example :
    (status : MachineDeploymentStatus) × (calculate_status
        (pointers (old_a ∷ old_b ∷ []))
        (some old_b)
        rollout.deployment
      ≡ ok status)
    × (status.available_replicas ≡ pos (sum_of available (old_a ∷ old_b ∷ [])))
    × (status.unavailable_replicas
        ≡ pos (sum_of size (old_a ∷ old_b ∷ []) - sum_of available (old_a ∷ old_b ∷ [])))
    × (status.observed_generation ≡ pos 1)
calculate_status_counts_example =
    calculate_status_counts (old_a ∷ old_b ∷ []) (some old_b) rollout.deployment
      ((refl, omega arith), ((refl, omega arith), tt))
      ((refl, omega arith), ((refl, omega arith), tt)) (omega arith) (omega arith)

abbrev seen : MachineDeploymentStatus
seen = record {
  observed_generation = pos 1;
  replicas = pos 10;
  updated_replicas = pos 3;
  ready_replicas = pos 8;
  available_replicas = pos 8;
  unavailable_replicas = pos 2;
}

sync_deployment_status_lem_example :
    let r =
      sync_deployment_status
        (pointers (old_a ∷ old_b ∷ []))
        (some new_c)
        rollout.deployment
        willing in
    (r.deployment ≡ record rollout.deployment { status = seen })
    × ((rollout.deployment.status ≡ seen) × (r.server ≡ willing) × (r.error ≡ none)
        ⊎ (rollout.deployment.status ≢ seen)
          × (r.server.answers ≡ later_answers willing.answers)
          × ((next_answer willing.answers ≡ none)
                × (r.server.accepted ≡ update_deployment_status r.deployment ∷ [])
                × (r.error ≡ none)
              ⊎ (a : ApiError) × (next_answer willing.answers ≡ some a)
                × (r.error ≡ some (api a))
                × (r.server.accepted ≡ [])))
unfolding calculate_status add32 sub32 int32
sync_deployment_status_lem_example =
    sync_deployment_status_lem (pointers (old_a ∷ old_b ∷ [])) (some new_c) rollout.deployment
      willing seen refl

abbrev empty_a : MachineSet
empty_a = machine_set (codes "a") 1 0 0

abbrev empty_b : MachineSet
empty_b = machine_set (codes "b") 2 0 0

-- Two spent sets and a limit of one: the older one goes.
cleanup_deployment_test :
    (cleanup_deployment (empty_b ∷ empty_a ∷ []) (deployment 10 3 2) willing).1.accepted
    ≡ delete_machine_set empty_a ∷ []
unfolding cleanup_deployment sub32 int32
cleanup_deployment_test = refl

cleanup_deployment-Deleted_example :
    (ds : List MachineSet) × Deleted
      (length (keep_if is_alive (empty_b ∷ empty_a ∷ [])) - 1)
      willing
      (cleanup_deployment (empty_b ∷ empty_a ∷ []) (deployment 10 3 2) willing).1
      ds
cleanup_deployment-Deleted_example =
    cleanup_deployment-Deleted (empty_b ∷ empty_a ∷ []) (deployment 10 3 2) willing 1 refl
      (omega arith) (omega arith)
