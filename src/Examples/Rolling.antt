-- ===== src/Examples/Rolling.antt =====
-- Tests and instances for the rolling update.
use machine_controller_k0s.Prelude.{
  ℕ, ◌+◌, ◌-◌, ◌≤◌, ◌<◌, ◌≡◌, refl, ◌⊎◌, [], ◌∷◌, some, arith, sum_of, sort, map,
}
use machine_controller_k0s.Prelude.Int.{pos, int32, add32, sub32}
use machine_controller_k0s.Objects.{RollingUpdate, int_val}
use machine_controller_k0s.Deployment.Counts.{size, get_available_replica_count_for_machine_sets}
use machine_controller_k0s.Deployment.Find.{older}
use machine_controller_k0s.Deployment.Fenceposts.{max_unavailable, rolling_update_of}
use machine_controller_k0s.Deployment.Scaling.{annotation_targets, scale_machine_set}
use machine_controller_k0s.Deployment.Rolling.{
  all_mss, reconcile_old_machine_sets, reconcile_new_machine_set, cleanup_unhealthy_replicas,
  scale_down_old_machine_sets,
}
use machine_controller_k0s.Deployment.Rolling.Sweep.{Guarantee}
use machine_controller_k0s.Deployment.Rolling.Safety.{healthy, cleanup_unhealthy_replicas-Guarantee}
use machine_controller_k0s.Deployment.Rolling.Availability.{IsCounted}
use machine_controller_k0s.Deployment.Rolling.Minimum.{
  KeepsMinimum, scale_down_old_machine_sets_limited, reconcile_old_machine_sets-KeepsMinimum,
}
use machine_controller_k0s.Deployment.Rolling.Surge.{reconcile_new_machine_set_bounds}
use machine_controller_k0s.Examples.Base.{simple, willing, old_a, old_b, new_c, rollout}

rollout-IsCounted : IsCounted simple 10 2 (pos 10, pos 13) rollout
unfolding max_unavailable annotation_targets add32 int32
rollout-IsCounted = record {
  replicas_are = refl;
  unavailable_are = refl;
  targets_are = refl;
  unavailable_le = omega arith;
  replicas_fit = omega arith;
  new_sized = (refl, omega arith);
  new_available = (refl, omega arith);
  new_settled = omega arith;
  old_sized = ((refl, omega arith), ((refl, omega arith), tt));
  old_available = ((refl, omega arith), ((refl, omega arith), tt));
  old_settled = omega arith;
  total_fits = omega arith;
}

-- The two unhealthy machines of the first set go, and of the ten available ones the two that are
-- more than the minimum.
sizes_after : map size (reconcile_old_machine_sets simple rollout).1.old_mss ≡ 2 ∷ 4 ∷ []
unfolding reconcile_old_machine_sets add32 sub32 int32 scale_machine_set
sizes_after = refl

reconcile_old_machine_sets-KeepsMinimum_example :
    let q = (reconcile_old_machine_sets simple rollout).1 in
    (q.new_ms ≡ new_c) × KeepsMinimum 2 (10 - 2) (old_a ∷ old_b ∷ []) q.old_mss
reconcile_old_machine_sets-KeepsMinimum_example =
    reconcile_old_machine_sets-KeepsMinimum simple 10 2 (pos 10, pos 13) rollout rollout-IsCounted

cleanup_unhealthy_replicas-Guarantee_example :
    Guarantee 5 0 healthy
      (sort older (old_a ∷ old_b ∷ []))
      (cleanup_unhealthy_replicas simple (old_a ∷ old_b ∷ []) rollout.deployment (pos 5) willing)
cleanup_unhealthy_replicas-Guarantee_example =
    cleanup_unhealthy_replicas-Guarantee simple 5 (omega arith) rollout.deployment (pos 10, pos 13)
      (old_a ∷ old_b ∷ []) willing rollout-IsCounted.targets_are rollout-IsCounted.old_sized
      rollout-IsCounted.old_available

available_of_rollout : get_available_replica_count_for_machine_sets (all_mss rollout) ≡ pos 10
unfolding get_available_replica_count_for_machine_sets add32
available_of_rollout = refl

scale_down_old_machine_sets_limited_example :
    let v =
      scale_down_old_machine_sets simple
        (all_mss rollout)
        (old_a ∷ old_b ∷ [])
        rollout.deployment
        willing in
    (sum_of size (old_a ∷ old_b ∷ []) ≤ sum_of size v.sets + (10 - (10 - 2)))
    × (sum_of size v.sets ≤ sum_of size (old_a ∷ old_b ∷ []))
scale_down_old_machine_sets_limited_example =
    scale_down_old_machine_sets_limited simple rollout.deployment (pos 10, pos 13) (all_mss rollout)
      (old_a ∷ old_b ∷ []) willing 10 2 10 refl rollout-IsCounted.unavailable_are
      rollout-IsCounted.targets_are available_of_rollout (omega arith) (omega arith) (omega arith)
      rollout-IsCounted.old_sized rollout-IsCounted.old_available

update_of_rollout : RollingUpdate
update_of_rollout = record {
  max_unavailable = some (int_val (pos 2));
  max_surge = some (int_val (pos 3));
}

-- Thirteen machines are all that ten with a surge of three may be: the new set does not grow.
reconcile_new_machine_set_bounds_example :
    ((reconcile_new_machine_set simple rollout).1.old_mss ≡ old_a ∷ old_b ∷ [])
    × (m : ℕ) × ((reconcile_new_machine_set simple rollout).1.new_ms.spec_replicas ≡ some (pos m))
    × (m ≤ 10)
    × ((10 < size new_c) × (m ≡ 10)
        ⊎ (size new_c ≤ m)
          × ((m ≡ size new_c) ⊎ (sum_of size (old_a ∷ old_b ∷ []) + m ≤ 10 + 3))
          × ((m ≡ 10) ⊎ (10 + 3 ≤ sum_of size (old_a ∷ old_b ∷ []) + m)))
unfolding rolling_update_of update_of_rollout
reconcile_new_machine_set_bounds_example =
    reconcile_new_machine_set_bounds simple 10 2 3 (pos 10, pos 13) rollout update_of_rollout
      rollout-IsCounted refl refl (omega arith)
