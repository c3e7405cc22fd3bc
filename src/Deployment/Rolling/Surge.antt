-- ===== src/Deployment/Rolling/Surge.antt =====
-- The new machine set of a rolling update: `reconcileNewMachineSet` of
-- pkg/controller/machinedeployment/rolling.go.
use machine_controller_k0s.Prelude.{
  ℕ, ◌+◌, ◌≤◌, ◌<◌, ◌≡◌, refl, ◌⊎◌, inl, inr, none, some, true, arith, sum_of,
}
use machine_controller_k0s.Prelude.Int.{ℤ, pos, eq_ℤ}
use machine_controller_k0s.Api.{ok}
use machine_controller_k0s.Objects.{RollingUpdate}
use machine_controller_k0s.Externals.{Externals}
use machine_controller_k0s.Deployment.Counts.{size}
use machine_controller_k0s.Deployment.Fenceposts.{rolling_update_of, new_ms_new_replicas}
use machine_controller_k0s.Deployment.Fenceposts.Bounds.{new_ms_new_replicas_bounds}
use machine_controller_k0s.Deployment.Scaling.Effect.{scale_machine_set-size}
use machine_controller_k0s.Deployment.Rolling.{
  Rollout, all_mss, scale_new, reconcile_new_machine_set,
}
use machine_controller_k0s.Deployment.Rolling.Availability.{IsCounted, replica_count-pointers_and}

compare_cases : (a b : ℕ) → (a < b) ⊎ (a ≡ b) ⊎ (b < a)
compare_cases a b = grind arith

eq_ℤ_same : (a b : ℕ) → a ≡ b → eq_ℤ (pos a) (pos b) ≡ true
eq_ℤ_same a b h = ground arith

module _ (x : Externals) (r u s : ℕ) (targets : ℤ × ℤ) (p : Rollout) (ru : RollingUpdate)
    (v : IsCounted x r u targets p) (er : rolling_update_of p.deployment ≡ ok ru)
    (es : x.get_value ru.max_surge (pos r) true ≡ some (pos s)) (fits : r + s < 2147483648) where
  scaled_to : (n : ℕ) → (scale_new x p (pos n)).1.new_ms.spec_replicas ≡ some (pos n)
  unfolding scale_new
  scaled_to n =
      scale_machine_set-size x p.new_ms (pos (size p.new_ms)) (pos n) p.deployment p.server targets
        v.new_sized.0 v.targets_are

  scale_new_old_mss : (n : ℤ) → (scale_new x p n).1.old_mss ≡ p.old_mss
  unfolding scale_new
  scale_new_old_mss n = refl

  large_enough : size p.new_ms ≡ r → reconcile_new_machine_set x p ≡ (none, p)
  unfolding reconcile_new_machine_set
  large_enough same =
      rw (v.replicas_are, reconcile_new_machine_set)
        (rw (v.new_sized.0, reconcile_new_machine_set)
          (rw (eq_ℤ_same (size p.new_ms) r same) (ground (arith, v.replicas_are, v.new_sized.0))))

  too_large : r < size p.new_ms → reconcile_new_machine_set x p ≡ scale_new x p (pos r)
  unfolding reconcile_new_machine_set
  too_large more = ground (arith, v.replicas_are, v.new_sized)

  too_small :
      (m : ℕ)
      → size p.new_ms < r
      → new_ms_new_replicas x p.deployment (all_mss p) p.new_ms ≡ ok (pos m)
      → reconcile_new_machine_set x p ≡ scale_new x p (pos m)
  unfolding reconcile_new_machine_set
  too_small m fewer grown =
      rw (v.replicas_are, reconcile_new_machine_set)
        (rw (v.new_sized.0, reconcile_new_machine_set)
          (rw (grown, reconcile_new_machine_set) (ground arith)))

  -- For a rollout whose counts are not negative and fit an int32, with no more unavailable machines
  -- allowed than asked for, and in which no machine set reports more available machines than it asks
  -- for, whatever the server answers: the old sets are not touched. A new set that is too large gets
  -- the size asked for; any other does not shrink, does not pass the size asked for, and where it grows
  -- the machines of all sets stay within that size and the surge, as close to it as they can.
  pub reconcile_new_machine_set_bounds :
      ((reconcile_new_machine_set x p).1.old_mss ≡ p.old_mss)
      × (m : ℕ) × ((reconcile_new_machine_set x p).1.new_ms.spec_replicas ≡ some (pos m))
      × (m ≤ r)
      × ((r < size p.new_ms) × (m ≡ r)
          ⊎ (size p.new_ms ≤ m)
            × ((m ≡ size p.new_ms) ⊎ (sum_of size p.old_mss + m ≤ r + s))
            × ((m ≡ r) ⊎ (r + s ≤ sum_of size p.old_mss + m)))
  reconcile_new_machine_set_bounds = elim (compare_cases (size p.new_ms) r) [
    | inl fewer ↦
        let (m, grown, ge, le, limited, closest) =
          new_ms_new_replicas_bounds x p.deployment (all_mss p) p.new_ms ru r (size p.new_ms) s
            (sum_of size p.old_mss + size p.new_ms) er v.replicas_are es
            (replica_count-pointers_and p.old_mss p.new_ms v.old_sized v.new_sized v.total_fits)
            v.new_sized.0 (omega arith) v.total_fits fits in
        (
          rw (too_small m fewer grown) (scale_new_old_mss (pos m)),
          m,
          rw (too_small m fewer grown) (scaled_to m),
          le,
          inr (ge, omega (arith, limited), omega (arith, closest)),
        )
    | inr (inl same) ↦ (
      rw (large_enough same) refl,
      size p.new_ms,
      rw (large_enough same) v.new_sized.0,
      omega arith,
      inr (omega arith, inl refl, inl same),
    )
    | inr (inr more) ↦ (
      rw (too_large more) (scale_new_old_mss (pos r)),
      r,
      rw (too_large more) (scaled_to r),
      omega arith,
      inl (more, refl),
    )
  ]
