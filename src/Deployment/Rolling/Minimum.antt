-- ===== src/Deployment/Rolling/Minimum.antt =====
-- One reconciliation of the old machine sets keeps the minimum of available machines:
-- pkg/controller/machinedeployment/rolling.go.
use machine_controller_k0s.Prelude.{
  ℕ, ◌+◌, ◌-◌, ◌≤◌, ◌<◌, ◌≡◌, refl, ◌∙◌, ◌⊎◌, inl, inr, List, Option, none, some, arith, All,
  All-sort, sum_of, sort, sum_of-sort, leb, ◌==◌, if◌then◌else◌, Bool-cases, Option-cases,
}
use machine_controller_k0s.Prelude.Int.{ℤ, pos, sub32_pos}
use machine_controller_k0s.Api.{ok, Api}
use machine_controller_k0s.Objects.{MachineSet, MachineDeployment}
use machine_controller_k0s.Externals.{Externals}
use machine_controller_k0s.Deployment.Counts.{
  size, available, IsSized, HasAvailable, get_available_replica_count_for_machine_sets,
}
use machine_controller_k0s.Deployment.Fenceposts.{max_unavailable}
use machine_controller_k0s.Deployment.Find.{older}
use machine_controller_k0s.Deployment.Scaling.{Request, annotation_targets}
use machine_controller_k0s.Deployment.Rolling.{
  Swept, sweep, scale_down_visit, cleanup_unhealthy_replicas, scale_down_old_machine_sets, Rollout,
  all_mss, reconcile_old_machine_sets,
}
use machine_controller_k0s.Deployment.Rolling.Safety.{
  healthy, cleanup_unhealthy_replicas-Guarantee, scale_down-Guarantee,
}
use machine_controller_k0s.Deployment.Rolling.Availability.{
  IsSettled, IsCounted, budget_value, available_count-pointers_and, Kept-IsSized, Kept-HasAvailable,
  Kept-available, Kept-floor, healthy-available, available-le-size,
}

module _ (x : Externals) (d : MachineDeployment) (targets : ℤ × ℤ) (all : List (Option MachineSet))
    (mss : List MachineSet) (s : Api Request) (r u t : ℕ) (er : d.spec_replicas ≡ some (pos r))
    (eu : max_unavailable x d ≡ ok (pos u)) (et : annotation_targets x d ≡ ok targets)
    (ec : get_available_replica_count_for_machine_sets all ≡ pos t) (le : u ≤ r)
    (fits : r < 2147483648) (small : t < 2147483648) where
  scale_down_value : scale_down_old_machine_sets x all mss d s ≡ (
      if leb t (r - u)
      then record { sets = mss; total = pos 0; server = s; error = none }
      else sweep x (scale_down_visit x (pos (t - (r - u)))) d (pos 0) (sort older mss) s)
  unfolding scale_down_old_machine_sets
  scale_down_value = ground (arith, sub32_pos r u, sub32_pos t (r - u))

  -- With `t` machines available of which `r - u` have to stay, the old machine sets lose at most the
  -- difference, also where a write is refused, and they do not grow.
  pub scale_down_old_machine_sets_limited :
      All IsSized mss
      → All HasAvailable mss
      → let v = scale_down_old_machine_sets x all mss d s in
        (sum_of size mss ≤ sum_of size v.sets + (t - (r - u)))
        × (sum_of size v.sets ≤ sum_of size mss)
  scale_down_old_machine_sets_limited sized have = elim (Bool-cases (leb t (r - u))) [
    | inl low ↦ rw scale_down_value (rw low (omega arith))
    | inr high ↦
        let g =
          scale_down-Guarantee x (t - (r - u)) (omega arith) d targets (sort older mss) s et
            (All-sort older IsSized mss sized) (All-sort older HasAvailable mss have) in
        rw scale_down_value
          (rw high (omega (arith, g.limited, g.counted, sum_of-sort older size mss)))
  ]

-- The old machine sets `mss` after the clean-up of `before`: `a` new machines are available, and
-- `m` machines have to be.
record IsCleaned (a m : ℕ) (before mss : List MachineSet) : Type 0 where
  sized : All IsSized mss
  have : All HasAvailable mss
  not_larger : sum_of size mss ≤ sum_of size before
  enough : m ≤ sum_of size mss + a
  same_available : sum_of available mss ≡ sum_of available before
  healthy_left : sum_of available before ≤ sum_of size mss

-- What a step from `before` to `after` keeps.
abbrev pub KeepsMinimum : ℕ → ℕ → List MachineSet → List MachineSet → Type 0
KeepsMinimum a m before after =
    (sum_of size after ≤ sum_of size before)
    × ((sum_of size after ≡ sum_of size before) ⊎ (m ≤ sum_of size after + a))

module _ (x : Externals) (r u : ℕ) (targets : ℤ × ℤ) (p : Rollout)
    (v : IsCounted x r u targets p) where
  abbrev spare : ℕ
  spare = sum_of size p.old_mss + available p.new_ms - (r - u)

  abbrev cleaned : Swept
  cleaned = cleanup_unhealthy_replicas x p.old_mss p.deployment (pos spare) p.server

  old_mss-IsCleaned :
      r - u < sum_of size p.old_mss + available p.new_ms
      → IsCleaned (available p.new_ms) (r - u) p.old_mss cleaned.sets
  old_mss-IsCleaned above =
      let g =
        cleanup_unhealthy_replicas-Guarantee x spare (omega (arith, v.total_fits, v.new_settled))
          p.deployment targets p.old_mss p.server v.targets_are v.old_sized v.old_available in
      let same : sum_of size (sort older p.old_mss) ≡ sum_of size p.old_mss =
        sum_of-sort older size p.old_mss in
      let same_available : sum_of available (sort older p.old_mss) ≡ sum_of available p.old_mss =
        sum_of-sort older available p.old_mss in
      let settled = All-sort older IsSettled p.old_mss v.old_settled in
      record {
        sized = Kept-IsSized healthy (sort older p.old_mss) cleaned.sets g.each;
        have =
            Kept-HasAvailable healthy (sort older p.old_mss) cleaned.sets g.each
              (All-sort older HasAvailable p.old_mss v.old_available);
        not_larger = omega (arith, g.counted, same);
        enough = omega (arith, g.limited, same, above);
        same_available =
            Kept-available healthy (sort older p.old_mss) cleaned.sets g.each ∙ same_available;
        healthy_left = omega (
          arith,
          Kept-floor healthy (sort older p.old_mss) cleaned.sets g.each,
          healthy-available (sort older p.old_mss) settled,
          same_available,
        );
      }

  abbrev after_cleanup : Rollout
  after_cleanup = record p { old_mss = cleaned.sets; server = cleaned.server }

  abbrev second : Swept
  second =
      scale_down_old_machine_sets x (all_mss after_cleanup) cleaned.sets p.deployment cleaned.server

  old_mss-KeepsMinimum :
      IsCleaned (available p.new_ms) (r - u) p.old_mss cleaned.sets
      → KeepsMinimum (available p.new_ms) (r - u) p.old_mss second.sets
  old_mss-KeepsMinimum c =
      let total = sum_of available cleaned.sets + available p.new_ms in
      let small : total < 2147483648 = omega (
        arith,
        c.same_available,
        available-le-size p.old_mss v.old_settled,
        v.new_settled,
        v.total_fits,
      ) in
      let bound =
        scale_down_old_machine_sets_limited x p.deployment targets (all_mss after_cleanup)
          cleaned.sets cleaned.server r u total v.replicas_are v.unavailable_are v.targets_are
          (available_count-pointers_and cleaned.sets p.new_ms c.have v.new_available small)
          v.unavailable_le v.replicas_fit small c.sized c.have in
      (
        omega (arith, bound.1, c.not_larger),
        inr (omega (arith, bound.0, c.enough, c.same_available, c.healthy_left)),
      )

  -- For a rollout whose counts are not negative and fit an int32, with no more unavailable machines
  -- allowed than asked for, and in which no machine set, new or old, reports more available machines
  -- than it asks for: one reconciliation of the old sets does not touch the new set and does not make the old ones
  -- larger in all. Either their sizes add up to what they did, or with the new machines that are
  -- available they still add up to the replicas less the machines that may be unavailable. This
  -- holds whatever the server answers.
  pub reconcile_old_machine_sets-KeepsMinimum :
      let q = (reconcile_old_machine_sets x p).1 in
      (q.new_ms ≡ p.new_ms) × KeepsMinimum (available p.new_ms) (r - u) p.old_mss q.old_mss
  unfolding reconcile_old_machine_sets
  reconcile_old_machine_sets-KeepsMinimum = elim (Bool-cases (sum_of size p.old_mss == 0)) [
    | inl empty ↦
        rw (budget_value x r u targets p v, reconcile_old_machine_sets)
          (rw (empty, reconcile_old_machine_sets) (refl, (omega arith, inl refl)))
    | inr some_old ↦ elim (Bool-cases (leb (sum_of size p.old_mss + available p.new_ms) (r - u))) [
      | inl low ↦
          rw (budget_value x r u targets p v, reconcile_old_machine_sets)
            (rw (some_old, low, reconcile_old_machine_sets) (refl, (omega arith, inl refl)))
      | inr high ↦
          let c = old_mss-IsCleaned (ground arith) in
          rw (budget_value x r u targets p v, reconcile_old_machine_sets)
            (rw (some_old, high, reconcile_old_machine_sets)
              (elim (Option-cases cleaned.error) [
                | inl none_yet ↦
                    rw (none_yet, reconcile_old_machine_sets) (refl, old_mss-KeepsMinimum c)
                | inr (e, failed) ↦
                    rw (failed, reconcile_old_machine_sets) (refl, (c.not_larger, inr c.enough))
              ]))
    ]
  ]
