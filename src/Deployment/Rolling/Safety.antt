-- ===== src/Deployment/Rolling/Safety.antt =====
-- A rolling update never takes more machines away than it may:
-- pkg/controller/machinedeployment/rolling.go.
use machine_controller_k0s.Prelude.{
  ℕ, ◌+◌, ◌-◌, ◌≤◌, ◌<◌, ◌≡◌, ◌⊎◌, inl, inr, List, true, false, arith, All, sort, All-sort, leb,
  ◌==◌, if◌then◌else◌,
}
use machine_controller_k0s.Prelude.Int.{ℤ, pos, negsuc, sub32, sub32_pos}
use machine_controller_k0s.Api.{invalid_scale, ok, Api}
use machine_controller_k0s.Objects.{MachineSet, MachineDeployment}
use machine_controller_k0s.Externals.{Externals}
use machine_controller_k0s.Deployment.Counts.{size, available, IsSized, HasAvailable}
use machine_controller_k0s.Deployment.Find.{older}
use machine_controller_k0s.Deployment.Scaling.{Request, annotation_targets}
use machine_controller_k0s.Deployment.Rolling.{
  stop, skip, fail, scale_to, sweep, cleanup_visit, scale_down_visit, cleanup_unhealthy_replicas,
}
use machine_controller_k0s.Deployment.Rolling.Sweep.{IsWithin, Guarantee, sweep-Guarantee}

-- The machines of a set that stay when the unhealthy ones go.
abbrev pub healthy : MachineSet → ℕ
healthy ms = elim (leb (available ms) (size ms)) [ true ↦ available ms | false ↦ size ms ]

abbrev nothing : MachineSet → ℕ
nothing ms = 0

healthy_le : (ms : MachineSet) → healthy ms ≤ size ms
healthy_le ms = ground arith

le_or_lt : (a b : ℕ) → (a ≤ b) ⊎ (b < a)
le_or_lt a b = grind arith

sub32_of_negsuc : (a b : ℕ) → a + b + 1 < 2147483648 → sub32 (pos a) (negsuc b) ≡ pos (a + b + 1)
unfolding sub32
sub32_of_negsuc a b h = ground arith

abbrev smaller : ℕ → ℕ → ℕ
smaller a b = elim (leb a b) [ true ↦ a | false ↦ b ]

module _ (x : Externals) (limit : ℕ) (small : limit < 2147483648) where
  scale_down_visit_value :
      (t : ℕ) (ms : MachineSet)
      → t ≤ limit
      → IsSized ms
      → let k = smaller (size ms) (limit - t) in
        scale_down_visit x (pos limit) (pos t) ms ≡ (
          if leb limit t
          then stop
          else if size ms == 0
          then skip
          else scale_to (pos (size ms - k)) (pos k))
  unfolding scale_down_visit
  scale_down_visit_value t ms le sized = ground (
    arith,
    sub32_pos limit t,
    x.int32_min_lem (pos (size ms)) (pos (limit - t)),
    sub32_pos (size ms) (size ms),
    sub32_pos (size ms) (limit - t),
  )

  -- The body of the loop that scales down stays within the limit.
  scale_down_visit-IsWithin : IsWithin limit nothing (scale_down_visit x (pos limit))
  scale_down_visit-IsWithin = record {
    splits = λ t ms n c le sized have ev. (
      size ms - smaller (size ms) (limit - t),
      smaller (size ms) (limit - t),
      ground (arith, scale_down_visit_value t ms),
      ground (arith, scale_down_visit_value t ms),
      ground arith,
      ground arith,
      omega arith,
    );
  }

  cleanup_visit_value :
      (t : ℕ) (ms : MachineSet)
      → t ≤ limit
      → IsSized ms
      → HasAvailable ms
      → available ms ≤ size ms
      → let k = smaller (limit - t) (size ms - available ms) in
        cleanup_visit x (pos limit) (pos t) ms ≡ (
          if leb limit t
          then stop
          else if size ms == 0
          then skip
          else if size ms == available ms
          then skip
          else scale_to (pos (size ms - k)) (pos k))
  unfolding cleanup_visit
  cleanup_visit_value t ms le sized have ale = ground (
    arith,
    sub32_pos limit t,
    sub32_pos (size ms) (available ms),
    x.int32_min_lem (pos (limit - t)) (pos (size ms - available ms)),
    sub32_pos (size ms) (size ms - available ms),
    sub32_pos (size ms) (limit - t),
  )

  -- More machines are available than the set asks for: the error that the caller drops.
  cleanup_visit_over :
      (t : ℕ) (ms : MachineSet)
      → t ≤ limit
      → IsSized ms
      → HasAvailable ms
      → size ms < available ms
      → cleanup_visit x (pos limit) (pos t) ms
        ≡ (if leb limit t then stop else if size ms == 0 then skip else fail invalid_scale)
  unfolding cleanup_visit
  cleanup_visit_over t ms le sized have over = ground (
    arith,
    sub32_pos limit t,
    sub32_pos (size ms) (available ms),
    x.int32_min_lem (pos (limit - t)) (negsuc (available ms - size ms - 1)),
    sub32_of_negsuc (size ms) (available ms - size ms - 1),
  )

  -- The body of the clean-up loop stays within the limit and leaves the available machines.
  cleanup_visit-IsWithin : IsWithin limit healthy (cleanup_visit x (pos limit))
  cleanup_visit-IsWithin = record {
    splits = λ t ms n c le sized have ev. elim (le_or_lt (available ms) (size ms)) [
      | inl ale ↦ (
        size ms - smaller (limit - t) (size ms - available ms),
        smaller (limit - t) (size ms - available ms),
        ground (arith, cleanup_visit_value t ms),
        ground (arith, cleanup_visit_value t ms),
        ground arith,
        ground arith,
        ground arith,
      )
      | inr over ↦ absurd (ground (arith, cleanup_visit_over t ms))
    ];
  }

  -- The clean-up of unhealthy machines with the budget `limit`, whatever the server answers: the old
  -- sets lose `limit` machines at most, each keeps its available machines and its status and does not
  -- grow, and the count that comes back is at most what the sets lost, and exactly that without an error.
  pub cleanup_unhealthy_replicas-Guarantee :
      (d : MachineDeployment) (targets : ℤ × ℤ) (old_mss : List MachineSet) (s : Api Request)
      → annotation_targets x d ≡ ok targets
      → All IsSized old_mss
      → All HasAvailable old_mss
      → Guarantee limit 0 healthy
          (sort older old_mss)
          (cleanup_unhealthy_replicas x old_mss d (pos limit) s)
  unfolding cleanup_unhealthy_replicas
  cleanup_unhealthy_replicas-Guarantee d targets old_mss s et sized have =
      sweep-Guarantee x d targets et limit small healthy healthy_le (cleanup_visit x (pos limit))
        cleanup_visit-IsWithin 0 (sort older old_mss) s (All-sort older IsSized old_mss sized)
        (All-sort older HasAvailable old_mss have) (omega arith)

  pub scale_down-Guarantee :
      (d : MachineDeployment) (targets : ℤ × ℤ) (mss : List MachineSet) (s : Api Request)
      → annotation_targets x d ≡ ok targets
      → All IsSized mss
      → All HasAvailable mss
      → Guarantee limit 0 nothing mss (sweep x (scale_down_visit x (pos limit)) d (pos 0) mss s)
  scale_down-Guarantee d targets mss s et sized have =
      sweep-Guarantee x d targets et limit small nothing (λ ms. omega arith)
        (scale_down_visit x (pos limit)) scale_down_visit-IsWithin 0 mss s sized have (omega arith)
