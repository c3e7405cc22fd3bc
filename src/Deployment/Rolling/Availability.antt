-- ===== src/Deployment/Rolling/Availability.antt =====
-- The minimum of available machines through one scale-down of the old machine sets:
-- pkg/controller/machinedeployment/rolling.go.
use machine_controller_k0s.Prelude.{
  ℕ, ◌+◌, ◌-◌, ◌≤◌, ◌<◌, ◌≡◌, refl, ap, ◌∙◌, List, [], ◌∷◌, ◌++◌, Option, none, some, arith, All,
  All-append, sum_of, sum_of-append, leb, ◌==◌, if◌then◌else◌,
}
use machine_controller_k0s.Prelude.Int.{ℤ, pos, negsuc, leb_ℤ, sub32, sub32_pos}
use machine_controller_k0s.Api.{Result, ok}
use machine_controller_k0s.Objects.{MachineSet}
use machine_controller_k0s.Externals.{Externals}
use machine_controller_k0s.Deployment.Counts.{
  size, available, IsSized, HasAvailable, pointers, get_replica_count_for_machine_sets,
  get_available_replica_count_for_machine_sets, replica_count-pointers, available_count-pointers,
}
use machine_controller_k0s.Deployment.Fenceposts.{max_unavailable}
use machine_controller_k0s.Deployment.Find.{pointers_and}
use machine_controller_k0s.Deployment.Scaling.{annotation_targets}
use machine_controller_k0s.Deployment.Rolling.{Rollout, max_scaled_down}
use machine_controller_k0s.Deployment.Rolling.Sweep.{Kept, Pairwise}
use machine_controller_k0s.Deployment.Rolling.Safety.{healthy}

pointers_and-some :
    (mss : List MachineSet) (ms : MachineSet)
    → pointers_and mss (some ms) ≡ pointers (mss ++ ms ∷ [])
pointers_and-some [] ms = refl
pointers_and-some (m ∷ rest) ms = ap (◌∷◌ (some m)) (pointers_and-some rest ms)

pub replica_count-pointers_and :
    (mss : List MachineSet) (ms : MachineSet)
    → All IsSized mss
    → IsSized ms
    → sum_of size mss + size ms < 2147483648
    → get_replica_count_for_machine_sets (pointers_and mss (some ms))
      ≡ ok (pos (sum_of size mss + size ms))
replica_count-pointers_and mss ms h k fits =
    let total : sum_of size (mss ++ ms ∷ []) ≡ sum_of size mss + size ms =
      omega (arith, sum_of-append size mss (ms ∷ [])) in
    rw (pointers_and-some mss ms) (
      replica_count-pointers (mss ++ ms ∷ []) (All-append IsSized mss (ms ∷ []) h (k, tt))
        (omega arith)
      ∙ ap (λ (t : ℕ). ok (pos t)) total)

pub available_count-pointers_and :
    (mss : List MachineSet) (ms : MachineSet)
    → All HasAvailable mss
    → HasAvailable ms
    → sum_of available mss + available ms < 2147483648
    → get_available_replica_count_for_machine_sets (pointers_and mss (some ms))
      ≡ pos (sum_of available mss + available ms)
available_count-pointers_and mss ms h k fits =
    let total : sum_of available (mss ++ ms ∷ []) ≡ sum_of available mss + available ms =
      omega (arith, sum_of-append available mss (ms ∷ [])) in
    rw (pointers_and-some mss ms) (
      available_count-pointers (mss ++ ms ∷ []) (All-append HasAvailable mss (ms ∷ []) h (k, tt))
        (omega arith)
      ∙ ap (λ (t : ℕ). pos t) total)

module _ (floor : MachineSet → ℕ) where
  pub Kept-IsSized :
      (mss after : List MachineSet) → Pairwise (Kept floor) mss after → All IsSized after
  Kept-IsSized [] [] h = tt
  Kept-IsSized [] (b ∷ bs) h = absurd h
  Kept-IsSized (a ∷ rest) [] h = absurd h
  Kept-IsSized (a ∷ rest) (b ∷ bs) h = (h.0.sized, Kept-IsSized rest bs h.1)

  pub Kept-HasAvailable :
      (mss after : List MachineSet)
      → Pairwise (Kept floor) mss after
      → All HasAvailable mss
      → All HasAvailable after
  Kept-HasAvailable [] [] h k = tt
  Kept-HasAvailable [] (b ∷ bs) h k = absurd h
  Kept-HasAvailable (a ∷ rest) [] h k = absurd h
  Kept-HasAvailable (a ∷ rest) (b ∷ bs) h k =
      (rw (h.0.status_kept) k.0, Kept-HasAvailable rest bs h.1 k.1)

  pub Kept-available :
      (mss after : List MachineSet)
      → Pairwise (Kept floor) mss after
      → sum_of available after ≡ sum_of available mss
  Kept-available [] [] h = refl
  Kept-available [] (b ∷ bs) h = absurd h
  Kept-available (a ∷ rest) [] h = absurd h
  Kept-available (a ∷ rest) (b ∷ bs) h = ground (arith, h.0.status_kept, Kept-available rest bs h.1)

  pub Kept-floor :
      (mss after : List MachineSet)
      → Pairwise (Kept floor) mss after
      → sum_of floor mss ≤ sum_of size after
  Kept-floor [] [] h = omega arith
  Kept-floor [] (b ∷ bs) h = absurd h
  Kept-floor (a ∷ rest) [] h = absurd h
  Kept-floor (a ∷ rest) (b ∷ bs) h = omega (arith, h.0.not_below, Kept-floor rest bs h.1)

-- No set has more available machines than it asks for.
abbrev pub IsSettled : MachineSet → Type 0
IsSettled ms = available ms ≤ size ms

pub healthy-available :
    (mss : List MachineSet) → All IsSettled mss → sum_of healthy mss ≡ sum_of available mss
healthy-available [] h = refl
healthy-available (ms ∷ rest) h = ground (arith, healthy-available rest h.1)

pub available-le-size :
    (mss : List MachineSet) → All IsSettled mss → sum_of available mss ≤ sum_of size mss
available-le-size [] h = omega arith
available-le-size (ms ∷ rest) h = omega (arith, available-le-size rest h.1)

-- A rollout whose counts are `int32`s that are not negative: `r` machines are asked for, and `u` of
-- them may be unavailable. No set reports more available machines than it asks for, as one may
-- whose status lags behind its size.
pub record IsCounted (x : Externals) (r u : ℕ) (targets : ℤ × ℤ) (p : Rollout) : Type 0 where
  pub replicas_are : p.deployment.spec_replicas ≡ some (pos r)
  pub unavailable_are : max_unavailable x p.deployment ≡ ok (pos u)
  pub targets_are : annotation_targets x p.deployment ≡ ok targets
  pub unavailable_le : u ≤ r
  pub replicas_fit : r < 2147483648
  pub new_sized : IsSized p.new_ms
  pub new_available : HasAvailable p.new_ms
  pub new_settled : IsSettled p.new_ms
  pub old_sized : All IsSized p.old_mss
  pub old_available : All HasAvailable p.old_mss
  pub old_settled : All IsSettled p.old_mss
  pub total_fits : sum_of size p.old_mss + size p.new_ms < 2147483648

sub32_below : (a b : ℕ) → a + b < 2147483648 → sub32 (negsuc a) (pos b) ≡ negsuc (a + b)
unfolding sub32
sub32_below a b h = ground arith

abbrev none_or : ℤ → Result (Option ℤ)
none_or b = if leb_ℤ b (pos 0) then ok none else ok (some b)

budget_tail :
    (old n a m : ℕ)
    → a ≤ n
    → old + n < 2147483648
    → m < 2147483648
    → none_or (sub32 (sub32 (pos (old + n)) (pos m)) (sub32 (pos n) (pos a)))
      ≡ ok (if leb (old + a) m then none else some (pos (old + a - m)))
budget_tail old n a m settled fits small = ground (
  arith,
  sub32_pos n a,
  sub32_pos (old + n) m,
  sub32_pos (old + n - m) (n - a),
  sub32_below (m - (old + n) - 1) (n - a),
)

module _ (x : Externals) (r u : ℕ) (targets : ℤ × ℤ) (p : Rollout)
    (v : IsCounted x r u targets p) where
  -- The budget of the clean-up: what the old sets and the available new machines exceed the minimum by.
  pub budget_value :
      let most = sum_of size p.old_mss + available p.new_ms in
      max_scaled_down x p
      ≡ ok (
          if sum_of size p.old_mss == 0
          then none
          else if leb most (r - u)
          then none
          else some (pos (most - (r - u))))
  unfolding max_scaled_down
  budget_value = ground (
    arith,
    v.replicas_are,
    v.unavailable_are,
    v.new_sized,
    v.new_available,
    v.new_settled,
    v.total_fits,
    v.unavailable_le,
    v.replicas_fit,
    replica_count-pointers p.old_mss v.old_sized (omega (arith, v.total_fits)),
    replica_count-pointers_and p.old_mss p.new_ms v.old_sized v.new_sized v.total_fits,
    sub32_pos r u,
    budget_tail (sum_of size p.old_mss) (size p.new_ms) (available p.new_ms) (r - u),
  )
