-- ===== src/Deployment/Fenceposts/Bounds.antt =====
-- Bounds on the numbers of pkg/controller/machinedeployment/util/util.go: fenceposts, the size of
-- the new machine set, proportions.
use machine_controller_k0s.Prelude.{
  ℕ, ◌+◌, ◌-◌, ◌≤◌, ◌<◌, ◌≡◌, refl, ◌⊎◌, inl, inr, List, Option, some, true, false, ◌&&◌, arith,
  ltb, leb, if◌then◌else◌, Bool-cases,
}
use machine_controller_k0s.Prelude.Int.{
  ℤ, pos, ◌≤ℤ◌, eq_ℤ, int32, Fits, int32_of_Fits, add32_pos, sub32_pos,
}
use machine_controller_k0s.Api.{ok}
use machine_controller_k0s.Objects.{IntOrString, RollingUpdate, MachineSet, MachineDeployment}
use machine_controller_k0s.Externals.{Externals}
use machine_controller_k0s.Deployment.Counts.{get_replica_count_for_machine_sets}
use machine_controller_k0s.Deployment.Fenceposts.{
  rolling_update_of, resolve_fenceposts, max_unavailable, new_ms_new_replicas,
}

module _ (x : Externals) where
  -- Where both percentages have values that are `int32`s, the fenceposts are these values, but for
  -- an unavailable count of 1 in place of two zeros: never are both zero.
  pub resolve_fenceposts_not_zero :
      (surge unavailable : Option IntOrString) (desired a b : ℤ)
      → Fits a
      → Fits b
      → x.get_value surge desired true ≡ some a
      → x.get_value unavailable desired false ≡ some b
      → (u : ℤ) × (resolve_fenceposts x surge unavailable desired ≡ some (a, u))
        × ((a ≡ pos 0) × (u ≡ pos 1) ⊎ (u ≡ b) × ((a ≡ pos 0) × (b ≡ pos 0) → ⊥))
  unfolding resolve_fenceposts int32
  resolve_fenceposts_not_zero surge unavailable desired a b fa fb ea eb =
      elim (Bool-cases (eq_ℤ a (pos 0) && eq_ℤ b (pos 0))) [
        | inl zeros ↦ (pos 1, ground (arith, int32_of_Fits a fa), ground arith)
        | inr some_left ↦
            (b, ground (arith, int32_of_Fits a fa, int32_of_Fits b fb), inr (refl, ground arith))
      ]

  -- A rollout may miss at most all of the machines that are asked for.
  pub max_unavailable-le-replicas :
      (d : MachineDeployment) (r : ℕ) (u : ℤ)
      → d.spec_replicas ≡ some (pos r)
      → max_unavailable x d ≡ ok u
      → u ≤ℤ pos r
  unfolding max_unavailable
  max_unavailable-le-replicas d r u er eu = ground arith

  -- The new set's size on the way to `r`: what the surge leaves, and `r` at most.
  abbrev grown : ℕ → ℕ → ℕ → ℕ → ℕ
  grown r n limit current =
      if leb limit current
      then n
      else if ltb (r - n) (limit - current)
      then r
      else n + (limit - current)

  -- A new set of `n` of the `r` machines asked for gets a size from `n` to `r`. With a surge of `s`
  -- and `current` machines in all sets, it grows only while all sets stay within `r + s`, and then
  -- either to `r` or until they are `r + s`.
  pub new_ms_new_replicas_bounds :
      (d : MachineDeployment) (all : List (Option MachineSet)) (new_ms : MachineSet)
      (u : RollingUpdate) (r n s current : ℕ)
      → rolling_update_of d ≡ ok u
      → d.spec_replicas ≡ some (pos r)
      → x.get_value u.max_surge (pos r) true ≡ some (pos s)
      → get_replica_count_for_machine_sets all ≡ ok (pos current)
      → new_ms.spec_replicas ≡ some (pos n)
      → n ≤ r
      → current < 2147483648
      → r + s < 2147483648
      → (m : ℕ) × (new_ms_new_replicas x d all new_ms ≡ ok (pos m))
        × (n ≤ m)
        × (m ≤ r)
        × ((m ≡ n) ⊎ (current + m ≤ r + s + n))
        × ((m ≡ r) ⊎ (r + s + n ≤ current + m))
  unfolding new_ms_new_replicas
  new_ms_new_replicas_bounds d all new_ms u r n s current eu er es ec en le fc fs = (
    grown r n (r + s) current,
    ground (
      arith,
      int32_of_Fits (pos s),
      add32_pos r s,
      sub32_pos (r + s) current,
      sub32_pos r n,
      x.int32_min_lem (pos (r + s - current)) (pos (r - n)),
      add32_pos n (r + s - current),
      add32_pos n (r - n),
    ),
    ground arith,
    ground arith,
    ground arith,
    ground arith,
  )
