-- ===== src/Deployment/Sync.antt =====
-- Scaling outside of a rollout: `scale` of pkg/controller/machinedeployment/sync.go.
use machine_controller_k0s.Prelude.{
  List, [], ◌∷◌, Option, none, some, true, false, sort, if◌then◌else◌,
}
use machine_controller_k0s.Prelude.Int.{ℤ, pos, ltb_ℤ, eq_ℤ, add32, sub32}
use machine_controller_k0s.Prelude.Decimal.{Text, text_eq}
use machine_controller_k0s.Api.{Error, nil_replicas, Result, ok, err, Api, error_of, ◌>>=◌}
use machine_controller_k0s.Objects.{MachineSet, MachineDeployment}
use machine_controller_k0s.Externals.{Externals}
use machine_controller_k0s.Deployment.Counts.{get_replica_count_for_machine_sets, pointers}
use machine_controller_k0s.Deployment.Fenceposts.{
  is_rolling_update, is_saturated, max_surge, get_proportion,
}
use machine_controller_k0s.Deployment.Find.{
  older, larger_or_older, larger_or_newer, pointers_and, filter_active_machine_sets,
  find_one_active_or_latest,
}
use machine_controller_k0s.Deployment.Scaling.{
  Request, Scaled, scale_machine_set, scale_machine_set_operation,
}

-- The objects that one `sync` works on; the new machine set may be a nil pointer.
pub record Fleet : Type 0 where
  pub deployment : MachineDeployment
  pub new_ms : Option MachineSet
  pub old_mss : List MachineSet
  pub server : Api Request

pub record Updated : Type 0 where
  pub sets : List MachineSet
  pub server : Api Request
  pub error : Option Error

abbrev with_set : MachineSet → Updated → Updated
with_set ms u = record u { sets = ms ∷ u.sets }

-- A loop that scales each set and ends at the first error.
unfoldable pub scale_each :
    (MachineSet → Api Request → Scaled) → List MachineSet → Api Request → Updated
scale_each f [] s = record { sets = []; server = s; error = none }
scale_each f (ms ∷ rest) s =
    let r = f ms s in
    elim r.scaled [
      | ok _ ↦ with_set r.ms (scale_each f rest r.server)
      | err e ↦ record { sets = r.ms ∷ rest; server = r.server; error = some e }
    ]

-- The source changes sets through pointers; here the changed ones are put back by their UIDs.
unfoldable pub put_back : List MachineSet → MachineSet → MachineSet
unfolding text_eq
put_back [] ms = ms
put_back (changed ∷ rest) ms =
    let later = put_back rest ms in if text_eq changed.uid ms.uid then changed else later

abbrev put_back_all : List MachineSet → List MachineSet → List MachineSet
put_back_all changed [] = []
put_back_all changed (ms ∷ rest) = put_back changed ms ∷ put_back_all changed rest

abbrev put_back_new : List MachineSet → Option MachineSet → Option MachineSet
put_back_new changed none = none
put_back_new changed (some ms) = some (put_back changed ms)

abbrev after : Fleet → Updated → Option Error × Fleet
after f u = (
  u.error,
  record f {
    new_ms = put_back_new u.sets f.new_ms;
    old_mss = put_back_all u.sets f.old_mss;
    server = u.server;
  },
)

-- `nameToSize`: a missing name reads as 0.
abbrev pub Sizes : Type 0
Sizes = List (Text × ℤ)

unfoldable pub size_at : Text → Sizes → ℤ
unfolding text_eq
size_at k [] = pos 0
size_at k ((j, n) ∷ sizes) = let later = size_at k sizes in if text_eq j k then n else later

abbrev pub set_size : Text → ℤ → Sizes → Sizes
set_size k n sizes = (k, n) ∷ sizes

module _ (x : Externals) where
  -- The first loop: the replicas added so far and the sizes.
  unfoldable pub proportions :
      MachineDeployment → ℤ → ℤ → Sizes → List MachineSet → Result (ℤ × Sizes)
  unfolding get_proportion
  proportions d to_add added sizes [] = ok (added, sizes)
  proportions d to_add added sizes (ms ∷ rest) = elim ms.spec_replicas [
    | none ↦ proportions d to_add added sizes rest
    | some n ↦ elim (eq_ℤ to_add (pos 0)) [
      | true ↦ proportions d to_add added (set_size ms.name n sizes) rest
      | false ↦ do
        p ← get_proportion x (some ms) d to_add added
        proportions d to_add (add32 added p) (set_size ms.name (add32 n p) sizes) rest
    ]
  ]

  -- The size of the first set, with the leftovers and not below 0.
  unfoldable pub with_leftover : ℤ → ℤ → List MachineSet → Sizes → Sizes
  unfolding size_at
  with_leftover to_add added [] sizes = sizes
  with_leftover to_add added (ms ∷ rest) sizes =
      let n = add32 (size_at ms.name sizes) (sub32 to_add added) in
      if eq_ℤ to_add (pos 0)
      then sizes
      else set_size ms.name (if ltb_ℤ n (pos 0) then pos 0 else n) sizes

  -- The number of replicas that the active sets are to have in all.
  unfoldable pub allowed_size : MachineDeployment → ℤ → Result ℤ
  unfolding max_surge
  allowed_size d r = if ltb_ℤ (pos 0) r then (do s ← max_surge x d; ok (add32 r s)) else ok (pos 0)

  unfoldable pub by_direction : ℤ → List MachineSet → List MachineSet
  unfolding larger_or_newer larger_or_older sort
  by_direction to_add mss =
      if ltb_ℤ (pos 0) to_add
      then sort larger_or_newer mss
      else if ltb_ℤ to_add (pos 0)
      then sort larger_or_older mss
      else mss

  -- The new sizes of the active sets, in the order in which they are written.
  unfoldable pub proportional_sizes :
      MachineDeployment → ℤ → List MachineSet → Result (List MachineSet × Sizes)
  unfolding allowed_size by_direction proportions with_leftover get_replica_count_for_machine_sets
  proportional_sizes d r active = do
    total ← get_replica_count_for_machine_sets (pointers active)
    allowed ← allowed_size d r
    let to_add = sub32 allowed total
    let sorted = by_direction to_add active
    p ← proportions d to_add (pos 0) [] sorted
    ok (sorted, with_leftover to_add p.0 sorted p.1)

  unfoldable pub scale_proportionally : Fleet → ℤ → Option Error × Fleet
  unfolding proportional_sizes scale_each put_back scale_machine_set_operation
      filter_active_machine_sets
  scale_proportionally f r =
      let active = filter_active_machine_sets (pointers_and f.old_mss f.new_ms) in
      elim (proportional_sizes f.deployment r active) [
        | err e ↦ (some e, f)
        | ok (sorted, sizes) ↦ after f (
            scale_each
              (λ ms s. scale_machine_set_operation x ms (size_at ms.name sizes) f.deployment s)
              sorted f.server)
      ]

  unfoldable pub scale_to_zero : Fleet → Option Error × Fleet
  unfolding scale_each put_back scale_machine_set filter_active_machine_sets
  scale_to_zero f = after f (
      scale_each (λ ms s. scale_machine_set x ms (pos 0) f.deployment s)
        (filter_active_machine_sets (pointers f.old_mss)) f.server)

  unfoldable pub scale_one : Fleet → MachineSet → ℤ → Option Error × Fleet
  unfolding scale_machine_set put_back
  scale_one f ms r = elim ms.spec_replicas [
    | none ↦ (some nil_replicas, f)
    | some n ↦
        if eq_ℤ n r
        then (none, f)
        else let q = scale_machine_set x ms r f.deployment f.server in
          after f (record { sets = q.ms ∷ []; server = q.server; error = error_of q.scaled })
  ]

  unfoldable pub scale : Fleet → Option Error × Fleet
  unfolding find_one_active_or_latest scale_one scale_to_zero scale_proportionally is_saturated
      is_rolling_update older sort
  scale f = elim f.deployment.spec_replicas [
    | none ↦ (some nil_replicas, f)
    | some r ↦
        let g = record f { old_mss = sort (λ a b. older b a) f.old_mss } in
        elim (find_one_active_or_latest f.new_ms f.old_mss) [
          | err e ↦ (some e, g)
          | ok (some ms) ↦ scale_one g ms r
          | ok none ↦ elim (is_saturated f.deployment f.new_ms) [
            | err e ↦ (some e, g)
            | ok true ↦ scale_to_zero g
            | ok false ↦ elim (is_rolling_update f.deployment) [
              | err e ↦ (some e, g)
              | ok false ↦ (none, g)
              | ok true ↦ scale_proportionally g r
            ]
          ]
        ]
  ]
