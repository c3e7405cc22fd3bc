-- ===== src/Deployment/Rolling.antt =====
-- The steps of a rolling update: pkg/controller/machinedeployment/rolling.go.
pub mod Surge
pub mod Minimum
pub mod Availability
pub mod Safety
pub mod Sweep
use machine_controller_k0s.Prelude.{List, [], ◌∷◌, Option, none, some, sort, if◌then◌else◌}
use machine_controller_k0s.Prelude.Int.{ℤ, pos, ltb_ℤ, leb_ℤ, eq_ℤ, add32, sub32}
use machine_controller_k0s.Api.{
  Error, nil_replicas, panicked, invalid_scale, bad_value, bad_selector, unsupported_policy,
  bad_strategy, timed_out, api, Result, ok, err, Api, error_of, ◌>>=◌,
}
use machine_controller_k0s.Objects.{MachineSet, MachineDeployment}
use machine_controller_k0s.Externals.{Externals}
use machine_controller_k0s.Deployment.Counts.{
  get_replica_count_for_machine_sets, get_available_replica_count_for_machine_sets, pointers,
}
use machine_controller_k0s.Deployment.Fenceposts.{max_unavailable, new_ms_new_replicas}
use machine_controller_k0s.Deployment.Find.{older, pointers_and}
use machine_controller_k0s.Deployment.Scaling.{Request, scale_machine_set}

-- What a loop over the old machine sets does with one of them.
pub data Visit : Type 0 where
  fail : Error → Visit
  stop skip : Visit
  -- the new size, and by how much it is smaller
  scale_to : ℤ → ℤ → Visit

-- The sets as the loop leaves them, how many machines it took away, and its error.
pub record Swept : Type 0 where
  pub sets : List MachineSet
  pub total : ℤ
  pub server : Api Request
  pub error : Option Error

abbrev in_front : MachineSet → Swept → Swept
in_front ms w = record w { sets = ms ∷ w.sets }

-- The objects that one rollout works on.
pub record Rollout : Type 0 where
  pub deployment : MachineDeployment
  pub new_ms : MachineSet
  pub old_mss : List MachineSet
  pub server : Api Request

abbrev pub all_mss : Rollout → List (Option MachineSet)
all_mss p = pointers_and p.old_mss (some p.new_ms)

-- A step returns its error and the objects as it leaves them.
abbrev pub Step : Type 0
Step = Option Error × Rollout

module _ (x : Externals) where
  -- The loop that `cleanupUnhealthyReplicas` and `scaleDownOldMachineSetsForRollingUpdate` share:
  -- `visit` is the body up to the call of `scaleMachineSet`.
  unfoldable pub sweep :
      (ℤ → MachineSet → Visit) → MachineDeployment → ℤ → List MachineSet → Api Request → Swept
  sweep visit d total [] s = record { sets = []; total = total; server = s; error = none }
  sweep visit d total (ms ∷ rest) s = elim (visit total ms) [
    | fail e ↦ record { sets = ms ∷ rest; total = total; server = s; error = some e }
    | stop ↦ record { sets = ms ∷ rest; total = total; server = s; error = none }
    | skip ↦ in_front ms (sweep visit d total rest s)
    | scale_to n count ↦
        let r = scale_machine_set x ms n d s in
        elim r.scaled [
          | ok _ ↦ in_front r.ms (sweep visit d (add32 total count) rest r.server)
          | err e ↦ record { sets = r.ms ∷ rest; total = total; server = r.server; error = some e }
        ]
  ]

  unfoldable pub cleanup_visit : ℤ → ℤ → MachineSet → Visit
  cleanup_visit max_count total ms = elim ms.spec_replicas [
    | none ↦ fail nil_replicas
    | some n ↦
        let count = x.int32_min (sub32 max_count total) (sub32 n ms.status.available_replicas) in
        if leb_ℤ max_count total
        then stop
        else if eq_ℤ n (pos 0)
        then skip
        else if eq_ℤ n ms.status.available_replicas
        then skip
        else if ltb_ℤ n (sub32 n count)
        then fail invalid_scale
        else scale_to (sub32 n count) count
  ]

  unfoldable pub cleanup_unhealthy_replicas :
      List MachineSet → MachineDeployment → ℤ → Api Request → Swept
  unfolding sweep cleanup_visit older sort
  cleanup_unhealthy_replicas old_mss d max_count s =
      sweep (cleanup_visit max_count) d (pos 0) (sort older old_mss) s

  unfoldable pub scale_down_visit : ℤ → ℤ → MachineSet → Visit
  scale_down_visit total_count total ms = elim ms.spec_replicas [
    | none ↦ fail nil_replicas
    | some n ↦
        let count = x.int32_min n (sub32 total_count total) in
        if leb_ℤ total_count total
        then stop
        else if eq_ℤ n (pos 0)
        then skip
        else if ltb_ℤ n (sub32 n count)
        then fail invalid_scale
        else scale_to (sub32 n count) count
  ]

  -- `deployment.Spec.Replicas` is tested for nil by the caller too.
  unfoldable pub scale_down_old_machine_sets :
      List (Option MachineSet) → List MachineSet → MachineDeployment → Api Request → Swept
  unfolding sweep scale_down_visit older sort max_unavailable
      get_available_replica_count_for_machine_sets
  scale_down_old_machine_sets all old_mss d s =
      let unchanged = λ (e : Option Error).
        let w : Swept = record { sets = old_mss; total = pos 0; server = s; error = e } in w in
      elim d.spec_replicas [
        | none ↦ unchanged (some nil_replicas)
        | some r ↦ elim (max_unavailable x d) [
          | err e ↦ unchanged (some e)
          | ok u ↦
              let min_available = sub32 r u in
              let count = get_available_replica_count_for_machine_sets all in
              if leb_ℤ count min_available
              then unchanged none
              else sweep (scale_down_visit (sub32 count min_available)) d (pos 0)
                  (sort older old_mss) s
        ]
      ]

  scale_new : Rollout → ℤ → Step
  unfolding scale_machine_set
  scale_new p n =
      let r = scale_machine_set x p.new_ms n p.deployment p.server in
      (error_of r.scaled, record p { new_ms = r.ms; server = r.server })

  unfoldable pub reconcile_new_machine_set : Rollout → Step
  unfolding scale_new new_ms_new_replicas
  reconcile_new_machine_set p = elim p.deployment.spec_replicas [
    | none ↦ (some nil_replicas, p)
    | some r ↦ elim p.new_ms.spec_replicas [
      | none ↦ (some nil_replicas, p)
      | some n ↦
          if eq_ℤ n r
          then (none, p)
          else if ltb_ℤ r n
          then scale_new p r
          else elim (new_ms_new_replicas x p.deployment (all_mss p) p.new_ms) [
            | err e ↦ (some e, p)
            | ok count ↦ scale_new p count
          ]
    ]
  ]

  -- How many machines the old sets may lose: `none` where the function returns early.
  unfoldable pub max_scaled_down : Rollout → Result (Option ℤ)
  unfolding get_replica_count_for_machine_sets max_unavailable
  max_scaled_down p = elim p.deployment.spec_replicas [
    | none ↦ err nil_replicas
    | some r ↦ elim p.new_ms.spec_replicas [
      | none ↦ err nil_replicas
      | some n ↦ do
        old_count ← get_replica_count_for_machine_sets (pointers p.old_mss)
        if eq_ℤ old_count (pos 0) then ok none else do
          all_count ← get_replica_count_for_machine_sets (all_mss p)
          u ← max_unavailable x p.deployment
          let min_available = sub32 r u
          let new_unavailable = sub32 n p.new_ms.status.available_replicas
          let budget = sub32 (sub32 all_count min_available) new_unavailable
          if leb_ℤ budget (pos 0) then ok none else ok (some budget)
    ]
  ]

  -- `if err != nil { return nil }`: any error but a panic is dropped.
  abbrev dropped : Error → Option Error
  dropped panicked = some panicked
  dropped e = none

  unfoldable pub reconcile_old_machine_sets : Rollout → Step
  unfolding max_scaled_down cleanup_unhealthy_replicas scale_down_old_machine_sets
  reconcile_old_machine_sets p = elim (max_scaled_down p) [
    | err e ↦ (some e, p)
    | ok none ↦ (none, p)
    | ok (some budget) ↦
        let w = cleanup_unhealthy_replicas p.old_mss p.deployment budget p.server in
        let q = record p { old_mss = w.sets; server = w.server } in
        elim w.error [
          | some e ↦ (dropped e, q)
          | none ↦
              let v = scale_down_old_machine_sets (all_mss q) q.old_mss q.deployment q.server in
              (v.error, record q { old_mss = v.sets; server = v.server })
        ]
  ]
