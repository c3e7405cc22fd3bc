-- ===== src/Deployment/Fenceposts.antt =====
-- How many machines a rollout may add or miss, and how large the new machine set may be:
-- pkg/controller/machinedeployment/util/util.go.
pub mod Bounds
use machine_controller_k0s.Prelude.{
  List, Option, none, some, Bool, true, false, not, ◌&&◌, ◌||◌, if◌then◌else◌,
}
use machine_controller_k0s.Prelude.Int.{ℤ, pos, ltb_ℤ, leb_ℤ, eq_ℤ, int32, add32, sub32, mul32}
use machine_controller_k0s.Prelude.Decimal.{parse_int}
use machine_controller_k0s.Api.{Result, ok, err, bad_value, deref, ◌>>=◌}
use machine_controller_k0s.Objects.{
  IntOrString, RollingUpdate, StrategyType, rolling, unset, other, MachineSet, MachineDeployment,
  MachineDeploymentStatus, value_at,
}
use machine_controller_k0s.Externals.{Externals}
use machine_controller_k0s.Deployment.Counts.{get_replica_count_for_machine_sets}
use machine_controller_k0s.Deployment.Annotations.{
  desired_replicas_annotation, made, get_max_replicas_annotation,
}

abbrev pub is_rolling : StrategyType → Bool
is_rolling rolling = true
is_rolling unset = false
is_rolling other = false

unfoldable pub is_rolling_update : MachineDeployment → Result Bool
is_rolling_update d = do s ← deref d.strategy; ok (is_rolling s.type)

unfoldable pub deployment_complete : MachineDeployment → MachineDeploymentStatus → Result Bool
deployment_complete d status = do
  r ← deref d.spec_replicas
  ok (
      eq_ℤ status.updated_replicas r
      && (eq_ℤ status.replicas r
          && (eq_ℤ status.available_replicas r && leb_ℤ d.generation status.observed_generation)))

-- `d.Spec.Strategy.RollingUpdate`, dereferenced.
unfoldable pub rolling_update_of : MachineDeployment → Result RollingUpdate
rolling_update_of d = do s ← deref d.strategy; deref s.rolling_update

unfoldable pub is_saturated : MachineDeployment → Option MachineSet → Result Bool
unfolding value_at parse_int int32
is_saturated d none = ok false
is_saturated d (some ms) =
    elim (parse_int (value_at desired_replicas_annotation (made ms.annotations))) [
      | none ↦ ok false
      | some desired ↦ do
        n ← deref ms.spec_replicas
        r ← deref d.spec_replicas
        ok (eq_ℤ n r && (eq_ℤ (int32 desired) r && eq_ℤ ms.status.available_replicas r))
    ]

module _ (x : Externals) where
  -- The surge and the unavailable machines; `none` is the error, with which Go returns 0 and 0.
  unfoldable pub resolve_fenceposts : Option IntOrString → Option IntOrString → ℤ → Option (ℤ × ℤ)
  unfolding int32
  resolve_fenceposts max_surge max_unavailable desired = elim (x.get_value max_surge desired true) [
    | none ↦ none
    | some surge ↦ elim (x.get_value max_unavailable desired false) [
      | none ↦ none
      | some unavailable ↦
          if eq_ℤ surge (pos 0) && eq_ℤ unavailable (pos 0)
          then some (int32 surge, int32 (pos 1))
          else some (int32 surge, int32 unavailable)
    ]
  ]

  abbrev zero_on_error : Option (ℤ × ℤ) → ℤ × ℤ
  zero_on_error none = (pos 0, pos 0)
  zero_on_error (some p) = p

  -- The read of both fenceposts in `MaxSurge` and `MaxUnavailable`, which drop the error.
  unfoldable pub fenceposts_of : MachineDeployment → Result (ℤ × ℤ)
  unfolding resolve_fenceposts rolling_update_of
  fenceposts_of d = do
    u ← rolling_update_of d
    r ← deref d.spec_replicas
    ok (zero_on_error (resolve_fenceposts u.max_surge u.max_unavailable r))

  unfoldable pub max_unavailable : MachineDeployment → Result ℤ
  unfolding fenceposts_of is_rolling_update
  max_unavailable d = do
    is ← is_rolling_update d
    if not is then ok (pos 0) else do
      r ← deref d.spec_replicas
      if eq_ℤ r (pos 0)
          then ok (pos 0)
          else do f ← fenceposts_of d; if ltb_ℤ r f.1 then ok r else ok f.1

  unfoldable pub max_surge : MachineDeployment → Result ℤ
  unfolding fenceposts_of is_rolling_update
  max_surge d = do
    is ← is_rolling_update d
    if not is then ok (pos 0) else do f ← fenceposts_of d; ok f.0

  abbrev value_or_error : Option ℤ → Result ℤ
  value_or_error none = err bad_value
  value_or_error (some v) = ok v

  -- The two cases of the `switch` are the same code; each reads the strategy and its fields.
  unfoldable pub new_ms_new_replicas :
      MachineDeployment → List (Option MachineSet) → MachineSet → Result ℤ
  unfolding rolling_update_of
  new_ms_new_replicas d all_mss new_ms = do
    u ← rolling_update_of d
    r ← deref d.spec_replicas
    surge ← value_or_error (x.get_value u.max_surge r true)
    current ← get_replica_count_for_machine_sets all_mss
    n ← deref new_ms.spec_replicas
    let max_total = add32 r (int32 surge)
    if leb_ℤ max_total current
        then ok n
        else ok (add32 n (x.int32_min (sub32 max_total current) (sub32 r n)))

  unfoldable pub get_machine_set_fraction : MachineSet → MachineDeployment → Result ℤ
  unfolding get_max_replicas_annotation max_surge
  get_machine_set_fraction ms d = do
    r ← deref d.spec_replicas
    n ← deref ms.spec_replicas
    if eq_ℤ r (pos 0) then ok (sub32 (pos 0) n) else do
      s ← max_surge d
      let annotated : ℤ = elim (get_max_replicas_annotation ms) [
        | none ↦ d.status.replicas
        | some v ↦ v
      ]
      ok (sub32 (x.round_quotient (mul32 n (add32 r s)) annotated) n)

  unfoldable pub get_proportion : Option MachineSet → MachineDeployment → ℤ → ℤ → Result ℤ
  unfolding get_machine_set_fraction
  get_proportion none d to_add added = ok (pos 0)
  get_proportion (some ms) d to_add added = do
    n ← deref ms.spec_replicas
    if eq_ℤ n (pos 0) || (eq_ℤ to_add (pos 0) || eq_ℤ to_add added) then ok (pos 0) else do
      fraction ← get_machine_set_fraction ms d
      let allowed = sub32 to_add added
      if ltb_ℤ (pos 0) to_add
          then ok (x.int32_min fraction allowed)
          else ok (x.int32_max fraction allowed)
