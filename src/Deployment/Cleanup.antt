-- ===== src/Deployment/Cleanup.antt =====
-- The deletion of old machine sets: `cleanupDeployment` of
-- pkg/controller/machinedeployment/sync.go.
pub mod History
use machine_controller_k0s.Prelude.{
  ℕ, zero, suc, List, [], ◌∷◌, Option, none, some, Bool, true, false, not, ◌||◌, sort, length,
  keep_if, if◌then◌else◌,
}
use machine_controller_k0s.Prelude.Int.{ℤ, pos, ltb_ℤ, leb_ℤ, eq_ℤ, sub32, int32}
use machine_controller_k0s.Api.{
  Error, nil_replicas, panicked, ApiError, not_found, already_exists, conflict, too_many_requests,
  refused, api, Api, send,
}
use machine_controller_k0s.Objects.{MachineSet, MachineDeployment}
use machine_controller_k0s.Deployment.Counts.{nat_of}
use machine_controller_k0s.Deployment.Find.{older}
use machine_controller_k0s.Deployment.Scaling.{Request, delete_machine_set}

abbrev pub is_none {ℓ} : {A : Type ℓ} → Option A → Bool
is_none none = true
is_none (some a) = false

abbrev pub is_alive : MachineSet → Bool
is_alive ms = is_none ms.deletion_timestamp

-- The set still has machines, or its status is stale, or it is being deleted.
abbrev pub is_kept : ℤ → MachineSet → Bool
is_kept n ms =
    not (eq_ℤ ms.status.replicas (pos 0))
    || (not (eq_ℤ n (pos 0))
        || (ltb_ℤ ms.status.observed_generation ms.generation
            || not (is_none ms.deletion_timestamp)))

-- The error of a deletion: that the set is gone already is none.
abbrev delete_error : Option ApiError → Option Error
delete_error none = none
delete_error (some not_found) = none
delete_error (some already_exists) = some (api already_exists)
delete_error (some conflict) = some (api conflict)
delete_error (some too_many_requests) = some (api too_many_requests)
delete_error (some refused) = some (api refused)

-- The loop over the first `diff` sets. A negative history limit runs it past the end of the slice.
unfoldable pub delete_first : ℕ → List MachineSet → Api Request → Option Error × Api Request
unfolding send
delete_first zero mss s = (none, s)
delete_first (suc diff) [] s = (some panicked, s)
delete_first (suc diff) (ms ∷ rest) s = elim ms.spec_replicas [
  | none ↦ (some nil_replicas, s)
  | some n ↦ elim (is_kept n ms) [
    | true ↦ delete_first diff rest s
    | false ↦
        let (e, s') = send (delete_machine_set ms) s in
        elim (delete_error e) [ some e' ↦ (some e', s') | none ↦ delete_first diff rest s' ]
  ]
]

unfoldable pub cleanup_deployment :
    List MachineSet → MachineDeployment → Api Request → Option Error × Api Request
unfolding delete_first older sort int32
cleanup_deployment old_mss d s = elim d.revision_history_limit [
  | none ↦ (none, s)
  | some limit ↦
      let cleanable = keep_if is_alive old_mss in
      let diff = sub32 (int32 (pos (length cleanable))) limit in
      if leb_ℤ diff (pos 0) then (none, s) else delete_first (nat_of diff) (sort older cleanable) s
]
