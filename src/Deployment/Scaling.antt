-- ===== src/Deployment/Scaling.antt =====
-- The write of a new size to a machine set: pkg/controller/machinedeployment/sync.go. The source
-- changes the set in place before it sends it, so the changed set comes back on an error too.
pub mod Effect
use machine_controller_k0s.Prelude.{Option, none, some, Bool, false, not, ◌||◌, if◌then◌else◌}
use machine_controller_k0s.Prelude.Int.{ℤ, eq_ℤ, add32}
use machine_controller_k0s.Api.{
  nil_replicas, api, ApiError, Result, ok, err, Api, send, deref, ◌>>=◌,
}
use machine_controller_k0s.Objects.{MachineSet, MachineDeployment}
use machine_controller_k0s.Externals.{Externals}
use machine_controller_k0s.Deployment.Annotations.{
  set_replicas_annotations, replicas_annotations_need_update,
}
use machine_controller_k0s.Deployment.Fenceposts.{max_surge}

-- The writes of the controller.
pub data Request : Type 0 where
  update_machine_set : MachineSet → Request
  create_machine_set : MachineSet → Request
  delete_machine_set : MachineSet → Request
  update_deployment : MachineDeployment → Request
  update_deployment_status : MachineDeployment → Request

pub record Scaled : Type 0 where
  pub ms : MachineSet
  pub server : Api Request
  pub scaled : Result Bool

abbrev answer_to : Option ApiError → Bool → Result Bool
answer_to none size_changed = ok size_changed
answer_to (some e) size_changed = err (api e)

-- Set the size and the annotations, and send the set.
unfoldable pub write_size : MachineSet → ℤ → ℤ → ℤ → Bool → Api Request → Scaled
unfolding set_replicas_annotations send
write_size ms new_scale desired max size_changed s =
    let ms' =
      (set_replicas_annotations (record ms { spec_replicas = some new_scale }) desired max).0 in
    let (e, s') = send (update_machine_set ms') s in
    record { ms = ms'; server = s'; scaled = answer_to e size_changed }

module _ (x : Externals) where
  -- The two numbers that are kept as annotations.
  unfoldable pub annotation_targets : MachineDeployment → Result (ℤ × ℤ)
  unfolding max_surge
  annotation_targets d = do r ← deref d.spec_replicas; s ← max_surge x d; ok (r, add32 r s)

  unfoldable pub scale_machine_set_operation :
      MachineSet → ℤ → MachineDeployment → Api Request → Scaled
  unfolding annotation_targets write_size replicas_annotations_need_update
  scale_machine_set_operation ms new_scale d s = elim ms.spec_replicas [
    | none ↦ record { ms = ms; server = s; scaled = err nil_replicas }
    | some n ↦ elim (annotation_targets d) [
      | err e ↦ record { ms = ms; server = s; scaled = err e }
      | ok (desired, max) ↦
          if not (eq_ℤ n new_scale) || replicas_annotations_need_update ms desired max
          then write_size ms new_scale desired max (not (eq_ℤ n new_scale)) s
          else record { ms = ms; server = s; scaled = ok false }
    ]
  ]

  unfoldable pub scale_machine_set : MachineSet → ℤ → MachineDeployment → Api Request → Scaled
  unfolding scale_machine_set_operation
  scale_machine_set ms new_scale d s = elim ms.spec_replicas [
    | none ↦ record { ms = ms; server = s; scaled = err nil_replicas }
    | some n ↦
        if eq_ℤ n new_scale
        then record { ms = ms; server = s; scaled = ok false }
        else scale_machine_set_operation ms new_scale d s
  ]
