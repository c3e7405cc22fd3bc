-- ===== src/MachineSets/Replicas/Deletion.antt =====
-- The deletion of the machines that are too many:
-- pkg/controller/machineset/machineset_controller.go.
use machine_controller_k0s.Prelude.{◌<◌, ◌≡◌, ◌⊎◌, List, [], ◌∷◌, ◌++◌, length}
use machine_controller_k0s.Api.{ApiError, api, err, Api}
use machine_controller_k0s.Objects.{Machine}
use machine_controller_k0s.Externals.{Externals}
use mathlib.Core.List.{Perm}
use mathlib.Core.List.Perm
use machine_controller_k0s.MachineSets.Requests.{Request, delete_machine}
use machine_controller_k0s.MachineSets.DeletePolicy.{Priorities}
use machine_controller_k0s.MachineSets.Replicas.{
  Surroundings, Sync, returned, wait_for_machine_deletion,
}

module _ (x : Externals) (w : Surroundings) (f : Priorities) where
  -- The accepted requests of the goroutines, the newest first.
  abbrev pub deletions : List Machine → List Request
  deletions [] = []
  deletions (m ∷ rest) = delete_machine m ∷ deletions rest

  abbrev pub IsDeletion : List Machine → Api Request → List ApiError × Api Request → Type 0
  IsDeletion machines s (errors, s') =
      (gone : List Machine) × (spared : List Machine) × Perm (gone ++ spared) machines
      × (length spared ≡ length errors)
      × (s'.accepted ≡ deletions gone ++ s.accepted)

  -- How a deletion ends: the machines that the server deleted and the chosen ones that are left.
  abbrev pub IsScaleDown :
      Api Request → Sync × Api Request → List Machine → List Machine → List Machine → Type 0
  IsScaleDown s (outcome, s') chosen gone spared =
      Perm (gone ++ spared) chosen
      × (s'.accepted ≡ deletions gone ++ s.accepted)
      × (((spared ≡ []) × (outcome ≡ returned (wait_for_machine_deletion x w f chosen)))
          ⊎ ((0 < length spared) × ((e : ApiError) × (outcome ≡ returned (err (api e))))))
