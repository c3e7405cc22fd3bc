-- ===== src/Deployment/Scaling/Effect.antt =====
-- What the write of a size does to the machine set and to the server:
-- pkg/controller/machinedeployment/sync.go.
use machine_controller_k0s.Prelude.{
  ◌≡◌, ◌≢◌, ◌⊎◌, inl, inr, ◌∷◌, none, some, true, false, arith, Bool-cases, Option-cases,
}
use machine_controller_k0s.Prelude.Int.{ℤ, eq_ℤ, eq_ℤ_iff}
use machine_controller_k0s.Api.{api, ok, err, Api, ApiError, send, next_answer, later_answers}
use machine_controller_k0s.Objects.{MachineSet, MachineDeployment}
use machine_controller_k0s.Externals.{Externals}
use machine_controller_k0s.Deployment.Annotations.{set_replicas_annotations}
use machine_controller_k0s.Deployment.Scaling.{
  Request, update_machine_set, write_size, annotation_targets, scale_machine_set_operation,
  scale_machine_set,
}

module _ (x : Externals) where
  -- Whatever the server answers, the set in memory has the new size, if the targets have values.
  pub scale_machine_set-size :
      (ms : MachineSet) (n new_scale : ℤ) (d : MachineDeployment) (s : Api Request) (t : ℤ × ℤ)
      → ms.spec_replicas ≡ some n
      → annotation_targets x d ≡ ok t
      → (scale_machine_set x ms new_scale d s).ms.spec_replicas ≡ some new_scale
  unfolding scale_machine_set scale_machine_set_operation write_size set_replicas_annotations
  scale_machine_set-size ms n new_scale d s t en et = ground (arith, eq_ℤ_iff n new_scale)

  -- No field but the size and the annotations changes.
  pub scale_machine_set-status :
      (ms : MachineSet) (new_scale : ℤ) (d : MachineDeployment) (s : Api Request)
      → (scale_machine_set x ms new_scale d s).ms.status ≡ ms.status
  unfolding scale_machine_set scale_machine_set_operation write_size set_replicas_annotations
  scale_machine_set-status ms new_scale d s = ground arith

  -- The set has the new size and is sent once, and the answer decides.
  abbrev pub IsSent : MachineSet → ℤ → MachineDeployment → Api Request → Type 0
  IsSent ms new_scale d s =
      let r = scale_machine_set x ms new_scale d s in
      (r.ms.spec_replicas ≡ some new_scale)
      × (r.server.answers ≡ later_answers s.answers)
      × (((next_answer s.answers ≡ none)
            × (r.scaled ≡ ok true)
            × (r.server.accepted ≡ update_machine_set r.ms ∷ s.accepted))
          ⊎ ((e : ApiError) × (next_answer s.answers ≡ some e)
              × (r.scaled ≡ err (api e))
              × (r.server.accepted ≡ s.accepted)))

  -- With a count and annotation targets that have values: a set that has the size already is left
  -- alone and nothing is sent. Any other has the new size afterwards and is sent once, as it stands
  -- in memory then, and the answer decides: accepted, the call reports a change; refused, it returns
  -- that error and the server has accepted nothing new.
  pub scale_machine_set_answers :
      (ms : MachineSet) (n new_scale : ℤ) (d : MachineDeployment) (s : Api Request) (t : ℤ × ℤ)
      → ms.spec_replicas ≡ some n
      → annotation_targets x d ≡ ok t
      → ((n ≡ new_scale)
          × (scale_machine_set x ms new_scale d s
              ≡ record { ms = ms; server = s; scaled = ok false }))
        ⊎ ((n ≢ new_scale) × IsSent ms new_scale d s)
  unfolding scale_machine_set scale_machine_set_operation write_size send
  scale_machine_set_answers ms n new_scale d s t en et = elim (Bool-cases (eq_ℤ n new_scale)) [
    | inl same ↦ inl ((eq_ℤ_iff n new_scale).0 same, ground arith)
    | inr changed ↦ inr (
      (λ e. ground (arith, (eq_ℤ_iff n new_scale).1 e)),
      (
        scale_machine_set-size ms n new_scale d s t en et,
        ground arith,
        elim (Option-cases (next_answer s.answers)) [
          | inl accepted ↦ inl (accepted, ground arith, ground arith)
          | inr (e, refused) ↦ inr (e, refused, ground arith, ground arith)
        ],
      ),
    )
  ]
