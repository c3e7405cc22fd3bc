-- ===== src/Examples/Util.antt =====
-- Tests and instances for the fenceposts, the sizes and the annotations.
use machine_controller_k0s.Prelude.{
  ◌≢◌, ℕ, ◌+◌, ◌≤◌, ◌≡◌, refl, ◌⊎◌, [], ◌∷◌, ◌++◌, some, false, arith, All, lookup, ◌==◌,
}
use machine_controller_k0s.Prelude.Int.{ℤ, pos, int32, add32}
use machine_controller_k0s.Prelude.Decimal.{codes}
use machine_controller_k0s.Api.{ok, conflict, Api}
use machine_controller_k0s.Objects.{MachineSet, MachineDeployment, RollingUpdate, int_val}
use machine_controller_k0s.Deployment.Counts.{get_replica_count_for_machine_sets}
use machine_controller_k0s.Deployment.Fenceposts.{
  rolling_update_of, resolve_fenceposts, new_ms_new_replicas,
}
use machine_controller_k0s.Deployment.Fenceposts.Bounds.{
  resolve_fenceposts_not_zero, new_ms_new_replicas_bounds,
}
use machine_controller_k0s.Deployment.Annotations.{
  revision_annotation, comma, extended_history, made, set_replicas_annotations,
  get_desired_replicas_annotation, get_max_replicas_annotation, replicas_annotations_need_update,
  copy_deployment_annotations_to_machine_set, revision, max_revision, skip_copy_annotation,
}
use machine_controller_k0s.Deployment.Annotations.Laws.{
  get-set_replicas_annotations, extended_history_lem, copy_deployment_annotations-lookup, IsBelow,
  max_revision-above,
}
use machine_controller_k0s.Deployment.Scaling.{Request, annotation_targets, scale_machine_set}
use machine_controller_k0s.Deployment.Scaling.Effect.{IsSent, scale_machine_set_answers}
use machine_controller_k0s.Examples.Base.{simple, deployment, old_a, old_b, new_c, rollout}

resolve_fenceposts_not_zero_example :
    (u : ℤ) × (resolve_fenceposts simple (some (int_val (pos 0))) (some (int_val (pos 0))) (pos 5)
      ≡ some (pos 0, u))
    × (◌≡◌ {A = ℤ} (pos 0) (pos 0) × (u ≡ pos 1)
        ⊎ (u ≡ pos 0) × (◌≡◌ {A = ℤ} (pos 0) (pos 0) × ◌≡◌ {A = ℤ} (pos 0) (pos 0) → ⊥))
resolve_fenceposts_not_zero_example =
    resolve_fenceposts_not_zero simple (some (int_val (pos 0))) (some (int_val (pos 0))) (pos 5)
      (pos 0) (pos 0) (omega arith, omega arith) (omega arith, omega arith) refl refl

-- Five of three: the count is cut down.
abbrev small_update : RollingUpdate
small_update = record {
  max_unavailable = some (int_val (pos 2));
  max_surge = some (int_val (pos 3));
}

new_ms_new_replicas_bounds_example :
    (m : ℕ) × (new_ms_new_replicas simple (deployment 10 3 2) (some old_a ∷ some new_c ∷ []) new_c
      ≡ ok (pos m))
    × (3 ≤ m)
    × (m ≤ 10)
    × ((m ≡ 3) ⊎ (9 + m ≤ 10 + 3 + 3))
    × ((m ≡ 10) ⊎ (10 + 3 + 3 ≤ 9 + m))
unfolding rolling_update_of get_replica_count_for_machine_sets add32 int32
new_ms_new_replicas_bounds_example =
    new_ms_new_replicas_bounds simple (deployment 10 3 2) (some old_a ∷ some new_c ∷ []) new_c
      small_update 10 3 3 9 refl refl refl refl refl (omega arith) (omega arith) (omega arith)

abbrev unwilling : Api Request
unwilling = record { answers = some conflict ∷ []; accepted = [] }

scale_machine_set_answers_example :
    (◌≡◌ {A = ℤ} (pos 6) (pos 2)
      × (scale_machine_set simple old_a (pos 2) rollout.deployment unwilling
          ≡ record { ms = old_a; server = unwilling; scaled = ok false }))
    ⊎ (◌≢◌ {A = ℤ} (pos 6) (pos 2) × IsSent simple old_a (pos 2) rollout.deployment unwilling)
unfolding annotation_targets add32 int32
scale_machine_set_answers_example =
    scale_machine_set_answers simple old_a (pos 6) (pos 2) rollout.deployment unwilling
      (pos 10, pos 13) refl refl

get-set_replicas_annotations_example :
    let ms' = (set_replicas_annotations old_a (pos 10) (pos 13)).0 in
    (get_desired_replicas_annotation ms' ≡ some (pos 10))
    × (get_max_replicas_annotation ms' ≡ some (pos 13))
    × (replicas_annotations_need_update ms' (pos 10) (pos 13) ≡ false)
get-set_replicas_annotations_example =
    get-set_replicas_annotations old_a (pos 10) (pos 13) (omega arith, omega arith)
      (omega arith, omega arith)

extended_history_lem_example :
    (extended_history [] (codes "3") ≡ codes "3")
    × ((b'1' == comma) ≡ false
        → extended_history (codes "1,2") (codes "3") ≡ codes "1,2" ++ comma ∷ codes "3")
extended_history_lem_example = extended_history_lem b'1' (codes ",2") (codes "3")

annotated : MachineDeployment
annotated =
    let d = deployment 10 3 2 in
    record d {
      meta = record d.meta {
        annotations = some ((revision_annotation, codes "9") ∷ ("team", codes "infra") ∷ []);
      };
    }

copy_deployment_annotations-lookup_example :
    lookup revision_annotation
      (made (copy_deployment_annotations_to_machine_set annotated old_a).0.annotations)
    ≡ lookup revision_annotation (made old_a.annotations)
unfolding skip_copy_annotation
copy_deployment_annotations-lookup_example =
    copy_deployment_annotations-lookup revision_annotation annotated old_a refl

abbrev revised : MachineSet
revised = record old_a {
  meta = record old_a.meta { annotations = some ((revision_annotation, codes "41") ∷ []) };
}

max_revision_test : max_revision (old_b ∷ revised ∷ []) ≡ pos 41
unfolding max_revision lookup
max_revision_test = refl

max_revision-above_example :
    All (λ ms. IsBelow (revision ms) (max_revision (old_b ∷ revised ∷ []))) (old_b ∷ revised ∷ [])
max_revision-above_example = max_revision-above (old_b ∷ revised ∷ [])
