-- ===== src/Examples/Search.antt =====
-- The search for the new machine set and the old ones, at a rollout.
use machine_controller_k0s.Prelude.{◌≡◌, refl, List, [], ◌∷◌, not, keep_if}
use machine_controller_k0s.Prelude.Int.{pos}
use machine_controller_k0s.Api.{ok}
use machine_controller_k0s.Objects.{MachineSet}
use mathlib.Core.List.{Perm}
use machine_controller_k0s.Deployment.Find.{
  older, is_the_new, split_old, equal_ignore_hash, find_new_machine_set, find_old_machine_sets,
}
use machine_controller_k0s.Deployment.Find.Split.{
  IsFirst, wants_machines, find_old_machine_sets_lem,
}
use machine_controller_k0s.Examples.Base.{simple, deployment, old_a, old_b, new_c}

abbrev rollout_sets : List MachineSet
rollout_sets = old_b ∷ new_c ∷ old_a ∷ []

-- The new set is found and the others are old, the oldest first.
old_split :
    find_old_machine_sets simple (deployment 10 3 2) rollout_sets
    ≡ ok (old_a ∷ old_b ∷ [], old_a ∷ old_b ∷ [])
unfolding find_old_machine_sets find_new_machine_set split_old equal_ignore_hash older
old_split = refl

find_old_machine_sets_lem_example :
    IsFirst
      (λ ms. equal_ignore_hash simple ms.template (deployment 10 3 2).template)
      (find_new_machine_set simple (deployment 10 3 2) rollout_sets).1
      (find_new_machine_set simple (deployment 10 3 2) rollout_sets).0
    × Perm (find_new_machine_set simple (deployment 10 3 2) rollout_sets).1 rollout_sets
    × ((wanted : List MachineSet) × (all : List MachineSet) × (find_old_machine_sets simple
            (deployment 10 3 2)
            rollout_sets
          ≡ ok (wanted, all))
        × (all
            ≡ keep_if
                (λ ms.
                  not (
                    is_the_new (find_new_machine_set simple (deployment 10 3 2) rollout_sets).0 ms))
                (find_new_machine_set simple (deployment 10 3 2) rollout_sets).1)
        × (wanted ≡ keep_if wants_machines all))
find_old_machine_sets_lem_example =
    find_old_machine_sets_lem simple (deployment 10 3 2) rollout_sets
      ((pos 4, refl), ((pos 3, refl), ((pos 6, refl), tt)))
