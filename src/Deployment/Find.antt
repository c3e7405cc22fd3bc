-- ===== src/Deployment/Find.antt =====
-- The choice of the new and the old machine sets, and the orders on machine sets:
-- pkg/controller/machinedeployment/util/util.go.
pub mod Split
use machine_controller_k0s.Prelude.{
  List, [], ◌∷◌, Option, none, some, Bool, false, sort, find, delete, ltb, ◌==◌, if◌then◌else◌,
}
use machine_controller_k0s.Prelude.Int.{ℤ, pos, ltb_ℤ, eq_ℤ}
use machine_controller_k0s.Prelude.Decimal.{text_eq, text_lt}
use machine_controller_k0s.Api.{Result, ok, err, panicked, deref, ◌>>=◌}
use machine_controller_k0s.Objects.{Labels, MachineTemplateSpec, MachineSet, MachineDeployment}
use machine_controller_k0s.Externals.{Externals}
use machine_controller_k0s.Deployment.Annotations.{unique_label_key}

-- `MachineSetsByCreationTimestamp.Less`
unfoldable pub older : MachineSet → MachineSet → Bool
unfolding text_lt
older a b =
    if a.creation_timestamp == b.creation_timestamp
    then text_lt a.name b.name
    else ltb a.creation_timestamp b.creation_timestamp

abbrev count_eq : Option ℤ → Option ℤ → Bool
count_eq (some m) (some n) = eq_ℤ m n
count_eq (some m) none = false
count_eq none n = false

abbrev count_lt : Option ℤ → Option ℤ → Bool
count_lt (some m) (some n) = ltb_ℤ m n
count_lt (some m) none = false
count_lt none n = false

-- `MachineSetsBySizeOlder.Less`. A nil count panics in Go; the caller has filtered those out.
unfoldable pub larger_or_older : MachineSet → MachineSet → Bool
larger_or_older a b =
    if count_eq a.spec_replicas b.spec_replicas
    then ltb a.creation_timestamp b.creation_timestamp
    else count_lt b.spec_replicas a.spec_replicas

-- `MachineSetsBySizeNewer.Less`, likewise.
unfoldable pub larger_or_newer : MachineSet → MachineSet → Bool
larger_or_newer a b =
    if count_eq a.spec_replicas b.spec_replicas
    then ltb b.creation_timestamp a.creation_timestamp
    else count_lt b.spec_replicas a.spec_replicas

abbrev pub is_active : MachineSet → Bool
is_active ms = elim ms.spec_replicas [ none ↦ false | some n ↦ ltb_ℤ (pos 0) n ]

-- `FilterActiveMachineSets`, which also drops nil pointers.
unfoldable pub filter_active_machine_sets : List (Option MachineSet) → List MachineSet
filter_active_machine_sets [] = []
filter_active_machine_sets (none ∷ rest) = filter_active_machine_sets rest
filter_active_machine_sets (some ms ∷ rest) =
    let later = filter_active_machine_sets rest in if is_active ms then ms ∷ later else later

abbrev pub pointers_and : List MachineSet → Option MachineSet → List (Option MachineSet)
pointers_and [] last = last ∷ []
pointers_and (ms ∷ rest) last = some ms ∷ pointers_and rest last

abbrev latest_of : Option MachineSet → List MachineSet → Result (Option MachineSet)
latest_of (some ms) olds = ok (some ms)
latest_of none [] = err panicked
latest_of none (ms ∷ olds) = ok (some ms)

abbrev one_or_latest :
    List MachineSet → Option MachineSet → List MachineSet → Result (Option MachineSet)
one_or_latest [] new_ms olds = latest_of new_ms olds
one_or_latest (ms ∷ []) new_ms olds = ok (some ms)
one_or_latest (ms ∷ another ∷ rest) new_ms olds = ok none

-- `none` is the nil pointer.
unfoldable pub find_one_active_or_latest :
    Option MachineSet → List MachineSet → Result (Option MachineSet)
unfolding older filter_active_machine_sets sort
find_one_active_or_latest none [] = ok none
find_one_active_or_latest new_ms olds =
    let sorted = sort (λ a b. older b a) olds in
    one_or_latest (filter_active_machine_sets (pointers_and sorted new_ms)) new_ms sorted

-- `newMS != nil && ms.UID == newMS.UID`
abbrev pub is_the_new : Option MachineSet → MachineSet → Bool
is_the_new none ms = false
is_the_new (some new_ms) ms = text_eq ms.uid new_ms.uid

-- The machine sets but the new one; and those of them that want machines, whose nil count panics.
unfoldable pub split_old :
    Option MachineSet → List MachineSet → Result (List MachineSet × List MachineSet)
unfolding text_eq
split_old new_ms [] = ok ([], [])
split_old new_ms (ms ∷ rest) =
    let later = split_old new_ms rest in
    if is_the_new new_ms ms then later else do
      n ← deref ms.spec_replicas
      l ← later
      ok (if eq_ℤ n (pos 0) then l.0 else ms ∷ l.0, ms ∷ l.1)

abbrev delete_label : Option Labels → Option Labels
delete_label none = none
delete_label (some m) = some (delete unique_label_key m)

-- The label of the hash is removed from the copy of a template.
abbrev pub without_hash : MachineTemplateSpec → MachineTemplateSpec
without_hash t = record t {
  template_meta = record t.template_meta { labels = delete_label t.template_meta.labels };
}

module _ (x : Externals) where
  unfoldable pub equal_ignore_hash : MachineTemplateSpec → MachineTemplateSpec → Bool
  equal_ignore_hash t₁ t₂ = x.deep_equal (without_hash t₁) (without_hash t₂)

  -- The machine sets come back in the order in which the function leaves the slice.
  unfoldable pub find_new_machine_set :
      MachineDeployment → List MachineSet → Option MachineSet × List MachineSet
  unfolding older sort equal_ignore_hash
  find_new_machine_set d ms_list =
      let sorted = sort older ms_list in
      (find (λ ms. equal_ignore_hash ms.template d.template) sorted, sorted)

  unfoldable pub find_old_machine_sets :
      MachineDeployment → List MachineSet → Result (List MachineSet × List MachineSet)
  unfolding find_new_machine_set split_old
  find_old_machine_sets d ms_list =
      let (new_ms, sorted) = find_new_machine_set d ms_list in split_old new_ms sorted
