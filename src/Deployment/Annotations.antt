-- ===== src/Deployment/Annotations.antt =====
-- The annotations that the controller keeps on machine sets:
-- pkg/controller/machinedeployment/util/util.go.
pub mod Laws
use machine_controller_k0s.Prelude.{
  ℕ, List, [], ◌∷◌, ◌++◌, Option, none, some, Bool, true, false, not, ◌||◌, String, str_eq, lookup,
  insert, ◌==◌, if◌then◌else◌,
}
use machine_controller_k0s.Prelude.Int.{ℤ, pos, ltb_ℤ, int32, add32}
use machine_controller_k0s.Prelude.Decimal.{Text, text_eq, format_int, parse_int}
use machine_controller_k0s.Api.{Result, ok, deref, ◌>>=◌}
use machine_controller_k0s.Objects.{
  read_map, Labels, LabelSelector, MachineSet, MachineDeployment, value_at,
}

abbrev pub unique_label_key : String
unique_label_key = "machine-template-hash"

abbrev pub revision_annotation : String
revision_annotation = "machinedeployment.clusters.k8s.io/revision"

abbrev pub revision_history_annotation : String
revision_history_annotation = "machinedeployment.clusters.k8s.io/revision-history"

abbrev pub desired_replicas_annotation : String
desired_replicas_annotation = "machinedeployment.clusters.k8s.io/desired-replicas"

abbrev pub max_replicas_annotation : String
max_replicas_annotation = "machinedeployment.clusters.k8s.io/max-replicas"

-- `v1.LastAppliedConfigAnnotation`
abbrev last_applied_config_annotation : String
last_applied_config_annotation = "kubectl.kubernetes.io/last-applied-configuration"

unfoldable pub skip_copy_annotation : String → Bool
skip_copy_annotation key =
    str_eq key last_applied_config_annotation
    || (str_eq key revision_annotation
        || (str_eq key revision_history_annotation
            || (str_eq key desired_replicas_annotation || str_eq key max_replicas_annotation)))

-- The map that a write finds: `make(map[string]string)` where it is nil.
abbrev pub made : Option Labels → Labels
made none = []
made (some m) = m

abbrev pub with_annotations : MachineSet → Labels → MachineSet
with_annotations ms m = record ms { meta = record ms.meta { annotations = some m } }

-- `if m[k] != v { m[k] = v; updated = true }`
unfoldable pub set_if_changed : String → Text → Labels × Bool → Labels × Bool
unfolding value_at text_eq
set_if_changed k v (m, updated) =
    if text_eq (value_at k m) v then (m, updated) else (insert k v m, true)

unfoldable pub set_deployment_revision : MachineDeployment → Text → MachineDeployment × Bool
unfolding set_if_changed
set_deployment_revision d revision =
    let (m, updated) = set_if_changed revision_annotation revision (made d.annotations, false) in
    (record d { meta = record d.meta { annotations = some m } }, updated)

-- The loop over the deployment's annotations.
unfoldable pub copy_annotations : Labels → Labels × Bool → Labels × Bool
unfolding set_if_changed skip_copy_annotation
copy_annotations [] target = target
copy_annotations ((k, v) ∷ rest) target =
    copy_annotations rest (if skip_copy_annotation k then target else set_if_changed k v target)

unfoldable pub copy_deployment_annotations_to_machine_set :
    MachineDeployment → MachineSet → MachineSet × Bool
unfolding copy_annotations
copy_deployment_annotations_to_machine_set d ms =
    let (m, changed) = copy_annotations (made d.annotations) (made ms.annotations, false) in
    (with_annotations ms m, changed)

-- `some` is the `int32` with `true`.
unfoldable pub get_int_from_annotation : MachineSet → String → Option ℤ
unfolding parse_int int32
get_int_from_annotation ms key = elim (lookup key (made ms.annotations)) [
  | none ↦ none
  | some v ↦ elim (parse_int v) [ none ↦ none | some n ↦ some (int32 n) ]
]

unfoldable pub get_desired_replicas_annotation : MachineSet → Option ℤ
unfolding get_int_from_annotation
get_desired_replicas_annotation ms = get_int_from_annotation ms desired_replicas_annotation

unfoldable pub get_max_replicas_annotation : MachineSet → Option ℤ
unfolding get_int_from_annotation
get_max_replicas_annotation ms = get_int_from_annotation ms max_replicas_annotation

unfoldable pub set_replicas_annotations : MachineSet → ℤ → ℤ → MachineSet × Bool
unfolding set_if_changed format_int
set_replicas_annotations ms desired max =
    let (m, updated) = set_if_changed max_replicas_annotation (format_int max) (
      set_if_changed desired_replicas_annotation (format_int desired)
        (made ms.annotations, false)) in
    (with_annotations ms m, updated)

-- `m` is a map that is not nil.
abbrev replicas_annotations_differ : Labels → ℤ → ℤ → Bool
replicas_annotations_differ m desired max =
    if not (text_eq (value_at desired_replicas_annotation m) (format_int desired))
    then true
    else not (text_eq (value_at max_replicas_annotation m) (format_int max))

unfoldable pub replicas_annotations_need_update : MachineSet → ℤ → ℤ → Bool
unfolding value_at text_eq format_int
replicas_annotations_need_update ms desired max = elim ms.annotations [
  | none ↦ true
  | some m ↦ replicas_annotations_differ m desired max
]

-- `strconv.ParseInt` on the revision annotation; `none` is its error.
unfoldable pub revision : MachineSet → Option ℤ
unfolding parse_int
revision ms = elim (lookup revision_annotation (made ms.annotations)) [
  | none ↦ some (pos 0)
  | some v ↦ parse_int v
]

abbrev newer_revision : ℤ → Option ℤ → ℤ
newer_revision max none = max
newer_revision max (some v) = if ltb_ℤ max v then v else max

-- The loop of `MaxRevision`.
unfoldable pub max_revision_from : ℤ → List MachineSet → ℤ
unfolding revision
max_revision_from max [] = max
max_revision_from max (ms ∷ rest) = max_revision_from (newer_revision max (revision ms)) rest

unfoldable pub max_revision : List MachineSet → ℤ
unfolding max_revision_from
max_revision = max_revision_from (pos 0)

-- `strings.Split(s, ",")`: the piece being read stands reversed in front.
abbrev pub comma : ℕ
comma = b','

unfoldable pub split_comma : Text → List Text
split_comma [] = [] ∷ []
split_comma (c ∷ s) = elim (split_comma s) [
  | [] ↦ (c ∷ []) ∷ []
  | piece ∷ pieces ↦ if c == comma then [] ∷ piece ∷ pieces else (c ∷ piece) ∷ pieces
]

-- `strings.Join(pieces, ",")`
unfoldable pub join_comma : List Text → Text
join_comma [] = []
join_comma (piece ∷ []) = piece
join_comma (piece ∷ next ∷ rest) = piece ++ comma ∷ join_comma (next ∷ rest)

-- `len(oldRevisions[0]) == 0`; `strings.Split` never gives an empty list.
abbrev first_is_empty : List Text → Bool
first_is_empty [] = true
first_is_empty ([] ∷ rest) = true
first_is_empty ((c ∷ piece) ∷ rest) = false

-- The revision history with one more revision.
unfoldable pub extended_history : Text → Text → Text
unfolding split_comma join_comma
extended_history history old =
    if first_is_empty (split_comma history)
    then old
    else join_comma (split_comma history ++ old ∷ [])

-- The part of `SetNewMachineSetAnnotations` from the comparison of the revisions to the history.
unfoldable pub update_revision : Labels × Bool → Option Text → ℤ → ℤ → Text → Labels × Bool
unfolding extended_history value_at
update_revision (m, changed) old_revision old_int new_int new_revision =
    let bumped : Labels × Bool =
      if ltb_ℤ old_int new_int
      then (insert revision_annotation new_revision m, true)
      else (m, changed) in
    elim old_revision [
      | none ↦ bumped
      | some old ↦
          if bumped.1
          then (
            insert revision_history_annotation
                (extended_history (value_at revision_history_annotation bumped.0) old) bumped.0,
            true,
          )
          else bumped
    ]

abbrev text_of : Option Text → Text
text_of none = []
text_of (some v) = v

-- The old revision as a number: 0 where the annotation is missing or empty, `none` where the
-- function gives up.
unfoldable pub old_revision_value : Option Text → Option ℤ
unfolding parse_int text_eq
old_revision_value old = elim (parse_int (text_of old)) [
  | some n ↦ some n
  | none ↦ if text_eq (text_of old) [] then some (pos 0) else none
]

-- `exists` is the flag of the source; `surge` is `MaxSurge(*deployment)`, which is read only for a
-- set that does not exist yet.
unfoldable pub set_new_machine_set_annotations :
    MachineDeployment → MachineSet → Text → Bool → Result ℤ → Result (MachineSet × Bool)
unfolding copy_deployment_annotations_to_machine_set old_revision_value update_revision
    set_replicas_annotations parse_int
set_new_machine_set_annotations d ms new_revision exists surge =
    let (copied, changed) = copy_deployment_annotations_to_machine_set d ms in
    let m = made copied.annotations in
    let old = lookup revision_annotation m in
    elim (old_revision_value old) [
      | none ↦ ok (copied, false)
      | some old_int ↦ elim (parse_int new_revision) [
        | none ↦ ok (copied, false)
        | some new_int ↦
            let (m', changed') = update_revision (m, changed) old old_int new_int new_revision in
            let updated = with_annotations copied m' in
            if exists then ok (updated, changed') else do
              r ← deref d.spec_replicas
              s ← surge
              let (annotated, set) = set_replicas_annotations updated r (add32 r s)
              ok (annotated, changed' || set)
      ]
    ]

unfoldable pub clone_and_add_label : Option Labels → String → Text → Option Labels
clone_and_add_label labels key value =
    if str_eq key "" then labels else some (insert key value (read_map labels))

unfoldable pub clone_selector_and_add_label : LabelSelector → String → Text → LabelSelector
clone_selector_and_add_label selector key value =
    if str_eq key ""
    then selector
    else record selector { match_labels = insert key value selector.match_labels }
