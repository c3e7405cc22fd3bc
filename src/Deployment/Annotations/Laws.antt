-- ===== src/Deployment/Annotations/Laws.antt =====
-- The annotations read back: pkg/controller/machinedeployment/util/util.go.
use machine_controller_k0s.Prelude.{
  ℕ, ◌≤◌, ◌<◌, ◌≡◌, refl, sym, ap, ◌∙◌, inl, inr, List, [], ◌∷◌, ◌++◌, Option, none, some, Bool,
  true, false, arith, String, str_eq, str_eq_refl, lookup, lookup-insert, ◌==◌, if◌then◌else◌,
  Bool-cases, All,
}
use machine_controller_k0s.Prelude.Int.{ℤ, pos, pos_part, neg_part, Fits, int32_of_Fits, ◌≤ℤ◌}
use machine_controller_k0s.Prelude.Decimal.{
  Text, text_eq_iff, text_eq_refl, format_int, parse_int-format_int, format_int-cons,
}
use mathlib.Core.List.{append_assoc}
use text.Mathlib.TextEquality.{eq_iff}
use machine_controller_k0s.Objects.{Labels, MachineSet, MachineDeployment, value_at}
use machine_controller_k0s.Deployment.Annotations.{
  desired_replicas_annotation, max_replicas_annotation, skip_copy_annotation, made,
  with_annotations, set_if_changed, copy_annotations, copy_deployment_annotations_to_machine_set,
  get_int_from_annotation, get_desired_replicas_annotation, get_max_replicas_annotation,
  set_replicas_annotations, replicas_annotations_need_update, comma, split_comma, join_comma,
  first_is_empty, extended_history, revision, newer_revision, max_revision_from, max_revision,
}

value_at-lookup : (k : String) (m : Labels) (v : Text) → lookup k m ≡ some v → value_at k m ≡ v
unfolding value_at
value_at-lookup k m v e = rw (e, value_at)

-- The key is written only where its value differs; it reads back either way, if `v` is not empty.
lookup-set_if_changed :
    (k : String) (c : ℕ) (v : Text) (m : Labels) (b : Bool)
    → lookup k (set_if_changed k (c ∷ v) (m, b)).0 ≡ some (c ∷ v)
unfolding set_if_changed value_at
lookup-set_if_changed k c v m b =
    ground (arith, text_eq_iff (value_at k m) (c ∷ v), lookup-insert k k (c ∷ v) m, str_eq_refl k)

-- Another key keeps its value.
lookup-set_if_changed_other :
    (k j : String) (v : Text) (m : Labels) (b : Bool)
    → str_eq k j ≡ false
    → lookup j (set_if_changed k v (m, b)).0 ≡ lookup j m
unfolding set_if_changed
lookup-set_if_changed_other k j v m b other = ground (arith, lookup-insert k j v m)

-- One number written over another under an annotation of its own: both read back.
module _ (m : Labels) (b : Bool) (desired max : ℤ) where
  abbrev once : Labels × Bool
  once = set_if_changed desired_replicas_annotation (format_int desired) (m, b)

  abbrev twice : Labels × Bool
  twice = set_if_changed max_replicas_annotation (format_int max) once

  twice-max : lookup max_replicas_annotation twice.0 ≡ some (format_int max)
  twice-max =
      let (c, v, e) = format_int-cons max in
      rw e (lookup-set_if_changed max_replicas_annotation c v once.0 once.1)

  twice-desired : lookup desired_replicas_annotation twice.0 ≡ some (format_int desired)
  twice-desired =
      let (c, v, e) = format_int-cons desired in
      lookup-set_if_changed_other max_replicas_annotation desired_replicas_annotation
        (format_int max) once.0 once.1 refl
      ∙ rw e (lookup-set_if_changed desired_replicas_annotation c v m b)

abbrev In64 : ℤ → Type 0
In64 a = (pos_part a < 9223372036854775808) × (neg_part a ≤ 9223372036854775808)

read_back :
    (ms : MachineSet) (key : String) (a : ℤ)
    → Fits a
    → lookup key (made ms.annotations) ≡ some (format_int a)
    → get_int_from_annotation ms key ≡ some a
unfolding get_int_from_annotation
read_back ms key a fits e =
    let wide : In64 a = (omega arith, omega arith) in
    rw (e, get_int_from_annotation)
      (rw (parse_int-format_int a wide.0 wide.1) (ap (λ (b : ℤ). some b) (int32_of_Fits a fits)))

-- Once written, the two numbers read back as they were, and a second write is not needed.
pub get-set_replicas_annotations :
    (ms : MachineSet) (desired max : ℤ)
    → Fits desired
    → Fits max
    → let ms' = (set_replicas_annotations ms desired max).0 in
      (get_desired_replicas_annotation ms' ≡ some desired)
      × (get_max_replicas_annotation ms' ≡ some max)
      × (replicas_annotations_need_update ms' desired max ≡ false)
unfolding set_replicas_annotations get_desired_replicas_annotation get_max_replicas_annotation
    replicas_annotations_need_update
get-set_replicas_annotations ms desired max fd fm =
    let m = made ms.annotations in
    let ms' = with_annotations ms (twice m false desired max).0 in
    (
      read_back ms' desired_replicas_annotation desired fd (twice-desired m false desired max),
      read_back ms' max_replicas_annotation max fm (twice-max m false desired max),
      rw
          (value_at-lookup desired_replicas_annotation (twice m false desired max).0
            (format_int desired) (twice-desired m false desired max))
          (rw (text_eq_refl (format_int desired)) (
            rw
              (value_at-lookup max_replicas_annotation (twice m false desired max).0
                (format_int max) (twice-max m false desired max))
              (rw (text_eq_refl (format_int max)) refl))),
    )

-- `strings.Join` undoes `strings.Split`.
split_comma-cons :
    (s : Text) → (piece : Text) × (pieces : List Text) × (split_comma s ≡ piece ∷ pieces)
unfolding split_comma
split_comma-cons [] = ([], [], refl)
split_comma-cons (c ∷ s) =
    let (piece, pieces, e) = split_comma-cons s in
    elim (Bool-cases (c == comma)) [
      | inl yes_comma ↦ ([], piece ∷ pieces, rw (e, split_comma) (rw yes_comma refl))
      | inr no_comma ↦ (c ∷ piece, pieces, rw (e, split_comma) (rw no_comma refl))
    ]

join_comma-push :
    (c : ℕ) (piece : Text) (pieces : List Text)
    → join_comma ((c ∷ piece) ∷ pieces) ≡ c ∷ join_comma (piece ∷ pieces)
unfolding join_comma
join_comma-push c piece [] = refl
join_comma-push c piece (next ∷ rest) = refl

split_comma-step :
    (c : ℕ) (s piece : Text) (pieces : List Text)
    → split_comma s ≡ piece ∷ pieces
    → split_comma (c ∷ s) ≡ (if c == comma then [] ∷ piece ∷ pieces else (c ∷ piece) ∷ pieces)
unfolding split_comma
split_comma-step c s piece pieces e = rw (e, split_comma)

joined :
    (c : ℕ) (s piece : Text) (pieces : List Text)
    → join_comma (piece ∷ pieces) ≡ s
    → join_comma (if c == comma then [] ∷ piece ∷ pieces else (c ∷ piece) ∷ pieces) ≡ c ∷ s
joined c s piece pieces ih = elim (Bool-cases (c == comma)) [
  | inl here ↦ rw here (unfold join_comma in ground arith)
  | inr not_here ↦ rw not_here (rw (join_comma-push c piece pieces) (cc ih))
]

pub join_comma-split_comma : (s : Text) → join_comma (split_comma s) ≡ s
unfolding split_comma join_comma
join_comma-split_comma [] = refl
join_comma-split_comma (c ∷ s) =
    let (piece, pieces, e) = split_comma-cons s in
    ap join_comma (split_comma-step c s piece pieces e)
    ∙ joined c s piece pieces (ap join_comma (sym e) ∙ join_comma-split_comma s)

join_comma-append :
    (piece : Text) (pieces : List Text) (last : Text)
    → join_comma ((piece ∷ pieces) ++ last ∷ []) ≡ join_comma (piece ∷ pieces) ++ comma ∷ last
unfolding join_comma
join_comma-append piece [] last = refl
join_comma-append piece (next ∷ rest) last =
    ap (λ (t : Text). piece ++ comma ∷ t) (join_comma-append next rest last)
    ∙ sym (append_assoc piece (comma ∷ join_comma (next ∷ rest)) (comma ∷ last))

join_comma-split_comma_append :
    (s last : Text) → join_comma (split_comma s ++ last ∷ []) ≡ s ++ comma ∷ last
join_comma-split_comma_append s last =
    let (piece, pieces, e) = split_comma-cons s in
    rw e (join_comma-append piece pieces last)
    ∙ ap (λ (t : Text). t ++ comma ∷ last) (ap join_comma (sym e) ∙ join_comma-split_comma s)

first_is_empty_iff : (c : ℕ) (s : Text) → first_is_empty (split_comma (c ∷ s)) ≡ (c == comma)
unfolding split_comma
first_is_empty_iff c s =
    let (piece, pieces, e) = split_comma-cons s in
    rw (split_comma-step c s piece pieces e) (ground arith)

-- The history grows by one revision at its end: the first revision stands alone, and a history that
-- does not begin with a comma keeps all that it holds.
pub extended_history_lem :
    (c : ℕ) (history old : Text)
    → (extended_history [] old ≡ old)
      × ((c == comma) ≡ false → extended_history (c ∷ history) old ≡ (c ∷ history) ++ comma ∷ old)
unfolding extended_history
extended_history_lem c history old = (
  refl,
  λ h. rw (first_is_empty_iff c history) (rw h (join_comma-split_comma_append (c ∷ history) old)),
)

skipped_differs :
    (k key : String)
    → skip_copy_annotation k ≡ false
    → skip_copy_annotation key ≡ true
    → str_eq k key ≡ false
skipped_differs k key copied skipped = elim (Bool-cases (str_eq k key)) [
  | inl same ↦ cc ((eq_iff k key).0 same)
  | inr different ↦ different
]

copy_annotations-lookup :
    (key : String) (from m : Labels) (b : Bool)
    → skip_copy_annotation key ≡ true
    → lookup key (copy_annotations from (m, b)).0 ≡ lookup key m
unfolding copy_annotations
copy_annotations-lookup key [] m b h = refl
copy_annotations-lookup key ((k, v) ∷ rest) m b h = elim (Bool-cases (skip_copy_annotation k)) [
  | inl skipped ↦ rw (skipped, copy_annotations) (copy_annotations-lookup key rest m b h)
  | inr copied ↦
      rw (copied, copy_annotations)
        (copy_annotations-lookup key rest (set_if_changed k v (m, b)).0
            (set_if_changed k v (m, b)).1 h
          ∙ lookup-set_if_changed_other k key v m b (skipped_differs k key copied h))
]

abbrev pub IsBelow : Option ℤ → ℤ → Type 0
IsBelow none max = Unit
IsBelow (some v) max = v ≤ℤ max

max_revision_from-le : (max : ℤ) (mss : List MachineSet) → max ≤ℤ max_revision_from max mss
unfolding max_revision_from
max_revision_from-le max [] = omega arith
max_revision_from-le max (ms ∷ rest) =
    ground (arith, max_revision_from-le (newer_revision max (revision ms)) rest)

max_revision_from-above :
    (max : ℤ) (mss : List MachineSet)
    → All (λ ms. IsBelow (revision ms) (max_revision_from max mss)) mss
unfolding max_revision_from
max_revision_from-above max [] = tt
max_revision_from-above max (ms ∷ rest) = (
  ground (arith, max_revision_from-le (newer_revision max (revision ms)) rest),
  max_revision_from-above (newer_revision max (revision ms)) rest,
)

-- The highest revision is at least the revision of each set whose annotation is a number or missing.
pub max_revision-above :
    (mss : List MachineSet) → All (λ ms. IsBelow (revision ms) (max_revision mss)) mss
unfolding max_revision
max_revision-above mss = max_revision_from-above (pos 0) mss

-- The copy from the deployment leaves the set's own annotations as they were: its revision and
-- history, the numbers of replicas, and the last applied configuration.
pub copy_deployment_annotations-lookup :
    (key : String) (d : MachineDeployment) (ms : MachineSet)
    → skip_copy_annotation key ≡ true
    → lookup key (made (copy_deployment_annotations_to_machine_set d ms).0.annotations)
      ≡ lookup key (made ms.annotations)
unfolding copy_deployment_annotations_to_machine_set
copy_deployment_annotations-lookup key d ms h =
    copy_annotations-lookup key (made d.annotations) (made ms.annotations) false h
