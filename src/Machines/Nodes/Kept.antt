-- ===== src/Machines/Nodes/Kept.antt =====
-- The labels that a node keeps and those that it gets: ensureNodeLabelsAnnotationsAndTaints of
-- pkg/controller/machine/machine.go.
use machine_controller_k0s.Prelude.{
  ◌≡◌, refl, ◌∙◌, ◌⊎◌, ◌≢◌, inl, inr, [], ◌∷◌, map, Option, none, some, String, lookup,
}
use machine_controller_k0s.Prelude.Decimal.{Text}
use machine_controller_k0s.Api.{ok, err, panicked}
use machine_controller_k0s.Objects.{read_map, Node, Labels}
use machine_controller_k0s.Machines.Nodes.Apply.{
  IsMap, insert_all, or_else, kept_or, lookup-insert_all, modify_all-set_label, put,
}
use machine_controller_k0s.Machines.Nodes.{modify_all, set_label, missing_entries}

-- Left as it is where the node has it, and otherwise the machine's.
abbrev pub Kept : Labels → Labels → Labels → Type 0
Kept wanted present after =
    (k : String) → lookup k after ≡ or_else (lookup k present) (lookup k wanted)

kept_or_itself :
    (present wanted : Option Text) → kept_or present wanted present ≡ or_else present wanted
kept_or_itself none none = refl
kept_or_itself none (some v) = refl
kept_or_itself (some u) wanted = refl

pub insert_all-Kept :
    (wanted present : Labels)
    → IsMap wanted
    → Kept wanted present (insert_all (missing_entries wanted present) present)
insert_all-Kept wanted present h k =
    lookup-insert_all k wanted present present h
    ∙ kept_or_itself (lookup k present) (lookup k wanted)

no_entries-Kept : Kept [] [] []
unfolding lookup
no_entries-Kept k = refl

-- The labels that a machine wants on a node are written, or a nil map panics at the first one.
pub labels_written :
    (wanted : Labels) (labels annotations : Option Labels) (n : Node)
    → IsMap wanted
    → let setters =
        map (λ entry. set_label entry.0 entry.1) (missing_entries wanted (read_map labels)) in
      ((after : Option Labels) × (modify_all setters (put labels annotations n)
          ≡ ok (put after annotations n))
        × Kept wanted (read_map labels) (read_map after)
        × ((labels ≢ none) ⊎ (wanted ≡ [])))
      ⊎ ((modify_all setters (put labels annotations n) ≡ err panicked)
          × (labels ≡ none)
          × (wanted ≢ []))
unfolding modify_all missing_entries lookup
labels_written [] none annotations n h = inl (none, refl, no_entries-Kept, inr refl)
labels_written (entry ∷ wanted) none annotations n h = inr (refl, refl, λ e. cc)
labels_written wanted (some l) annotations n h = inl (
  some (insert_all (missing_entries wanted l) l),
  modify_all-set_label (missing_entries wanted l) l annotations n,
  insert_all-Kept wanted l h,
  inl (λ e. cc),
)
