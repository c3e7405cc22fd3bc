-- ===== src/Machines/Nodes/Settings.antt =====
-- The labels, annotations and taints of a node: ensureNodeLabelsAnnotationsAndTaints of
-- pkg/controller/machine/machine.go.
use machine_controller_k0s.Prelude.{
  ◌≡◌, refl, sym, List, ap, ◌∙◌, ◌⊎◌, ◌≢◌, inl, inr, [], ◌∷◌, ◌++◌, map, Option, none, some, true,
  false, Bool-cases, Option-cases, String, str_eq, lookup, lookup-insert, arith,
}
use machine_controller_k0s.Prelude.Decimal.{Text, codes, text_eq, text_eq_iff}
use machine_controller_k0s.Api.{ok, err, panicked, ◌>>=◌}
use machine_controller_k0s.Objects.{read_map, Machine, Node, Labels, value_at}
use machine_controller_k0s.Machines.Update.{Client}
use machine_controller_k0s.Machines.Nodes.Apply.{
  IsMap, insert_all, or_else, modify_all-append, modify_then, put, modify_fails,
  modify_all-set_annotation, modify_all-autoscaler, modify_all-add_taint, identified,
}
use machine_controller_k0s.Machines.Nodes.{
  Modifier, modify_all, set_label, set_annotation, add_taint, missing_entries, missing_taints,
  autoscaler_value, autoscaler_modifiers, annotation_autoscaler_identifier, node_modifiers,
}
use machine_controller_k0s.Machines.Nodes.Kept.{Kept, insert_all-Kept, labels_written}

text_eq-nil_slash : (s t : Text) → text_eq [] (s ++ codes "/" ++ t) ≡ false
unfolding text_eq
text_eq-nil_slash [] t = refl
text_eq-nil_slash (c ∷ s) t = refl

-- Either the identifier is there, or it is written.
identifier_there :
    (machine : Machine) (m : Labels)
    → text_eq (value_at annotation_autoscaler_identifier m) (autoscaler_value machine) ≡ true
    → lookup annotation_autoscaler_identifier m ≡ some (autoscaler_value machine)
unfolding value_at
identifier_there machine m h = elim (Option-cases (lookup annotation_autoscaler_identifier m)) [
  | inl e ↦ ground (arith, text_eq-nil_slash machine.namespace machine.name, h, e)
  | inr (v, e) ↦ ground (arith, (text_eq_iff v (autoscaler_value machine)).0, h, e)
]

module _ (node : Node) (machine : Machine) where
  other_annotation :
      (k : String) (m : Labels)
      → str_eq annotation_autoscaler_identifier k ≡ false
      → lookup k (identified node machine m) ≡ lookup k m
  other_annotation k m differs = ground (
    arith,
    lookup-insert annotation_autoscaler_identifier k (autoscaler_value machine) m,
    differs,
  )

  identifier_set :
      (m : Labels)
      → (text_eq
              (value_at annotation_autoscaler_identifier (read_map node.annotations))
              (autoscaler_value machine)
            ≡ true
          → lookup annotation_autoscaler_identifier m ≡ some (autoscaler_value machine))
      → lookup annotation_autoscaler_identifier (identified node machine m)
        ≡ some (autoscaler_value machine)
  identifier_set m there =
      elim (Bool-cases (
        text_eq (value_at annotation_autoscaler_identifier (read_map node.annotations))
          (autoscaler_value machine))) [
            | inl e ↦ rw e (there e)
            | inr e ↦ rw e (
                lookup-insert annotation_autoscaler_identifier annotation_autoscaler_identifier
                  (autoscaler_value machine) m)
          ]

module _ (c : Client) (machine : Machine) where
  -- A node that has annotations, and labels unless the machine wants none, gets the settings.
  abbrev pub IsCompleted : Node → Type 0
  IsCompleted node =
      (m : Labels) × (after : Node) × (m' : Labels) × (modify_all (node_modifiers c node machine)
          node
        ≡ ok after)
      × (node.annotations ≡ some m)
      × ((node.labels ≢ none) ⊎ (machine.spec.spec_labels ≡ []))
      × (after.annotations ≡ some m')
      × Kept machine.spec.spec_labels (read_map node.labels) (read_map after.labels)
      × ((k : String)
          → (str_eq annotation_autoscaler_identifier k ≡ false)
          → lookup k m' ≡ or_else (lookup k m) (lookup k machine.spec.spec_annotations))
      × (lookup annotation_autoscaler_identifier m' ≡ some (autoscaler_value machine))
      × (after.node_taints
          ≡ node.node_taints ++ missing_taints c machine.spec.taints node.node_taints)

  -- A nil map that has to be written panics.
  abbrev pub IsUnwritable : Node → Type 0
  IsUnwritable node =
      (modify_all (node_modifiers c node machine) node ≡ err panicked)
      × ((node.annotations ≡ none) ⊎ ((node.labels ≡ none) × (machine.spec.spec_labels ≢ [])))

  module _ (node : Node) where
    abbrev set_labels : List Modifier
    set_labels =
        map (λ entry. set_label entry.0 entry.1)
          (missing_entries machine.spec.spec_labels (read_map node.labels))

    abbrev wanted_annotations : Labels
    wanted_annotations = missing_entries machine.spec.spec_annotations (read_map node.annotations)

    abbrev set_annotations : List Modifier
    set_annotations = map (λ entry. set_annotation entry.0 entry.1) wanted_annotations

    abbrev autoscaler : List Modifier
    autoscaler = autoscaler_modifiers node machine

    abbrev add_taints : List Modifier
    add_taints = map (λ t. add_taint t) (missing_taints c machine.spec.taints node.node_taints)

    -- What is made of the node once its labels are written.
    after_labels :
        (labels : Option Labels)
        → modify_all set_labels node ≡ ok (put labels node.annotations node)
        → modify_all (node_modifiers c node machine) node
          ≡ modify_all (set_annotations ++ autoscaler) (put labels node.annotations node)
            >>= (λ k. modify_all add_taints k)
    unfolding node_modifiers
    after_labels labels h =
        modify_all-append (set_labels ++ set_annotations ++ autoscaler) add_taints node
        ∙ ap (λ r. r >>= (λ k. modify_all add_taints k))
            (modify_all-append (set_labels ++ set_annotations) autoscaler node
              ∙ ap (λ r. r >>= (λ k. modify_all autoscaler k))
                  (modify_then set_labels set_annotations node (put labels node.annotations node) h)
              ∙ sym
                  (modify_all-append set_annotations autoscaler (put labels node.annotations node)))

    labels_panic :
        modify_all set_labels node ≡ err panicked
        → modify_all (node_modifiers c node machine) node ≡ err panicked
    unfolding node_modifiers
    labels_panic h =
        modify_fails (set_labels ++ set_annotations ++ autoscaler) add_taints node panicked (
          modify_fails (set_labels ++ set_annotations) autoscaler node panicked
            (modify_fails set_labels set_annotations node panicked h))

  -- A nil map of annotations is written for the identifier, if not before.
  annotations_panic :
      (entries : Labels) (labels : Option Labels) (base n : Node)
      → modify_all
          (map (λ entry. set_annotation entry.0 entry.1) entries
            ++ autoscaler_modifiers (put base.labels none base) machine)
          (put labels none n)
        ≡ err panicked
  unfolding modify_all autoscaler_modifiers value_at
  annotations_panic [] labels base n =
      ground (arith, text_eq-nil_slash machine.namespace machine.name)
  annotations_panic (entry ∷ entries) labels base n = refl

  annotated-IsCompleted :
      (m : Labels) (labels : Option Labels) (base : Node)
      → IsMap machine.spec.spec_annotations
      → let node = put base.labels (some m) base in
        modify_all (set_labels node) node ≡ ok (put labels (some m) node)
        → Kept machine.spec.spec_labels (read_map node.labels) (read_map labels)
        → (node.labels ≢ none) ⊎ (machine.spec.spec_labels ≡ [])
        → IsCompleted node
  annotated-IsCompleted m labels base mapped h kept given =
      let node = put base.labels (some m) base in
      let merged = insert_all (wanted_annotations node) m in
      let final = put labels (some (identified node machine merged)) node in
      (
        m,
        record final {
          node_taints = node.node_taints ++ missing_taints c machine.spec.taints node.node_taints;
        },
        identified node machine merged,
        after_labels node labels h
            ∙ ap (λ r. r >>= (λ k. modify_all (add_taints node) k))
                (modify_then (set_annotations node) (autoscaler node) (put labels (some m) node)
                    (put labels (some merged) node)
                    (modify_all-set_annotation (wanted_annotations node) m labels node)
                  ∙ modify_all-autoscaler node node machine labels merged)
            ∙ modify_all-add_taint (missing_taints c machine.spec.taints node.node_taints) final,
        refl,
        given,
        refl,
        kept,
        (λ k differs.
            other_annotation node machine k merged differs
            ∙ insert_all-Kept machine.spec.spec_annotations m mapped k),
        identifier_set node machine merged (λ e.
            insert_all-Kept machine.spec.spec_annotations m mapped annotation_autoscaler_identifier
            ∙ ap
                (λ o.
                  or_else o (lookup annotation_autoscaler_identifier machine.spec.spec_annotations))
                (identifier_there machine m e)),
        refl,
      )

  settled :
      (annotations : Option Labels) (base : Node)
      → IsMap machine.spec.spec_labels
      → IsMap machine.spec.spec_annotations
      → let node = put base.labels annotations base in IsUnwritable node ⊎ IsCompleted node
  settled none base maps mapped =
      let node = put base.labels none base in
      elim (labels_written machine.spec.spec_labels base.labels none base maps) [
        | inr (panics, unset, wants) ↦ inl (labels_panic node panics, inl refl)
        | inl (labels, written, kept, given) ↦ inl (
          after_labels node labels written
              ∙ ap (λ r. r >>= (λ k. modify_all (add_taints node) k))
                  (annotations_panic (wanted_annotations node) labels base node),
          inl refl,
        )
      ]
  settled (some m) base maps mapped =
      let node = put base.labels (some m) base in
      elim (labels_written machine.spec.spec_labels base.labels (some m) base maps) [
        | inr (panics, unset, wants) ↦ inl (labels_panic node panics, inr (unset, wants))
        | inl (labels, written, kept, given) ↦
            inr (annotated-IsCompleted m labels base mapped written kept given)
      ]

  pub node_modifiers-IsSettled :
      (node : Node)
      → IsMap machine.spec.spec_labels
      → IsMap machine.spec.spec_annotations
      → IsUnwritable node ⊎ IsCompleted node
  node_modifiers-IsSettled node maps mapped = settled node.annotations node maps mapped
