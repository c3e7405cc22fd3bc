-- ===== src/Machines/Nodes/Apply.antt =====
-- What the changes of a node make of it: ensureNodeLabelsAnnotationsAndTaints of
-- pkg/controller/machine/machine.go.
use machine_controller_k0s.Prelude.{
  ◌≡◌, refl, sym, ap, ◌∙◌, inl, inr, List, [], ◌∷◌, ◌++◌, map, append_nil, append_assoc, Option,
  none, some, Bool-cases, Option-cases, if◌then◌else◌, String, str_eq, str_eq_iff, lookup, insert,
  lookup-insert, arith,
}
use machine_controller_k0s.Prelude.Decimal.{Text, text_eq}
use machine_controller_k0s.Api.{ok, err, Error, ◌>>=◌, Result-cases}
use machine_controller_k0s.Objects.{read_map, Machine, Node, Taint, Labels, value_at}
use machine_controller_k0s.Machines.Nodes.{
  Modifier, modify_all, set_label, set_annotation, add_taint, missing_entries, autoscaler_value,
  autoscaler_modifiers, annotation_autoscaler_identifier,
}

-- No key stands twice, as in a map.
abbrev pub IsMap : Labels → Type 0
IsMap [] = Unit
IsMap (entry ∷ rest) = (lookup entry.0 rest ≡ none) × IsMap rest

abbrev pub insert_all : Labels → Labels → Labels
insert_all [] base = base
insert_all (entry ∷ entries) base = insert_all entries (insert entry.0 entry.1 base)

-- The first value if there is one.
abbrev pub or_else : Option Text → Option Text → Option Text
or_else (some v) o = some v
or_else none o = o

-- What is there stays, and what is missing comes from the second.
abbrev pub kept_or : Option Text → Option Text → Option Text → Option Text
kept_or (some v) wanted base = base
kept_or none wanted base = or_else wanted base

pub lookup-insert_all :
    (k : String) (wanted present base : Labels)
    → IsMap wanted
    → lookup k (insert_all (missing_entries wanted present) base)
      ≡ kept_or (lookup k present) (lookup k wanted) (lookup k base)
unfolding missing_entries lookup
lookup-insert_all k [] present base h = ground arith
lookup-insert_all k ((a, v) ∷ wanted) present base h = elim (Option-cases (lookup a present)) [
  | inl e ↦ elim (Bool-cases (str_eq a k)) [
    | inl same ↦ ground (
      arith,
      lookup-insert_all k wanted present (insert a v base) h.1,
      lookup-insert a k v base,
      (str_eq_iff a k).0 same,
      same,
      h.0,
      e,
    )
    | inr differs ↦ ground (
      arith,
      lookup-insert_all k wanted present (insert a v base) h.1,
      lookup-insert a k v base,
      differs,
      e,
    )
  ]
  | inr (u, e) ↦ elim (Bool-cases (str_eq a k)) [
    | inl same ↦
        ground (
          arith,
          lookup-insert_all k wanted present base h.1,
          (str_eq_iff a k).0 same,
          same,
          h.0,
          e,
        )
    | inr differs ↦ ground (arith, lookup-insert_all k wanted present base h.1, differs, e)
  ]
]

pub modify_all-append :
    (xs ys : List Modifier) (n : Node)
    → modify_all (xs ++ ys) n ≡ modify_all xs n >>= (λ m. modify_all ys m)
unfolding modify_all
modify_all-append [] ys n = refl
modify_all-append (f ∷ xs) ys n = elim (Result-cases (f n)) [
  | inl (m, e) ↦ rw e (modify_all-append xs ys m)
  | inr (why, e) ↦ rw e refl
]

-- The node with other labels and annotations.
abbrev pub put : Option Labels → Option Labels → Node → Node
put labels annotations n = record n {
  meta = record n.meta { labels = labels; annotations = annotations };
}

pub modify_all-set_label :
    (entries l : Labels) (o : Option Labels) (n : Node)
    → modify_all (map (λ entry. set_label entry.0 entry.1) entries) (put (some l) o n)
      ≡ ok (put (some (insert_all entries l)) o n)
unfolding modify_all
modify_all-set_label [] l o n = refl
modify_all-set_label (entry ∷ entries) l o n =
    modify_all-set_label entries (insert entry.0 entry.1 l) o n

pub modify_all-set_annotation :
    (entries m : Labels) (o : Option Labels) (n : Node)
    → modify_all (map (λ entry. set_annotation entry.0 entry.1) entries) (put o (some m) n)
      ≡ ok (put o (some (insert_all entries m)) n)
unfolding modify_all
modify_all-set_annotation [] m o n = refl
modify_all-set_annotation (entry ∷ entries) m o n =
    modify_all-set_annotation entries (insert entry.0 entry.1 m) o n

pub modify_all-add_taint :
    (ts : List Taint) (n : Node)
    → modify_all (map (λ t. add_taint t) ts) n ≡ ok (record n { node_taints = n.node_taints ++ ts })
unfolding modify_all
modify_all-add_taint [] n =
    ap (λ l. ok (record n { node_taints = l })) (sym (append_nil n.node_taints))
modify_all-add_taint (t ∷ ts) n =
    modify_all-add_taint ts (record n { node_taints = n.node_taints ++ (t ∷ []) })
    ∙ ap (λ l. ok (record n { node_taints = l })) (append_assoc n.node_taints (t ∷ []) ts)

-- The identifier of the autoscaler, after the other annotations.
abbrev pub identified : Node → Machine → Labels → Labels
identified node machine m =
    if text_eq (value_at annotation_autoscaler_identifier (read_map node.annotations))
      (autoscaler_value machine)
    then m
    else insert annotation_autoscaler_identifier (autoscaler_value machine) m

pub modify_all-autoscaler :
    (node n : Node) (machine : Machine) (o : Option Labels) (m : Labels)
    → modify_all (autoscaler_modifiers node machine) (put o (some m) n)
      ≡ ok (put o (some (identified node machine m)) n)
unfolding modify_all autoscaler_modifiers
modify_all-autoscaler node n machine o m = ground arith

pub modify_then :
    (xs ys : List Modifier) (n m : Node)
    → modify_all xs n ≡ ok m
    → modify_all (xs ++ ys) n ≡ modify_all ys m
modify_then xs ys n m h = modify_all-append xs ys n ∙ ap (λ r. r >>= (λ k. modify_all ys k)) h

pub modify_fails :
    (xs ys : List Modifier) (n : Node) (e : Error)
    → modify_all xs n ≡ err e
    → modify_all (xs ++ ys) n ≡ err e
modify_fails xs ys n e h = modify_all-append xs ys n ∙ ap (λ r. r >>= (λ k. modify_all ys k)) h
