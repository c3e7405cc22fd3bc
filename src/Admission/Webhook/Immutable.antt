-- ===== src/Admission/Webhook/Immutable.antt =====
-- The spec of a machine does not change: pkg/admission/machines.go.
use machine_controller_k0s.Prelude.{
  Option-cases, ◌≡◌, ◌≢◌, sym, ap, ◌∙◌, ◌⊎◌, inl, inr, none, true, arith, lookup, lookup-delete,
  str_eq_refl,
}
use machine_controller_k0s.Api.{Error, Result, ok, err, Result-cases}
use machine_controller_k0s.Objects.{read_map, Machine}
use machine_controller_k0s.Admission.Webhook.{
  bypass_annotation, update, Review, Surroundings, renamed, is_bypassed, check_update, with_name,
  admitted, mutate_machines,
}

module _ (w : Surroundings) where
  check_update_ok :
      (m old : Machine)
      → check_update w m (ok old) ≡ ok tt
      → (is_bypassed m ≡ true) ⊎ (w.same_spec m.spec (renamed old m) ≡ true)
  unfolding check_update
  check_update_ok m old h = ground arith

  -- What an update was admitted with.
  abbrev pub IsUnchanged : Review Machine → Machine → Type 0
  IsUnchanged r result =
      (m : Machine) × (old : Machine) × (r.object ≡ ok m)
      × (r.old_object ≡ ok old)
      × ((is_bypassed m ≡ true) ⊎ (w.same_spec m.spec (renamed old m) ≡ true))
      × (result.spec ≡ with_name m.name m.spec)
      × (lookup bypass_annotation (read_map result.annotations) ≡ none)

  bypass_deleted :
      (m : Machine) → lookup bypass_annotation (read_map (admitted m).annotations) ≡ none
  unfolding lookup
  bypass_deleted m = elim (Option-cases m.annotations) [
    | inl e ↦ ground (arith, e)
    | inr (l, e) ↦ ground (
      arith,
      e,
      lookup-delete bypass_annotation bypass_annotation l,
      str_eq_refl bypass_annotation,
    )
  ]

  update_admitted :
      (r : Review Machine) (m result : Machine)
      → r.operation ≡ update
      → r.object ≡ ok m
      → mutate_machines w r ≡ ok result
      → (result ≡ admitted m) × (check_update w m r.old_object ≡ ok tt)
  unfolding mutate_machines
  update_admitted r m result e f h = ground arith

  unread :
      (r : Review Machine) (why : Error) (result : Machine)
      → r.object ≡ err why
      → mutate_machines w r ≢ ok result
  unfolding mutate_machines
  unread r why result f h = ground arith

  old_unread :
      (m : Machine) (r : Result Machine) (why : Error) → r ≡ err why → check_update w m r ≢ ok tt
  unfolding check_update
  old_unread m r why e h = ground arith

  -- An update of a machine that the webhook admits leaves its spec semantically as it was, but for
  -- the name of the machine, which may take the place of an empty or another name in the spec;
  -- or the machine has the annotation for the bypass, which the admitted machine never has.
  pub mutate_machines-IsUnchanged :
      (r : Review Machine) (result : Machine)
      → r.operation ≡ update
      → mutate_machines w r ≡ ok result
      → IsUnchanged r result
  mutate_machines-IsUnchanged r result e h = elim (Result-cases r.object) [
    | inr (why, f) ↦ absurd (unread r why result f h)
    | inl (m, f) ↦
        let (same, checked) = update_admitted r m result e f h in
        elim (Result-cases r.old_object) [
          | inr (why, g) ↦ absurd (old_unread m r.old_object why g checked)
          | inl (old, g) ↦ (
            m,
            old,
            f,
            g,
            check_update_ok m old (ap (λ o. check_update w m o) (sym g) ∙ checked),
            ap (λ (k : Machine). k.spec) same,
            ap (λ (k : Machine). lookup bypass_annotation (read_map k.annotations)) same
                ∙ bypass_deleted m,
          )
        ]
  ]
