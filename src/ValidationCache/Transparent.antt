-- ===== src/ValidationCache/Transparent.antt =====
-- The cache does not change the results: pkg/cloudprovider/validationwrapper.go.
use machine_controller_k0s.Prelude.{
  ◌≡◌, refl, sym, ap, ◌∙◌, inl, inr, List, [], ◌∷◌, map, Option, none, some, Option-cases, arith,
}
use machine_controller_k0s.Prelude.Decimal.{Text}
use machine_controller_k0s.Api.{Error, ok, err, Result-cases}
use machine_controller_k0s.Objects.{MachineSpec}
use machine_controller_k0s.ValidationCache.{
  Cache, Hash, get_id, get_cached, set_cached, validate_cached, validate_each, promised,
}

-- Specs with the same hash have the same validation: the hash has no collisions, and the provider
-- looks at nothing but the provider spec.
abbrev pub IsHashed : Hash → (MachineSpec → Option Error) → Type 0
IsHashed h validate =
    (a b : MachineSpec) (s t : Text)
    → h.marshal a.provider_spec ≡ ok s
    → h.marshal b.provider_spec ≡ ok t
    → h.sum256 s ≡ h.sum256 t
    → validate a ≡ validate b

module _ (k : Cache) (h : Hash) (validate : MachineSpec → Option Error) where
  -- Every entry is the validation of the specs that it is found for.
  abbrev pub IsSound : k.Store → Type 0
  IsSound s =
      (spec : MachineSpec) (b : Text) (found : Option Error)
      → h.marshal spec.provider_spec ≡ ok b
      → k.get (h.sum256 b) s ≡ some found
      → found ≡ validate spec

  set-IsSound :
      (spec : MachineSpec) (b : Text) (s : k.Store)
      → IsHashed h validate
      → h.marshal spec.provider_spec ≡ ok b
      → IsSound s
      → IsSound (k.set (h.sum256 b) (validate spec) s)
  set-IsSound spec b s hashed e sound other c found f g =
      elim (k.get_set (h.sum256 b) (h.sum256 c) (validate spec) found s g) [
        | inl (same, value) ↦ sym value ∙ hashed spec other b c e f same
        | inr before ↦ sound other c found f before
      ]

  age-IsSound : (s : k.Store) → IsSound s → IsSound (k.age s)
  age-IsSound s sound spec b found e g = sound spec b found e (k.get_age (h.sum256 b) found s g)

  unmarshalled :
      (spec : MachineSpec) (s : k.Store) (why : Error)
      → h.marshal spec.provider_spec ≡ err why
      → validate_cached k h validate spec s ≡ (promised k h validate spec, s)
  unfolding validate_cached get_cached get_id
  unmarshalled spec s why e = ground arith

  hit :
      (spec : MachineSpec) (s : k.Store) (b : Text) (found : Option Error)
      → h.marshal spec.provider_spec ≡ ok b
      → k.get (h.sum256 b) s ≡ some found
      → validate_cached k h validate spec s ≡ (found, s)
  unfolding validate_cached get_cached get_id
  hit spec s b found e g = ground arith

  miss :
      (spec : MachineSpec) (s : k.Store) (b : Text)
      → h.marshal spec.provider_spec ≡ ok b
      → k.get (h.sum256 b) s ≡ none
      → validate_cached k h validate spec s ≡ (validate spec, k.set (h.sum256 b) (validate spec) s)
  unfolding validate_cached get_cached set_cached get_id
  miss spec s b e g = ground arith

  promised_ok :
      (spec : MachineSpec) (b : Text)
      → h.marshal spec.provider_spec ≡ ok b
      → promised k h validate spec ≡ validate spec
  promised_ok spec b e = ground arith

  validate_cached-IsSound :
      (spec : MachineSpec) (s : k.Store)
      → IsHashed h validate
      → IsSound s
      → ((validate_cached k h validate spec s).0 ≡ promised k h validate spec)
        × IsSound (validate_cached k h validate spec s).1
  validate_cached-IsSound spec s hashed sound = elim (Result-cases (h.marshal spec.provider_spec)) [
    | inr (why, e) ↦ rw (unmarshalled spec s why e) (refl, sound)
    | inl (b, e) ↦ elim (Option-cases (k.get (h.sum256 b) s)) [
      | inr (found, g) ↦
          rw (hit spec s b found e g) (sound spec b found e g ∙ sym (promised_ok spec b e), sound)
      | inl g ↦
          rw (miss spec s b e g) (sym (promised_ok spec b e), set-IsSound spec b s hashed e sound)
    ]
  ]

  -- From a cache without wrong entries, such as an empty one, any sequence of validations gives what
  -- the provider gives without the cache, with an error where a spec cannot be marshalled, as long as
  -- specs with the same hash have the same validation.
  pub validate_each-promised :
      (specs : List MachineSpec) (s : k.Store)
      → IsHashed h validate
      → IsSound s
      → validate_each k h validate specs s ≡ map (λ spec. promised k h validate spec) specs
  unfolding validate_each
  validate_each-promised [] s hashed sound = refl
  validate_each-promised (spec ∷ specs) s hashed sound =
      let (same, kept) = validate_cached-IsSound spec s hashed sound in
      ap (λ r. r ∷ validate_each k h validate specs (k.age (validate_cached k h validate spec s).1))
        same
      ∙ ap (λ l. promised k h validate spec ∷ l)
          (validate_each-promised specs (k.age (validate_cached k h validate spec s).1) hashed
            (age-IsSound (validate_cached k h validate spec s).1 kept))
