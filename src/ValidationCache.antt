-- ===== src/ValidationCache.antt =====
-- The cache of validations: pkg/cloudprovider/cache/cloudprovidercache.go and
-- pkg/cloudprovider/validationwrapper.go.
pub mod Transparent
use machine_controller_k0s.Prelude.{◌≡◌, ◌⊎◌, List, [], ◌∷◌, Option, none, some}
use machine_controller_k0s.Prelude.Decimal.{Text}
use machine_controller_k0s.Api.{Error, message, Result, ok, err}
use machine_controller_k0s.Objects.{MachineSpec}

-- go-cache, with the results of validations as its values; `age` is the passing of time, in which
-- entries expire.
pub record Cache : Type 1 where
  pub Store : Type 0
  pub get : Text → Store → Option (Option Error)
  pub set : Text → Option Error → Store → Store
  pub age : Store → Store
  pub get_set :
      (id other : Text) (value found : Option Error) (s : Store)
      → get other (set id value s) ≡ some found
      → ((id ≡ other) × (value ≡ found)) ⊎ (get other s ≡ some found)
  pub get_age :
      (id : Text) (found : Option Error) (s : Store)
      → get id (age s) ≡ some found
      → get id s ≡ some found

-- `json.Marshal` of the provider spec, and SHA-256 as the text of its bytes.
pub record Hash : Type 0 where
  pub marshal : Text → Result Text
  pub sum256 : Text → Text

module _ (k : Cache) (h : Hash) where
  unfoldable pub get_id : MachineSpec → Result Text
  get_id spec = elim (h.marshal spec.provider_spec) [
    | err e ↦ err (message "failed to marshal MachineSpec")
    | ok b ↦ ok (h.sum256 b)
  ]

  -- `none` is a miss.
  unfoldable pub get_cached : MachineSpec → k.Store → Result (Option (Option Error))
  unfolding get_id
  get_cached spec s = elim (get_id spec) [ err e ↦ err e | ok id ↦ ok (k.get id s) ]

  unfoldable pub set_cached : MachineSpec → Option Error → k.Store → Result {0} Unit × k.Store
  unfolding get_id
  set_cached spec value s = elim (get_id spec) [
    | err e ↦ (err e, s)
    | ok id ↦ (ok tt, k.set id value s)
  ]

  -- `validate` is the provider's own; a result `none` is a valid spec.
  module _ (validate : MachineSpec → Option Error) where
    unfoldable pub validate_cached : MachineSpec → k.Store → Option Error × k.Store
    unfolding get_cached set_cached
    validate_cached spec s = elim (get_cached spec s) [
      | err e ↦ (some (message "error getting validation result from cache"), s)
      | ok (some found) ↦ (found, s)
      | ok none ↦
          let (stored, s') = set_cached spec (validate spec) s in
          elim stored [
            | err e ↦ (some (message "failed to set cache after validation"), s')
            | ok u ↦ (validate spec, s')
          ]
    ]

    -- Validations one after the other, with time passing between them.
    unfoldable pub validate_each : List MachineSpec → k.Store → List (Option Error)
    unfolding validate_cached
    validate_each [] s = []
    validate_each (spec ∷ specs) s =
        let (result, s') = validate_cached spec s in result ∷ validate_each specs (k.age s')

    -- What is promised: the provider's result, unless the provider spec cannot be marshalled.
    abbrev pub promised : MachineSpec → Option Error
    promised spec = elim (h.marshal spec.provider_spec) [
      | err e ↦ some (message "error getting validation result from cache")
      | ok b ↦ validate spec
    ]
