-- ===== src/Examples/Validation.antt =====
-- Three validations over a cache whose entries stay.
use machine_controller_k0s.Prelude.{
  ◌≡◌, sym, ap, ◌∙◌, inl, inr, ◌⊎◌, List, [], ◌∷◌, map, Option, none, some, arith, Bool-cases,
  if◌then◌else◌,
}
use machine_controller_k0s.Prelude.Decimal.{Text, codes, text_eq, text_eq_iff}
use machine_controller_k0s.Api.{Error, message, Result, ok}
use machine_controller_k0s.Objects.{MachineSpec}
use machine_controller_k0s.ValidationCache.{Cache, Hash, validate_each, promised}
use machine_controller_k0s.ValidationCache.Transparent.{IsHashed, IsSound, validate_each-promised}
use machine_controller_k0s.Examples.Base.{spec_of}

abbrev Entries : Type 0
Entries = List (Text × Option Error)

found_in : Text → Entries → Option (Option Error)
found_in id [] = none
found_in id (entry ∷ rest) =
    let later = found_in id rest in if text_eq entry.0 id then some entry.1 else later

found_in-cons :
    (id other : Text) (value found : Option Error) (s : Entries)
    → found_in other ((id, value) ∷ s) ≡ some found
    → ((id ≡ other) × (value ≡ found)) ⊎ (found_in other s ≡ some found)
unfolding found_in
found_in-cons id other value found s h = elim (Bool-cases (text_eq id other)) [
  | inl e ↦ inl ((text_eq_iff id other).0 e, ground (arith, h, e))
  | inr e ↦ inr (ground (arith, h, e))
]

kept :
    (id : Text) (found : Option Error) (s : Entries)
    → found_in id s ≡ some found
    → found_in id s ≡ some found
kept id found s h = h

entries : Cache
entries = record {
  Store = Entries;
  get = found_in;
  set = λ id value s. (id, value) ∷ s;
  age = λ s. s;
  get_set = found_in-cons;
  get_age = kept;
}

abbrev plain : Hash
plain = record { marshal = λ t. ok t; sum256 = λ t. t }

abbrev judged : Text → Option Error
judged [] = some (message "no provider spec")
judged (c ∷ t) = none

abbrev judge : MachineSpec → Option Error
judge spec = judged spec.provider_spec

same_text : (s t : Text) → ◌≡◌ {A = Result Text} (ok s) (ok t) → s ≡ t
same_text s t h = ground (arith, h)

judge-IsHashed : IsHashed plain judge
judge-IsHashed a b s t e f g =
    ap judged (same_text a.provider_spec s e ∙ g ∙ sym (same_text b.provider_spec t f))

empty : entries.Store
unfolding entries
empty = []

empty-IsSound : IsSound entries plain judge empty
unfolding entries empty found_in
empty-IsSound spec b found e g = ground (arith, g)

abbrev specs : List MachineSpec
specs = spec_of (codes "a") ∷ spec_of [] ∷ spec_of (codes "a") ∷ []

validate_each-promised_example :
    validate_each entries plain judge specs empty
    ≡ map (λ spec. promised entries plain judge spec) specs
validate_each-promised_example =
    validate_each-promised entries plain judge specs empty judge-IsHashed empty-IsSound
