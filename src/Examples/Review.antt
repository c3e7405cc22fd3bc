-- ===== src/Examples/Review.antt =====
-- An update of a machine that changes its labels alone.
use machine_controller_k0s.Prelude.{some, ◌≡◌, refl, [], ◌∷◌, none, true}
use machine_controller_k0s.Prelude.Decimal.{codes, text_eq}
use machine_controller_k0s.Api.{ok}
use machine_controller_k0s.Objects.{Machine, value_at}
use machine_controller_k0s.Admission.Webhook.{
  update, Review, Surroundings, check_update, mutate_machines,
}
use machine_controller_k0s.Admission.Webhook.Immutable.{IsUnchanged, mutate_machines-IsUnchanged}
use machine_controller_k0s.Examples.Base.{machine_of, meta_of}
use machine_controller_k0s.Examples.Config.{encoding}

abbrev webhook : Surroundings
webhook = record {
  encoding = encoding;
  for_provider = λ name. none;
  has_plugin = λ name. true;
  parses_key = λ key. true;
  same_spec = λ a b. text_eq a.provider_spec b.provider_spec;
}

abbrev before : Machine
before = machine_of (codes "m") none

abbrev after : Machine
after = record before {
  meta = record (meta_of (codes "m") 1) { labels = some (("zone", codes "a") ∷ []) };
  spec = record before.spec { spec_name = codes "m" };
}

abbrev labelled : Review Machine
labelled = record { operation = update; object = ok after; old_object = ok before }

was_admitted : mutate_machines webhook labelled ≡ ok after
unfolding mutate_machines check_update text_eq value_at
was_admitted = refl

mutate_machines-IsUnchanged_example : IsUnchanged webhook labelled after
mutate_machines-IsUnchanged_example =
    mutate_machines-IsUnchanged webhook labelled after refl was_admitted
