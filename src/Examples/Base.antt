-- ===== src/Examples/Base.antt =====
-- The external functions and the objects that the examples share.
use machine_controller_k0s.Prelude.{
  ℕ, ◌+◌, ◌*◌, ◌/◌, ◌≡◌, refl, [], ◌∷◌, List, Option, none, some, Bool, true, false, if◌then◌else◌,
}
use machine_controller_k0s.Prelude.Int.{ℤ, pos, negsuc, ltb_ℤ}
use machine_controller_k0s.Prelude.Decimal.{Text, codes, text_eq, text_eq_refl}
use machine_controller_k0s.Api.{Api}
use machine_controller_k0s.Objects.{
  OwnerReference, ObjectMeta, LabelSelector, MachineTemplateSpec, MachineSpec, Machine, Node,
  MachineSet, IntOrString, int_val, str_val, rolling, MachineDeployment,
}
use machine_controller_k0s.Externals.{Externals}
use machine_controller_k0s.Deployment.Scaling.{Request}
use machine_controller_k0s.Deployment.Rolling.{Rollout}

abbrev value_of : Option IntOrString → ℤ → Bool → Option ℤ
value_of none total up = none
value_of (some (int_val a)) total up = some a
value_of (some (str_val s)) total up = none

abbrev rounded : ℤ → ℤ → ℤ
rounded (pos a) (pos b) = pos ((2 * a + b) / (2 * b))
rounded (pos a) (negsuc b) = pos 0
rounded (negsuc a) b = pos 0

pub same_spec_refl :
    (t : MachineTemplateSpec)
    → text_eq t.machine_spec.provider_spec t.machine_spec.provider_spec ≡ true
same_spec_refl t = text_eq_refl t.machine_spec.provider_spec

abbrev first_of_owners : List OwnerReference → Option OwnerReference
first_of_owners [] = none
first_of_owners (o ∷ rest) = some o

abbrev first_owner : ObjectMeta → Option OwnerReference
first_owner m = first_of_owners m.owner_references

abbrev owned_by : Option OwnerReference → ObjectMeta → Bool
owned_by none m = false
owned_by (some o) m = text_eq o.owner_uid m.uid

-- Absolute numbers only; two templates are equal if their specs are; a selector selects everything.
abbrev pub simple : Externals
simple = record {
  get_value = value_of;
  round_quotient = rounded;
  int32_min = λ a b. if ltb_ℤ b a then b else a;
  int32_max = λ a b. if ltb_ℤ a b then b else a;
  int32_min_lem = λ a b. refl;
  int32_max_lem = λ a b. refl;
  deep_equal = λ t₁ t₂. text_eq t₁.machine_spec.provider_spec t₂.machine_spec.provider_spec;
  deep_equal_refl = same_spec_refl;
  fnv_hash = λ t. 7;
  safe_encode_string = λ s. s;
  selector_parses = λ s. true;
  selector_is_empty = λ s. false;
  selector_matches = λ s l. true;
  controller_of = first_owner;
  is_controlled_by = λ o c. owned_by (first_owner o) c;
  new_controller_ref = λ o. record { kind = []; owner_uid = o.uid; controller = some true };
}

abbrev pub meta_of : Text → ℕ → ObjectMeta
meta_of name created = record {
  name = name;
  generate_name = [];
  namespace = codes "kube-system";
  uid = name;
  generation = pos 1;
  creation_timestamp = created;
  deletion_timestamp = none;
  labels = none;
  annotations = none;
  finalizers = [];
  owner_references = [];
}

abbrev pub any_selector : LabelSelector
any_selector = record { match_labels = []; match_expressions = none }

abbrev pub spec_of : Text → MachineSpec
spec_of provider_spec = record {
  spec_name = [];
  spec_labels = [];
  spec_annotations = [];
  taints = [];
  provider_spec = provider_spec;
  kubelet = codes "1.17.0";
  config_source = none;
}

abbrev pub machine_of : Text → Option Text → Machine
machine_of name node = record {
  meta = meta_of name 1;
  spec = spec_of (codes "small");
  node_ref = node;
  error_reason = none;
  error_message = none;
  addresses = [];
  conditions = [];
  kubelet_version = none;
}

abbrev pub node_of : Text → Node
node_of name = record {
  meta = meta_of name 1;
  unschedulable = false;
  conditions = [];
  node_taints = [];
  node_config_source = none;
  provider_id = [];
  node_addresses = [];
  kubelet_version = codes "1.17.0";
}

abbrev pub template_of : Text → MachineTemplateSpec
template_of spec = record { template_meta = meta_of [] 0; machine_spec = spec_of spec }

-- A machine set of `n` machines, of which `a` are available.
abbrev pub machine_set : Text → ℕ → ℕ → ℕ → MachineSet
machine_set name created n a = record {
  meta = meta_of name created;
  spec_replicas = some (pos n);
  min_ready_seconds = pos 0;
  delete_policy = [];
  selector = any_selector;
  template = template_of name;
  status = record {
    replicas = pos n;
    fully_labeled_replicas = pos n;
    ready_replicas = pos a;
    available_replicas = pos a;
    observed_generation = pos 1;
  };
}

-- A deployment of `r` machines with a surge of `s` of which `u` may be unavailable.
abbrev pub deployment : ℕ → ℕ → ℕ → MachineDeployment
deployment r s u = record {
  meta = meta_of (codes "d") 1;
  spec_replicas = some (pos r);
  selector = any_selector;
  template = template_of (codes "new");
  strategy = some (record {
    type = rolling;
    rolling_update =
        some
          (record { max_unavailable = some (int_val (pos u)); max_surge = some (int_val (pos s)) });
  });
  min_ready_seconds = some (pos 0);
  revision_history_limit = some (pos 1);
  progress_deadline_seconds = some (pos 600);
  paused = false;
  status = record {
    observed_generation = pos 0;
    replicas = pos 0;
    updated_replicas = pos 0;
    ready_replicas = pos 0;
    available_replicas = pos 0;
    unavailable_replicas = pos 0;
  };
}

abbrev pub willing : Api Request
willing = record { answers = []; accepted = [] }

abbrev pub old_a : MachineSet
old_a = machine_set (codes "a") 1 6 4

abbrev pub old_b : MachineSet
old_b = machine_set (codes "b") 2 4 4

abbrev pub new_c : MachineSet
new_c = machine_set (codes "new") 3 3 2

-- Ten machines asked for, three more allowed, two fewer allowed.
abbrev pub rollout : Rollout
rollout = record {
  deployment = deployment 10 3 2;
  new_ms = new_c;
  old_mss = old_a ∷ old_b ∷ [];
  server = willing;
}
