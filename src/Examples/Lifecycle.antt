-- ===== src/Examples/Lifecycle.antt =====
-- A machine that is created, linked and deleted.
use machine_controller_k0s.Prelude.{
  ◌≡◌, ◌≢◌, refl, ◌⊎◌, inl, inr, Option, [], ◌∷◌, List, some, none, true, false, String, lookup,
  arith,
}
use machine_controller_k0s.Prelude.Decimal.{codes}
use machine_controller_k0s.Api.{ok, err, message, Api, Added, Added-none}
use machine_controller_k0s.Objects.{Machine, Node, Labels}
use machine_controller_k0s.Machines.Requests.{Request}
use machine_controller_k0s.Machines.Update.{
  Machining, Client, has_finalizer, finalizer_delete_instance, ensure_delete_finalizer_exists,
}
use machine_controller_k0s.Machines.Provider.{Provider, answer, Instance, IsMachineUpdate}
use machine_controller_k0s.Machines.Effect.{IsKept}
use machine_controller_k0s.Machines.Deletion.{Surroundings, delete_machine_object}
use machine_controller_k0s.Machines.Deletion.NodeLast.{delete_machine_object-KeepsNode}
use machine_controller_k0s.Machines.Instances.{create_provider_instance}
use machine_controller_k0s.Machines.Instances.Guarded.{
  IsSecured, create_provider_instance-IsGuarded,
}
use machine_controller_k0s.Machines.Nodes.Apply.{IsMap}
use machine_controller_k0s.Machines.Nodes.Settings.{
  IsUnwritable, IsCompleted, node_modifiers-IsSettled,
}
use machine_controller_k0s.Examples.Base.{machine_of, node_of, meta_of, spec_of}
use machine_controller_k0s.Examples.Config.{encoding}
use machine_controller_k0s.Examples.Eviction.{once, surroundings, view}

same_set : (f : String) (l : List String) → has_finalizer f l ≡ has_finalizer f l
same_set f l = refl

never_same : (a b : Machine) → false ≡ true → a.finalizers ≡ b.finalizers
never_same a b h = ground (arith, h)

abbrev client : Client
client = record {
  retries = once;
  same_machine = λ a b. false;
  same_machine_finalizers = never_same;
  match_taint = λ t u. false;
  sorted_set = λ l. l;
  sorted_set_lem = same_set;
}

abbrev instance_of_m : Instance
instance_of_m = record {
  instance_name = codes "m";
  instance_id = codes "1";
  instance_addresses = [];
}

nothing_sent : (s : Machining) → Added IsMachineUpdate s.server.accepted s.server.accepted
nothing_sent s = Added-none IsMachineUpdate s.server.accepted s.server.accepted refl

-- An instance that is never completely gone.
abbrev slow : Provider
slow = record {
  get = λ s. (answer instance_of_m, s);
  get_cloud_config = λ spec. none;
  create = λ userdata s. (answer instance_of_m, s);
  cleanup = λ s. (answer false, s);
  cleanup_updates = nothing_sent;
}

abbrev quiet : Api Request
quiet = record { answers = []; accepted = [] }

abbrev guarded : Machine
guarded = record (machine_of (codes "m") (some (codes "n"))) {
  meta = record (meta_of (codes "m") 1) {
    deletion_timestamp = some 100;
    finalizers = finalizer_delete_instance ∷ [];
  };
}

abbrev start : Machine → Machining
start m = record {
  machine = m;
  machine_reads = ok m ∷ [];
  node_reads = ok (node_of (codes "n")) ∷ ok (node_of (codes "n")) ∷ [];
  server = quiet;
}

abbrev controller : Surroundings
controller = record {
  client = client;
  encoding = encoding;
  load_rhel_config = λ t. err (message "no configuration");
  unregister_instance = λ token name. ok tt;
  delete_satellite_host = λ name config. ok tt;
  selector_parses = λ t. true;
  eviction = surroundings;
  now = 160;
  skip_eviction_after = 7200;
  cluster = record { machines = guarded ∷ []; nodes = node_of (codes "n") ∷ [] };
  eviction_view = view;
  evict_pods = λ pods. [];
  owned_nodes = ok [];
}

never_gone : (t : Machining) → (slow.cleanup t).0 ≢ answer true
never_gone t h = ground (arith, h)

delete_machine_object-KeepsNode_example :
    Added IsKept [] (delete_machine_object controller slow (start guarded)).1.server.accepted
delete_machine_object-KeepsNode_example =
    delete_machine_object-KeepsNode controller slow (start guarded) refl never_gone

abbrev fresh : Machine
fresh = machine_of (codes "m") none

create_provider_instance-IsGuarded_example :
    ((t : Machining) × IsSecured client (start fresh) t
      × (create_provider_instance client slow (codes "data") (start fresh)
          ≡ (ok (slow.create (codes "data") t).0, (slow.create (codes "data") t).1)))
    ⊎ (create_provider_instance client slow (codes "data") (start fresh) ≡ (
      err (message "failed to add finalizer"),
      (ensure_delete_finalizer_exists client (start fresh)).1,
    ))
create_provider_instance-IsGuarded_example =
    create_provider_instance-IsGuarded client slow (codes "data") (start fresh)

abbrev settings : Machine
settings = record fresh {
  spec = record (spec_of (codes "small")) { spec_labels = ("zone", codes "a") ∷ [] };
}

zone_once : IsMap settings.spec.spec_labels
unfolding lookup
zone_once = (refl, tt)

-- A node with annotations and labels, and one without any labels.
abbrev dressed : Option Labels → Node
dressed labels = record (node_of (codes "n")) {
  meta = record (meta_of (codes "n") 1) {
    labels = labels;
    annotations = some (("note", codes "b") ∷ []);
  };
}

-- The first node gets the settings, and the second one panics.
dressed-IsCompleted : IsCompleted client settings (dressed (some []))
dressed-IsCompleted =
    elim (node_modifiers-IsSettled client settings (dressed (some [])) zone_once tt) [
      | inl (panics, inl absent) ↦ cc
      | inl (panics, inr (absent, wants)) ↦ cc
      | inr settled ↦ settled
    ]

undressed-IsUnwritable : IsUnwritable client settings (dressed none)
undressed-IsUnwritable =
    elim (node_modifiers-IsSettled client settings (dressed none) zone_once tt) [
      | inl panics ↦ panics
      | inr (m, after, m', made, given, inl present, a, b, k, i, t) ↦ absurd (present refl)
      | inr (m, after, m', made, given, inr unwanted, a, b, k, i, t) ↦ cc
    ]
