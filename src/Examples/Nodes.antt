-- ===== src/Examples/Nodes.antt =====
-- The choice of eviction, for a machine whose node is not the only one.
use machine_controller_k0s.Prelude.{ℕ, Option, ◌↔◌, ◌-◌, ◌≤◌, ◌≡◌, refl, [], ◌∷◌, some, true}
use machine_controller_k0s.Prelude.Decimal.{Text, codes}
use machine_controller_k0s.Api.{ok, Api}
use machine_controller_k0s.Objects.{Machine}
use machine_controller_k0s.Machines.Requests.{Request}
use machine_controller_k0s.Machines.{Cluster, should_evict}
use machine_controller_k0s.Machines.Targets.{HasPlace, should_evict_iff}
use machine_controller_k0s.Examples.Base.{machine_of, node_of, meta_of}

abbrev going : Machine
going = record (machine_of (codes "m") (some (codes "n"))) {
  meta = record (meta_of (codes "m") 1) { deletion_timestamp = some 100 };
}

abbrev cluster : Cluster
cluster = record { machines = going ∷ []; nodes = node_of (codes "n") ∷ node_of (codes "o") ∷ [] }

abbrev answering : Api Request
answering = record { answers = []; accepted = [] }

should_evict_iff_example : ((should_evict 160 7200 cluster going answering).0 ≡ ok true) ↔ (
    (t : ℕ) × (own : Text) × (◌≡◌ {A = Option ℕ} (some 100) (some t))
    × (◌≡◌ {A = Option Text} (some (codes "n")) (some own))
    × (160 - t ≤ 7200)
    × HasPlace own cluster)
should_evict_iff_example = should_evict_iff 160 7200 cluster going answering refl
