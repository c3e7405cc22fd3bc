-- ===== src/Eviction/Cordon.antt =====
-- The node is cordoned before its pods are evicted: pkg/node/eviction/eviction.go.
use machine_controller_k0s.Prelude.{
  ◌≡◌, refl, ◌⊎◌, inl, inr, List, [], ◌∷◌, Bool, true, not, ◌||◌, IsAmong, arith, Bool-cases,
  keep_if,
}
use machine_controller_k0s.Api.{
  Result, ok, err, Error, send, Result-cases, Added, Added-none, Added-trans, Added-send,
}
use machine_controller_k0s.Objects.{Node}
use machine_controller_k0s.Retries.{Retried, last, again}
use machine_controller_k0s.Eviction.Pods.{
  Pod, is_over, is_of_daemon_set, has_annotation, filter_pods,
}
use machine_controller_k0s.Machines.Requests.{
  Request, update_machine, delete_machine, update_node, delete_node,
}
use machine_controller_k0s.Eviction.Drain.{
  Draining, get_node, send_node, try_update, wait_until_cordoned, cordoned, View, Surroundings,
  update_node_with, cordon_node,
}

abbrev pub IsCordon : Request → Type 0
IsCordon (update_node node) = node.unschedulable ≡ true
IsCordon (delete_node node) = ⊥
IsCordon (update_machine machine) = ⊥
IsCordon (delete_machine machine) = ⊥

-- Only cordons were accepted between the two.
abbrev pub Cordons : Draining → Draining → Type 0
Cordons s t = Added IsCordon s.server.accepted t.server.accepted

pub get_node_server : (s : Draining) → (get_node s).1.server ≡ s.server
unfolding get_node
get_node_server s = ground arith

send_node_server :
    (node : Node) (s : Draining)
    → (send_node node s).1.server ≡ (send (update_node node) s.server).1
unfolding send_node
send_node_server node s = ground arith

try_update_unread :
    (s : Draining) (why : Error)
    → (get_node s).0 ≡ err why
    → (try_update cordoned s).1.server ≡ s.server
unfolding try_update
try_update_unread s why e = ground (arith, get_node_server s, e)

try_update_read :
    (s : Draining) (node : Node)
    → (get_node s).0 ≡ ok node
    → (try_update cordoned s).1.server ≡ (send (update_node (cordoned node)) s.server).1
unfolding try_update
try_update_read s node e =
    ground (arith, get_node_server s, send_node_server (cordoned node) (get_node s).1, e)

try_update-Cordons : (s : Draining) → Cordons s (try_update cordoned s).1
try_update-Cordons s = elim (Result-cases (get_node s).0) [
  | inr (why, e) ↦
      rw (try_update_unread s why e) (Added-none IsCordon s.server.accepted s.server.accepted refl)
  | inl (node, e) ↦
      rw (try_update_read s node e)
        (Added-send IsCordon (update_node (cordoned node)) s.server refl)
]

Retried-Cordons :
    (s : Draining) {r : Result {0} Unit × Draining}
    → Retried (try_update cordoned) s r
    → Cordons s r.1
Retried-Cordons s (last _) = try_update-Cordons s
Retried-Cordons s (again _ {r} e later) =
    Added-trans IsCordon s.server.accepted (try_update cordoned s).1.server.accepted
      r.1.server.accepted (try_update-Cordons s) (Retried-Cordons (try_update cordoned s).1 later)

-- A poll found the node cordoned.
abbrev pub Seen : List (Result Node) → Type 0
Seen polls = (node : Node) × IsAmong (ok node) polls × (node.unschedulable ≡ true)

pub wait_until_cordoned-Seen :
    (polls : List (Result Node)) → wait_until_cordoned polls ≡ ok tt → Seen polls
unfolding wait_until_cordoned
wait_until_cordoned-Seen [] h = ground (arith, h)
wait_until_cordoned-Seen (err e ∷ polls) h = ground (arith, h)
wait_until_cordoned-Seen (ok node ∷ polls) h = elim (Bool-cases node.unschedulable) [
  | inl e ↦ (node, inl refl, e)
  | inr e ↦
      let (found, among, seen) = wait_until_cordoned-Seen polls (ground (arith, h, e)) in
      (found, inr among, seen)
]

module _ (x : Surroundings) where
  -- Over, of a daemon set, or the mirror of a static pod.
  abbrev pub is_exempt : Pod → Bool
  is_exempt pod =
      is_over pod.phase
      || is_of_daemon_set (x.controller_of pod.meta)
      || has_annotation x.mirror_pod_annotation_key pod.annotations

  abbrev pub evictable : List Pod → List Pod
  evictable pods = keep_if (λ pod. not (is_exempt pod)) pods

  pub filter_pods_lem :
      (pods : List Pod)
      → filter_pods x.controller_of x.mirror_pod_annotation_key pods ≡ evictable pods
  unfolding filter_pods
  filter_pods_lem [] = refl
  filter_pods_lem (pod ∷ pods) = ground (arith, filter_pods_lem pods)

  update_node_with-Cordons : (s : Draining) → Cordons s (update_node_with x cordoned s).1
  unfolding update_node_with
  update_node_with-Cordons s =
      Retried-Cordons s (x.retries.retry_on_conflict-Retried (try_update cordoned) s)

  cordon_node_server :
      (v : View) (node : Node) (s : Draining)
      → ((cordon_node x v node s).1.server ≡ s.server)
        ⊎ ((cordon_node x v node s).1.server ≡ (update_node_with x cordoned s).1.server)
  unfolding cordon_node
  cordon_node_server v node s = ground arith

  pub cordon_node-Cordons :
      (v : View) (node : Node) (s : Draining) → Cordons s (cordon_node x v node s).1
  cordon_node-Cordons v node s = elim (cordon_node_server v node s) [
    | inl e ↦ rw e (Added-none IsCordon s.server.accepted s.server.accepted refl)
    | inr e ↦ rw e (update_node_with-Cordons s)
  ]

  pub cordon_node_ok :
      (v : View) (node : Node) (s : Draining)
      → (cordon_node x v node s).0 ≡ ok tt
      → wait_until_cordoned v.polls ≡ ok tt
  unfolding cordon_node
  cordon_node_ok v node s h = ground arith
