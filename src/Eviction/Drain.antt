-- ===== src/Eviction/Drain.antt =====
-- Run and cordonNode: pkg/node/eviction/eviction.go.
use machine_controller_k0s.Prelude.{
  List, [], ◌∷◌, Option, none, some, Bool, true, false, if◌then◌else◌, String,
}
use machine_controller_k0s.Api.{api, not_found, timed_out, message, Result, ok, err, Api, send}
use machine_controller_k0s.Objects.{ObjectMeta, OwnerReference, Node}
use machine_controller_k0s.Machines.Requests.{Request, update_node}
use machine_controller_k0s.Retries.{Retries}
use machine_controller_k0s.Eviction.Pods.{Pod, has_annotation, filter_pods}
use machine_controller_k0s.Eviction.Workers.{PodError}

abbrev pub skip_eviction_annotation_key : String
skip_eviction_annotation_key = "kubermatic.io/skip-eviction"

-- `reads` is what the next reads of the node find, in Run and before each update.
pub record Draining : Type 0 where
  pub reads : List (Result Node)
  pub server : Api Request

-- The client's `Get`; a list that is used up finds nothing.
unfoldable pub get_node : Draining → Result Node × Draining
get_node s = elim s.reads [
  | [] ↦ (err (api not_found), s)
  | r ∷ rest ↦ (r, record s { reads = rest })
]

unfoldable pub send_node : Node → Draining → Result {0} Unit × Draining
unfolding send
send_node node s =
    let (e, server) = send (update_node node) s.server in
    let s' = record s { server = server } in
    elim e [ none ↦ (ok tt, s') | some why ↦ (err (api why), s') ]

-- One try of an update.
unfoldable pub try_update : (Node → Node) → Draining → Result {0} Unit × Draining
unfolding get_node send_node
try_update modify s =
    let (read, s') = get_node s in
    elim read [ err e ↦ (err e, s') | ok node ↦ send_node (modify node) s' ]

-- What the reads of `wait.Poll` find until its time is over.
unfoldable pub wait_until_cordoned : List (Result Node) → Result {0} Unit
wait_until_cordoned [] = err timed_out
wait_until_cordoned (err e ∷ polls) = err e
wait_until_cordoned (ok node ∷ polls) =
    let later = wait_until_cordoned polls in if node.unschedulable then ok tt else later

abbrev pub cordoned : Node → Node
cordoned node = record node { unschedulable = true }

-- The lists of the pods of the node, and the polls after the cordon.
pub record View : Type 0 where
  pub pods : Result (List Pod)
  pub polls : List (Result Node)

-- `metav1.GetControllerOf` and `corev1.MirrorPodAnnotationKey`, beside the retries.
pub record Surroundings : Type 1 where
  pub retries : Retries
  pub controller_of : ObjectMeta → Option OwnerReference
  pub mirror_pod_annotation_key : String

module _ (x : Surroundings) where
  unfoldable pub update_node_with : (Node → Node) → Draining → Result {0} Unit × Draining
  unfolding try_update
  update_node_with modify s = x.retries.retry_on_conflict (try_update modify) s

  unfoldable pub cordon_node : View → Node → Draining → Result {0} Unit × Draining
  unfolding update_node_with wait_until_cordoned
  cordon_node v node s =
      let (updated, s') = update_node_with cordoned s in
      if node.unschedulable
      then (wait_until_cordoned v.polls, s)
      else elim updated [ err e ↦ (err e, s') | ok u ↦ (wait_until_cordoned v.polls, s') ]

  unfoldable pub get_filtered_pods : View → Result (List Pod)
  unfolding filter_pods
  get_filtered_pods v = elim v.pods [
    | err e ↦ err (message "failed to list pods")
    | ok pods ↦ ok (filter_pods x.controller_of x.mirror_pod_annotation_key pods)
  ]

  -- `evict_pods` is what evictPods returns for the pods; the result says whether to come back.
  unfoldable pub evict_filtered : (List Pod → List PodError) → View → Result Bool
  unfolding get_filtered_pods
  evict_filtered evict_pods v = elim (get_filtered_pods v) [
    | err e ↦ err (message "failed to get Pods to evict for node")
    | ok [] ↦ ok false
    | ok (pod ∷ pods) ↦ elim (evict_pods (pod ∷ pods)) [
      | [] ↦ ok true
      | e ∷ errs ↦ err (message "failed to evict pods, errors encountered")
    ]
  ]

  -- `Run`
  unfoldable pub run_eviction :
      (List Pod → List PodError) → View → Draining → Result Bool × Draining
  unfolding get_node has_annotation cordon_node evict_filtered
  run_eviction evict_pods v s =
      let (read, s₁) = get_node s in
      elim read [
        | err e ↦ (err (message "failed to get node from lister"), s₁)
        | ok node ↦
            if has_annotation skip_eviction_annotation_key node.annotations
            then (ok false, s₁)
            else let (cordon, s₂) = cordon_node v node s₁ in
              elim cordon [
                | err e ↦ (err (message "failed to cordon node"), s₂)
                | ok u ↦ (evict_filtered evict_pods v, s₂)
              ]
      ]
