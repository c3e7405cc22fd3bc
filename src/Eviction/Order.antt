-- ===== src/Eviction/Order.antt =====
-- What Run did when it returns: pkg/node/eviction/eviction.go.
use machine_controller_k0s.Prelude.{
  ◌≡◌, refl, ap, ◌∙◌, ◌⊎◌, inl, inr, List, [], ◌∷◌, Bool, true, false, arith, Bool-cases,
}
use machine_controller_k0s.Api.{
  Result, ok, err, message, Error, Result-cases, Added-none, Added-trans,
}
use machine_controller_k0s.Objects.{Node}
use machine_controller_k0s.Eviction.Pods.{Pod, has_annotation, filter_pods}
use machine_controller_k0s.Eviction.Workers.{PodError}
use machine_controller_k0s.Eviction.Cordon.{
  IsCordon, Cordons, get_node_server, Seen, wait_until_cordoned-Seen, evictable, filter_pods_lem,
  cordon_node-Cordons, cordon_node_ok,
}
use machine_controller_k0s.Eviction.Drain.{
  skip_eviction_annotation_key, Draining, get_node, View, Surroundings, cordon_node,
  get_filtered_pods, evict_filtered, run_eviction,
}

module _ (x : Surroundings) where
  -- Without an error before the evictions, they are what the result depends on.
  abbrev pub after_evictions : List Pod → List PodError → Result Bool
  after_evictions [] errs = ok false
  after_evictions (pod ∷ pods) [] = ok true
  after_evictions (pod ∷ pods) (e ∷ errs) = err (message "failed to evict pods, errors encountered")

  -- The three ways of Run: it fails whatever the evictions would do, it skips the node, or it evicts
  -- after the node was seen cordoned.
  abbrev pub IsOrderly : (List Pod → List PodError) → View → Draining → Type 0
  IsOrderly evict_pods v s =
      ((why : Error) × ((other : List Pod → List PodError)
          → (run_eviction x other v s).0 ≡ err why))
      ⊎ (((run_eviction x evict_pods v s).0 ≡ ok false)
          × ((node : Node) × ((get_node s).0 ≡ ok node)
              × (has_annotation skip_eviction_annotation_key node.annotations ≡ true)))
      ⊎ (Seen v.polls
          × ((pods : List Pod) × (v.pods ≡ ok pods)
              × ((run_eviction x evict_pods v s).0
                  ≡ after_evictions (evictable x pods) (evict_pods (evictable x pods)))))

  fails_unread :
      (evict_pods : List Pod → List PodError) (v : View) (s : Draining) (why : Error)
      → (get_node s).0 ≡ err why
      → ((run_eviction x evict_pods v s).0 ≡ err (message "failed to get node from lister"))
        × ((run_eviction x evict_pods v s).1.server ≡ s.server)
  unfolding run_eviction
  fails_unread evict_pods v s why e = ground (arith, get_node_server s)

  skips_annotated :
      (evict_pods : List Pod → List PodError) (v : View) (s : Draining) (node : Node)
      → (get_node s).0 ≡ ok node
      → has_annotation skip_eviction_annotation_key node.annotations ≡ true
      → ((run_eviction x evict_pods v s).0 ≡ ok false)
        × ((run_eviction x evict_pods v s).1.server ≡ s.server)
  unfolding run_eviction
  skips_annotated evict_pods v s node e h = ground (arith, get_node_server s)

  fails_uncordoned :
      (evict_pods : List Pod → List PodError) (v : View) (s : Draining) (node : Node) (why : Error)
      → (get_node s).0 ≡ ok node
      → has_annotation skip_eviction_annotation_key node.annotations ≡ false
      → (cordon_node x v node (get_node s).1).0 ≡ err why
      → ((run_eviction x evict_pods v s).0 ≡ err (message "failed to cordon node"))
        × ((run_eviction x evict_pods v s).1 ≡ (cordon_node x v node (get_node s).1).1)
  unfolding run_eviction
  fails_uncordoned evict_pods v s node why e h k = ground arith

  goes_on :
      (evict_pods : List Pod → List PodError) (v : View) (s : Draining) (node : Node)
      → (get_node s).0 ≡ ok node
      → has_annotation skip_eviction_annotation_key node.annotations ≡ false
      → (cordon_node x v node (get_node s).1).0 ≡ ok tt
      → ((run_eviction x evict_pods v s).0 ≡ evict_filtered x evict_pods v)
        × ((run_eviction x evict_pods v s).1 ≡ (cordon_node x v node (get_node s).1).1)
  unfolding run_eviction
  goes_on evict_pods v s node e h k = ground arith

  evict_listed :
      (evict_pods : List Pod → List PodError) (v : View) (pods filtered : List Pod)
      → v.pods ≡ ok pods
      → filter_pods x.controller_of x.mirror_pod_annotation_key pods ≡ filtered
      → evict_filtered x evict_pods v ≡ after_evictions filtered (evict_pods filtered)
  unfolding evict_filtered get_filtered_pods
  evict_listed evict_pods v pods [] e f = ground arith
  evict_listed evict_pods v pods (pod ∷ rest) e f = ground arith

  evict_unlisted :
      (evict_pods : List Pod → List PodError) (v : View) (why : Error)
      → v.pods ≡ err why
      → evict_filtered x evict_pods v ≡ err (message "failed to get Pods to evict for node")
  unfolding evict_filtered get_filtered_pods
  evict_unlisted evict_pods v why e = ground arith

  cordoned-IsOrderly :
      (evict_pods : List Pod → List PodError) (v : View) (s : Draining) (node : Node)
      → (get_node s).0 ≡ ok node
      → has_annotation skip_eviction_annotation_key node.annotations ≡ false
      → (cordon_node x v node (get_node s).1).0 ≡ ok tt
      → IsOrderly evict_pods v s
  cordoned-IsOrderly evict_pods v s node e h k = elim (Result-cases v.pods) [
    | inr (why, f) ↦ inl (
      message "failed to get Pods to evict for node",
      λ other. (goes_on other v s node e h k).0 ∙ evict_unlisted other v why f,
    )
    | inl (pods, f) ↦ inr (
        inr (
          wait_until_cordoned-Seen v.polls (cordon_node_ok x v node (get_node s).1 k),
          (
            pods,
            f,
            (goes_on evict_pods v s node e h k).0
                ∙ evict_listed evict_pods v pods (evictable x pods) f (filter_pods_lem x pods),
          ),
        ))
  ]

  unsent :
      (evict_pods : List Pod → List PodError) (v : View) (s : Draining)
      → (run_eviction x evict_pods v s).1.server ≡ s.server
      → Cordons s (run_eviction x evict_pods v s).1
  unsent evict_pods v s e = rw e (Added-none IsCordon s.server.accepted s.server.accepted refl)

  run_eviction-Cordons :
      (evict_pods : List Pod → List PodError) (v : View) (s : Draining) (node : Node)
      → (run_eviction x evict_pods v s).1 ≡ (cordon_node x v node (get_node s).1).1
      → Cordons s (run_eviction x evict_pods v s).1
  run_eviction-Cordons evict_pods v s node e = rw e (
      Added-trans IsCordon s.server.accepted (get_node s).1.server.accepted
        (cordon_node x v node (get_node s).1).1.server.accepted
        (Added-none IsCordon s.server.accepted (get_node s).1.server.accepted
          (ap (λ a. a.accepted) (get_node_server s)))
        (cordon_node-Cordons x v node (get_node s).1))

  -- Run sends nothing but updates that make the node unschedulable. It fails, whatever the evictions
  -- would do; or it skips a node that has the annotation for it; or, after a poll found the node
  -- cordoned, it evicts exactly the listed pods that are not over, not of a daemon set and not
  -- mirrors, and says that there is more to do unless there was none of them.
  pub run_eviction-IsOrderly :
      (evict_pods : List Pod → List PodError) (v : View) (s : Draining)
      → Cordons s (run_eviction x evict_pods v s).1 × IsOrderly evict_pods v s
  run_eviction-IsOrderly evict_pods v s = elim (Result-cases (get_node s).0) [
    | inr (why, e) ↦ (
      unsent evict_pods v s (fails_unread evict_pods v s why e).1,
      inl (message "failed to get node from lister", λ other. (fails_unread other v s why e).0),
    )
    | inl (node, e) ↦
        elim (Bool-cases (has_annotation skip_eviction_annotation_key node.annotations)) [
          | inl h ↦ (
            unsent evict_pods v s (skips_annotated evict_pods v s node e h).1,
            inr (inl ((skips_annotated evict_pods v s node e h).0, (node, e, h))),
          )
          | inr h ↦ elim (Result-cases (cordon_node x v node (get_node s).1).0) [
            | inr (why, k) ↦ (
              run_eviction-Cordons evict_pods v s node
                  (fails_uncordoned evict_pods v s node why e h k).1,
              inl (
                message "failed to cordon node",
                λ other. (fails_uncordoned other v s node why e h k).0,
              ),
            )
            | inl (u, k) ↦ (
              run_eviction-Cordons evict_pods v s node (goes_on evict_pods v s node e h k).1,
              cordoned-IsOrderly evict_pods v s node e h k,
            )
          ]
        ]
  ]
