-- ===== src/Examples/Eviction.antt =====
-- The eviction of two pods.
use machine_controller_k0s.Prelude.{
  ◌+◌, ◌*◌, ◌≤◌, ◌≡◌, refl, ◌⊎◌, [], ◌∷◌, List, none, some, true, All, map, length,
}
use machine_controller_k0s.Prelude.Decimal.{codes}
use machine_controller_k0s.Api.{ok, refused}
use machine_controller_k0s.Objects.{Node}
use machine_controller_k0s.Retries.{Retries, last}
use machine_controller_k0s.Eviction.Pods.{Pod, other_phase}
use machine_controller_k0s.Eviction.Workers.{
  PodError, answered, Worker, starting, stopped, counting, offering, released, selecting, returned,
  State, state, Step, check, answer, leave, work, receive, return, Run, begin, next,
}
use machine_controller_k0s.Eviction.Moves.{pod_of, IsAnswered, IsGenuine}
use machine_controller_k0s.Eviction.Outcome.{evict_pods-IsSound}
use machine_controller_k0s.Eviction.Race.{one_stopped, evict_pods_races}
use machine_controller_k0s.Eviction.Progress.{Goes, evict_pods_returns}
use machine_controller_k0s.Eviction.Drain.{Draining, View, Surroundings, run_eviction}
use machine_controller_k0s.Eviction.Cordon.{Cordons}
use machine_controller_k0s.Eviction.Order.{IsOrderly, run_eviction-IsOrderly}
use machine_controller_k0s.Examples.Base.{meta_of, node_of}

abbrev pod_a : Pod
pod_a = record { meta = meta_of (codes "a") 1; phase = other_phase (codes "Running") }

abbrev pod_b : Pod
pod_b = record { meta = meta_of (codes "b") 1; phase = other_phase (codes "Running") }

abbrev both : List Pod
both = pod_a ∷ pod_b ∷ []

abbrev stopped_a : Worker
stopped_a = stopped pod_a (answered (some refused))

-- The eviction of the first pod fails before the goroutine of the second one starts.
one_refused :
    Run both 3 (state (stopped_a ∷ starting pod_b ∷ []) ((pod_a, refused) ∷ []) counting selecting)
one_refused =
    next
      (next (next begin (work [] (starting pod_b ∷ []) [] counting selecting (check pod_a)))
        (work [] (starting pod_b ∷ []) [] counting selecting (answer pod_a (some refused))))
      (work [] (starting pod_b ∷ []) ((pod_a, refused) ∷ []) counting selecting
        (leave pod_a (answered (some refused))))

one_returned :
    Run both 5
      (state (stopped_a ∷ starting pod_b ∷ []) [] counting (returned ((pod_a, refused) ∷ [])))
one_returned =
    next (next one_refused (receive (stopped_a ∷ starting pod_b ∷ []) (pod_a, refused) [] counting))
      (return (stopped_a ∷ starting pod_b ∷ []) [] counting ((pod_a, refused) ∷ []))

evict_pods-IsSound_example :
    (◌≡◌ {A = List PodError} ((pod_a, refused) ∷ []) []
      × (map pod_of (stopped_a ∷ starting pod_b ∷ []) ≡ both)
      × All IsAnswered (stopped_a ∷ starting pod_b ∷ []))
    ⊎ ((e : PodError) × ((pod_a, refused) ∷ [] ≡ e ∷ [])
        × IsGenuine both (stopped_a ∷ starting pod_b ∷ []) e)
evict_pods-IsSound_example =
    evict_pods-IsSound both 5 (stopped_a ∷ starting pod_b ∷ []) [] counting ((pod_a, refused) ∷ [])
      one_returned

evict_pods_returns_example :
    (5 ≤ 3 * length both + 4)
    × Goes (state (stopped_a ∷ starting pod_b ∷ []) [] counting (returned ((pod_a, refused) ∷ [])))
evict_pods_returns_example =
    evict_pods_returns both 5
      (state (stopped_a ∷ starting pod_b ∷ []) [] counting (returned ((pod_a, refused) ∷ [])))
      one_returned

evict_pods_races_example :
    Run
      (pod_a ∷ [])
      6
      (state (one_stopped pod_a refused) ((pod_a, refused) ∷ []) released (returned []))
    × Run
        (pod_a ∷ [])
        6
        (state (one_stopped pod_a refused) [] offering (returned ((pod_a, refused) ∷ [])))
    × ((t : State)
        → ¬ Step
            (state (one_stopped pod_a refused) [] offering (returned ((pod_a, refused) ∷ [])))
            t)
evict_pods_races_example = evict_pods_races pod_a refused refl

-- The function is called once.
abbrev pub once : Retries
once = record { retry_on_conflict = λ f s. f s; retry_on_conflict-Retried = λ f s. last s }

abbrev pub surroundings : Surroundings
surroundings = record {
  retries = once;
  controller_of = λ m. none;
  mirror_pod_annotation_key = "kubernetes.io/config.mirror";
}

abbrev cordoned_node : Node
cordoned_node = record (node_of (codes "n")) { unschedulable = true }

abbrev pub view : View
view = record { pods = ok both; polls = ok (node_of (codes "n")) ∷ ok cordoned_node ∷ [] }

abbrev draining : Draining
draining = record {
  reads = ok (node_of (codes "n")) ∷ ok (node_of (codes "n")) ∷ [];
  server = record { answers = []; accepted = [] };
}

run_eviction-IsOrderly_example :
    Cordons draining (run_eviction surroundings (λ pods. []) view draining).1
    × IsOrderly surroundings (λ pods. []) view draining
run_eviction-IsOrderly_example = run_eviction-IsOrderly surroundings (λ pods. []) view draining
