-- ===== src/Eviction/Race.antt =====
-- What the `select` of evictPods may lose: pkg/node/eviction/eviction.go.
use machine_controller_k0s.Prelude.{
  ◌≡◌, sym, List, [], ◌∷◌, ◌++◌, Option, some, true, All, All-middle, arith,
}
use machine_controller_k0s.Api.{ApiError}
use machine_controller_k0s.Eviction.Pods.{Pod}
use machine_controller_k0s.Eviction.Workers.{
  PodError, answered, Worker, stopped, Waiter, counting, offering, released, Main, selecting,
  selected, returned, State, state, is_failure, sent, Move, check, answer, leave, IsStopped, Step,
  work, all_done, finish, receive, return, Run, begin, next,
}

module _ (pod : Pod) (a : Option ApiError) where
  -- The goroutine of the only pod stopped with that answer.
  alone_stopped :
      Run (pod ∷ []) 3 (state (stopped pod (answered a) ∷ []) (sent pod a ++ []) counting selecting)
  alone_stopped =
      next
        (next (next begin (work [] [] [] counting selecting (check pod)))
          (work [] [] [] counting selecting (answer pod a)))
        (work [] [] (sent pod a) counting selecting (leave pod (answered a)))

  alone_done :
      Run (pod ∷ []) 4 (state (stopped pod (answered a) ∷ []) (sent pod a ++ []) offering selecting)
  alone_done =
      next alone_stopped
        (all_done (stopped pod (answered a) ∷ []) (sent pod a ++ []) selecting (tt, tt))

sent_failure :
    (pod : Pod) (e : ApiError) → is_failure e ≡ true → sent pod (some e) ++ [] ≡ (pod, e) ∷ []
sent_failure pod e h = ground arith

module _ (pod : Pod) (e : ApiError) where
  abbrev pub one_stopped : List Worker
  one_stopped = stopped pod (answered (some e)) ∷ []

  one_failed :
      is_failure e ≡ true → Run (pod ∷ []) 4 (state one_stopped ((pod, e) ∷ []) offering selecting)
  one_failed h = rw (sym (sent_failure pod e h)) (alone_done pod (some e))

IsStopped-Move :
    {m : Main} {w w' : Worker} {errs : List PodError} → Move m w errs w' → ¬ IsStopped w
IsStopped-Move (check pod) h = h
IsStopped-Move (answer pod a) h = h
IsStopped-Move (leave pod a) h = h

abbrev IsOffering : Waiter → Type 0
IsOffering counting = ⊥
IsOffering offering = Unit
IsOffering released = ⊥

abbrev IsReturned : Main → Type 0
IsReturned selecting = ⊥
IsReturned (selected errs) = ⊥
IsReturned (returned errs) = Unit

-- The function returned and its goroutines stopped, but for the one that offers `finished`.
abbrev IsLeaking : State → Type 0
IsLeaking (state ws ch wait m) = All IsStopped ws × IsOffering wait × IsReturned m

leaks_for_ever : {s t : State} → Step s t → ¬ IsLeaking s
leaks_for_ever (work before after ch wait m move) h =
    IsStopped-Move move (All-middle IsStopped before after h.0)
leaks_for_ever (all_done ws ch m all) h = h.1
leaks_for_ever (finish ws ch) h = h.2
leaks_for_ever (receive ws e ch wait) h = h.2
leaks_for_ever (return ws ch wait errs) h = h.2

-- For each pod whose eviction fails, the goroutines can run so that evictPods returns no error,
-- with the error left in the channel; and so that it returns the error and no step is left,
-- although the goroutine that waits for the others still offers its value, which nothing takes.
pub evict_pods_races :
    (pod : Pod) (e : ApiError)
    → is_failure e ≡ true
    → Run (pod ∷ []) 6 (state (one_stopped pod e) ((pod, e) ∷ []) released (returned []))
      × Run (pod ∷ []) 6 (state (one_stopped pod e) [] offering (returned ((pod, e) ∷ [])))
      × ((t : State) → ¬ Step (state (one_stopped pod e) [] offering (returned ((pod, e) ∷ []))) t)
evict_pods_races pod e h = (
  next (next (one_failed pod e h) (finish (one_stopped pod e) ((pod, e) ∷ [])))
      (return (one_stopped pod e) ((pod, e) ∷ []) released []),
  next (next (one_failed pod e h) (receive (one_stopped pod e) (pod, e) [] offering))
      (return (one_stopped pod e) [] offering ((pod, e) ∷ [])),
  λ t step. leaks_for_ever step ((tt, tt), tt, tt),
)
