-- ===== src/Eviction/Progress.antt =====
-- evictPods returns: pkg/node/eviction/eviction.go.
use machine_controller_k0s.Prelude.{
  ℕ, ◌+◌, ◌*◌, ◌≤◌, ◌<◌, ◌≡◌, refl, ◌⊎◌, inl, inr, List, [], ◌∷◌, ◌++◌, none, All, length, sum_of,
  sum_of-append, arith,
}
use machine_controller_k0s.Eviction.Outcome.{Invariant, Run-Invariant}
use machine_controller_k0s.Eviction.Pods.{Pod}
use machine_controller_k0s.Eviction.Workers.{
  PodError, Answer, Worker, starting, calling, ending, stopped, Waiter, counting, offering,
  released, Main, selecting, selected, returned, State, state, is_done, after_check, Move, check,
  answer, leave, IsStopped, Step, work, all_done, finish, receive, return, started, Run, begin,
  next,
}

-- The steps that are left, at most.
abbrev worker_steps : Worker → ℕ
worker_steps (starting pod) = 3
worker_steps (calling pod) = 2
worker_steps (ending pod a) = 1
worker_steps (stopped pod a) = 0

abbrev wait_steps : Waiter → ℕ
wait_steps counting = 2
wait_steps offering = 1
wait_steps released = 0

abbrev main_steps : Main → ℕ
main_steps selecting = 2
main_steps (selected errs) = 1
main_steps (returned errs) = 0

abbrev steps_left : State → ℕ
steps_left (state ws ch wait m) = sum_of worker_steps ws + wait_steps wait + main_steps m

Move-worker_steps :
    {m : Main} {w w' : Worker} {errs : List PodError}
    → Move m w errs w'
    → worker_steps w' < worker_steps w
Move-worker_steps {m = selecting} (check pod) = omega arith
Move-worker_steps {m = selected errs} (check pod) = omega arith
Move-worker_steps {m = returned errs} (check pod) = omega arith
Move-worker_steps (answer pod a) = omega arith
Move-worker_steps (leave pod a) = omega arith

Step-steps_left : {s t : State} → Step s t → steps_left t < steps_left s
Step-steps_left (work {w} {w'} before after ch wait m move) = omega (
  arith,
  Move-worker_steps move,
  sum_of-append worker_steps before (w ∷ after),
  sum_of-append worker_steps before (w' ∷ after),
)
Step-steps_left (all_done ws ch m all) = omega arith
Step-steps_left (finish ws ch) = omega arith
Step-steps_left (receive ws e ch wait) = omega arith
Step-steps_left (return ws ch wait errs) = omega arith

steps_left-started : (pods : List Pod) → sum_of worker_steps (started pods) ≡ 3 * length pods
steps_left-started [] = refl
steps_left-started (pod ∷ pods) = omega (arith, steps_left-started pods)

Run-steps_left :
    (pods : List Pod) {n : ℕ} {s : State} → Run pods n s → n + steps_left s ≤ 3 * length pods + 4
Run-steps_left pods begin = omega (arith, steps_left-started pods)
Run-steps_left pods (next run step) = omega (arith, Run-steps_left pods run, Step-steps_left step)

-- All goroutines stopped, or one of them can take a step.
workers_go :
    (m : Main) (ws : List Worker)
    → All IsStopped ws
      ⊎ ((before : List Worker) × (after : List Worker) × (w : Worker) × (errs : List PodError)
          × (w' : Worker) × Move m w errs w'
          × (ws ≡ before ++ w ∷ after))
workers_go m [] = inl tt
workers_go m (starting pod ∷ ws) =
    inr ([], ws, starting pod, [], after_check (is_done m) pod, check pod, refl)
workers_go m (calling pod ∷ ws) =
    inr ([], ws, calling pod, [], ending pod (Answer.answered none), answer pod none, refl)
workers_go m (ending pod a ∷ ws) = inr ([], ws, ending pod a, [], stopped pod a, leave pod a, refl)
workers_go m (stopped pod a ∷ ws) = elim (workers_go m ws) [
  | inl all ↦ inl (tt, all)
  | inr (before, after, w, errs, w', move, e) ↦
      inr (stopped pod a ∷ before, after, w, errs, w', move, rw e refl)
]

-- The function returned, or some step is possible.
abbrev pub Goes : State → Type 0
Goes s =
    ((ws : List Worker) × (ch : List PodError) × (wait : Waiter) × (errs : List PodError) × (s
        ≡ state ws ch wait (returned errs)))
    ⊎ ((t : State) × Step s t)

counting-Goes : (ws : List Worker) (ch : List PodError) → Goes (state ws ch counting selecting)
counting-Goes ws ch = elim (workers_go selecting ws) [
  | inl all ↦ inr (state ws ch offering selecting, all_done ws ch selecting all)
  | inr (before, after, w, errs, w', move, e) ↦ inr (
    state (before ++ w' ∷ after) (ch ++ errs) counting selecting,
    rw e (work before after ch counting selecting move),
  )
]

Invariant-Goes : (pods : List Pod) (s : State) → Invariant pods s → Goes s
Invariant-Goes pods (state ws ch counting selecting) h = counting-Goes ws ch
Invariant-Goes pods (state ws ch offering selecting) h =
    inr (state ws ch released (selected []), finish ws ch)
Invariant-Goes pods (state ws ch released selecting) (same, genuine, waits, results) = absurd waits
Invariant-Goes pods (state ws ch wait (selected errs)) h =
    inr (state ws ch wait (returned errs), return ws ch wait errs)
Invariant-Goes pods (state ws ch wait (returned errs)) h = inl (ws, ch, wait, errs, refl)

-- However the goroutines are interleaved and whatever the server answers, evictPods returns: a run
-- has at most three steps for each pod and four more, and as long as the function has not returned
-- some step is possible.
pub evict_pods_returns :
    (pods : List Pod) (n : ℕ) (s : State) → Run pods n s → (n ≤ 3 * length pods + 4) × Goes s
evict_pods_returns pods n s run =
    (omega (arith, Run-steps_left pods run), Invariant-Goes pods s (Run-Invariant pods run))
