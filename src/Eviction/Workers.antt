-- ===== src/Eviction/Workers.antt =====
-- The goroutines of evictPods, in any order of their steps: pkg/node/eviction/eviction.go.
use machine_controller_k0s.Prelude.{
  ℕ, zero, suc, List, [], ◌∷◌, ◌++◌, Option, none, some, Bool, true, false, All,
}
use machine_controller_k0s.Api.{
  ApiError, not_found, already_exists, conflict, too_many_requests, refused,
}
use machine_controller_k0s.Eviction.Pods.{Pod}

abbrev pub PodError : Type 0
PodError = Pod × ApiError

-- How the loop of a goroutine ends: it sees that all is done, or it has the server's answer.
pub data Answer : Type 0 where
  skipped : Answer
  answered : Option ApiError → Answer

-- A goroutine is before its test of `isDone`, in evictPod, before `wg.Done`, or after it.
pub data Worker : Type 0 where
  starting calling : Pod → Worker
  ending stopped : Pod → Answer → Worker

-- The goroutine that waits for the group, and then offers the value of `finished`.
pub data Waiter : Type 0 where
  counting offering released : Waiter

-- The function: in its `select`, after it, or returned, when `isDone` is set.
pub data Main : Type 0 where
  selecting : Main
  selected returned : List PodError → Main

pub data State : Type 0 where
  state : List Worker → List PodError → Waiter → Main → State

abbrev pub is_done : Main → Bool
is_done (returned errs) = true
is_done m = false

-- What a goroutine does once it has tested `isDone`.
abbrev pub after_check : Bool → Pod → Worker
after_check true pod = ending pod skipped
after_check false pod = calling pod

-- Neither a success nor an answer that is taken for one.
abbrev pub is_failure : ApiError → Bool
is_failure not_found = false
is_failure too_many_requests = false
is_failure already_exists = true
is_failure conflict = true
is_failure refused = true

abbrev sent_if : Bool → Pod → ApiError → List PodError
sent_if true pod e = (pod, e) ∷ []
sent_if false pod e = []

-- What goes into the channel after the answer; its buffer has a place for every pod.
abbrev pub sent : Pod → Option ApiError → List PodError
sent pod none = []
sent pod (some e) = sent_if (is_failure e) pod e

-- A step of one goroutine, with what it puts into the channel.
pub data Move (m : Main) : Worker → List PodError → Worker → Type 0 where
  check : (pod : Pod) → Move m (starting pod) [] (after_check (is_done m) pod)
  answer :
      (pod : Pod) (a : Option ApiError)
      → Move m (calling pod) (sent pod a) (ending pod (answered a))
  leave : (pod : Pod) (a : Answer) → Move m (ending pod a) [] (stopped pod a)

abbrev pub IsStopped : Worker → Type 0
IsStopped (stopped pod a) = Unit
IsStopped (ending pod a) = ⊥
IsStopped (starting pod) = ⊥
IsStopped (calling pod) = ⊥

pub data Step : State → State → Type 0 where
  work :
      {w w' : Worker} {errs : List PodError} (before after : List Worker) (ch : List PodError)
      (wait : Waiter) (m : Main)
      → Move m w errs w'
      → Step
          (state (before ++ w ∷ after) ch wait m)
          (state (before ++ w' ∷ after) (ch ++ errs) wait m)
  all_done :
      (ws : List Worker) (ch : List PodError) (m : Main)
      → All IsStopped ws
      → Step (state ws ch counting m) (state ws ch offering m)
  finish :
      (ws : List Worker) (ch : List PodError)
      → Step (state ws ch offering selecting) (state ws ch released (selected []))
  receive :
      (ws : List Worker) (e : PodError) (ch : List PodError) (wait : Waiter)
      → Step (state ws (e ∷ ch) wait selecting) (state ws ch wait (selected (e ∷ [])))
  return :
      (ws : List Worker) (ch : List PodError) (wait : Waiter) (errs : List PodError)
      → Step (state ws ch wait (selected errs)) (state ws ch wait (returned errs))

abbrev pub started : List Pod → List Worker
started [] = []
started (pod ∷ pods) = starting pod ∷ started pods

abbrev pub initial : List Pod → State
initial pods = state (started pods) [] counting selecting

-- `n` steps from the call of evictPods.
pub data Run (pods : List Pod) : ℕ → State → Type 0 where
  begin : Run pods zero (initial pods)
  next : {n : ℕ} {s t : State} → Run pods n s → Step s t → Run pods (suc n) t
