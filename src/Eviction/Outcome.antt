-- ===== src/Eviction/Outcome.antt =====
-- What evictPods returns: pkg/node/eviction/eviction.go.
use machine_controller_k0s.Prelude.{
  ℕ, ◌≡◌, refl, sym, ap, ◌∙◌, ◌⊎◌, inl, inr, List, [], ◌∷◌, ◌++◌, All, map, All-append, All-imp,
  All-replace, map-replace, map-IsAmong,
}
use machine_controller_k0s.Eviction.Moves.{
  pod_of, IsAnswered, IsUnskipped, IsGenuine, IsGenuine-replace, Move-pod_of, Move-IsStopped,
  Move-IsAnswered, Move-IsUnskipped, Move-IsGenuine,
}
use machine_controller_k0s.Eviction.Pods.{Pod}
use machine_controller_k0s.Eviction.Workers.{
  PodError, skipped, answered, Worker, starting, calling, ending, stopped, Waiter, counting,
  offering, released, Main, selecting, selected, returned, State, state, Move, IsStopped, Step,
  work, all_done, finish, receive, return, started, Run, begin, next,
}

abbrev pub Waits : Waiter → Main → List Worker → Type 0
Waits counting m ws = Unit
Waits offering m ws = All IsStopped ws
Waits released selecting ws = ⊥
Waits released (selected errs) ws = All IsStopped ws
Waits released (returned errs) ws = All IsStopped ws

abbrev pub Results : List Pod → Main → List Worker → Type 0
Results pods selecting ws = All IsUnskipped ws
Results pods (selected []) ws = All IsAnswered ws
Results pods (selected (e ∷ errs)) ws = (errs ≡ []) × IsGenuine pods ws e × All IsUnskipped ws
Results pods (returned []) ws = All IsAnswered ws
Results pods (returned (e ∷ errs)) ws = (errs ≡ []) × IsGenuine pods ws e

abbrev pub Invariant : List Pod → State → Type 0
Invariant pods (state ws ch wait m) =
    (map pod_of ws ≡ pods) × All (IsGenuine pods ws) ch × Waits wait m ws × Results pods m ws

module _ (before after : List Worker) where
  Results-replace :
      (pods : List Pod) (m : Main) {w w' : Worker} {errs : List PodError}
      → Move m w errs w'
      → Results pods m (before ++ w ∷ after)
      → Results pods m (before ++ w' ∷ after)
  Results-replace pods selecting move h =
      All-replace IsUnskipped (Move-IsUnskipped refl move) before after h
  Results-replace pods (selected []) move h =
      All-replace IsAnswered (Move-IsAnswered move) before after h
  Results-replace pods (selected (e ∷ errs)) move (h, g, k) = (
    h,
    IsGenuine-replace pods move before after e g,
    All-replace IsUnskipped (Move-IsUnskipped refl move) before after k,
  )
  Results-replace pods (returned []) move h =
      All-replace IsAnswered (Move-IsAnswered move) before after h
  Results-replace pods (returned (e ∷ errs)) move (h, g) =
      (h, IsGenuine-replace pods move before after e g)

  Waits-replace :
      (wait : Waiter) (m : Main) {w w' : Worker} {errs : List PodError}
      → Move m w errs w'
      → Waits wait m (before ++ w ∷ after)
      → Waits wait m (before ++ w' ∷ after)
  Waits-replace counting m move h = tt
  Waits-replace offering m move h = All-replace IsStopped (Move-IsStopped move) before after h
  Waits-replace released selecting move h = h
  Waits-replace released (selected r) move h =
      All-replace IsStopped (Move-IsStopped move) before after h
  Waits-replace released (returned r) move h =
      All-replace IsStopped (Move-IsStopped move) before after h

  work-Invariant :
      (pods : List Pod) (ch : List PodError) (wait : Waiter) (m : Main) {w w' : Worker}
      {errs : List PodError}
      → Move m w errs w'
      → Invariant pods (state (before ++ w ∷ after) ch wait m)
      → Invariant pods (state (before ++ w' ∷ after) (ch ++ errs) wait m)
  work-Invariant pods ch wait m {w} {w'} {errs} move (same, genuine, waits, results) = (
    sym (map-replace pod_of (Move-pod_of move) before after) ∙ same,
    All-append (IsGenuine pods (before ++ w' ∷ after)) ch errs
        (All-imp (IsGenuine pods (before ++ w ∷ after)) (IsGenuine pods (before ++ w' ∷ after))
          (IsGenuine-replace pods move before after) ch genuine)
        (Move-IsGenuine before after pods (rw (sym same) (map-IsAmong pod_of w before after)) move),
    Waits-replace wait m move waits,
    Results-replace pods m move results,
  )

-- A goroutine that stopped without having been skipped was answered.
stopped-IsAnswered : (w : Worker) → IsStopped w → IsUnskipped w → IsAnswered w
stopped-IsAnswered (starting pod) h k = absurd h
stopped-IsAnswered (calling pod) h k = absurd h
stopped-IsAnswered (ending pod a) h k = absurd h
stopped-IsAnswered (stopped pod skipped) h k = absurd k
stopped-IsAnswered (stopped pod (answered a)) h k = tt

All-IsAnswered : (ws : List Worker) → All IsStopped ws → All IsUnskipped ws → All IsAnswered ws
All-IsAnswered [] h k = tt
All-IsAnswered (w ∷ ws) h k = (stopped-IsAnswered w h.0 k.0, All-IsAnswered ws h.1 k.1)

Waits-selected :
    (wait : Waiter) (ws : List Worker) (e : PodError)
    → Waits wait selecting ws
    → Waits wait (selected (e ∷ [])) ws
Waits-selected counting ws e h = tt
Waits-selected offering ws e h = h
Waits-selected released ws e h = absurd h

Waits-returned :
    (wait : Waiter) (ws : List Worker) (errs : List PodError)
    → Waits wait (selected errs) ws
    → Waits wait (returned errs) ws
Waits-returned counting ws errs h = tt
Waits-returned offering ws errs h = h
Waits-returned released ws errs h = h

Step-Invariant : {s t : State} (pods : List Pod) → Step s t → Invariant pods s → Invariant pods t
Step-Invariant pods (work before after ch wait m move) h =
    work-Invariant before after pods ch wait m move h
Step-Invariant pods (all_done ws ch m stopped_all) (same, genuine, waits, results) =
    (same, genuine, stopped_all, results)
Step-Invariant pods (finish ws ch) (same, genuine, waits, results) =
    (same, genuine, waits, All-IsAnswered ws waits results)
Step-Invariant pods (receive ws e ch wait) (same, (genuine, rest), waits, results) =
    (same, rest, Waits-selected wait ws e waits, (refl, genuine, results))
Step-Invariant pods (return ws ch wait []) (same, genuine, waits, results) =
    (same, genuine, Waits-returned wait ws [] waits, results)
Step-Invariant pods (return ws ch wait (e ∷ errs))
      (same, genuine, waits, (none_left, found, rest)) =
    (same, genuine, Waits-returned wait ws (e ∷ errs) waits, (none_left, found))

started-Invariant :
    (pods : List Pod) → (map pod_of (started pods) ≡ pods) × All IsUnskipped (started pods)
started-Invariant [] = (refl, tt)
started-Invariant (pod ∷ pods) =
    let (same, unskipped) = started-Invariant pods in (ap (λ l. pod ∷ l) same, (tt, unskipped))

pub Run-Invariant : (pods : List Pod) {n : ℕ} {s : State} → Run pods n s → Invariant pods s
Run-Invariant pods begin =
    let (same, unskipped) = started-Invariant pods in (same, tt, tt, unskipped)
Run-Invariant pods (next run step) = Step-Invariant pods step (Run-Invariant pods run)

-- However the goroutines are interleaved and whatever the server answers, evictPods returns either
-- no error, and then each pod's goroutine stopped with an answer of the server, or one error, which
-- the server gave as its answer to the goroutine of one of the pods and which is neither "not found" nor "too many requests".
pub evict_pods-IsSound :
    (pods : List Pod) (n : ℕ) (ws : List Worker) (ch : List PodError) (wait : Waiter)
    (errs : List PodError)
    → Run pods n (state ws ch wait (returned errs))
    → ((errs ≡ []) × (map pod_of ws ≡ pods) × All IsAnswered ws)
      ⊎ ((e : PodError) × (errs ≡ e ∷ []) × IsGenuine pods ws e)
evict_pods-IsSound pods n ws ch wait [] run =
    let (same, genuine, waits, results) = Run-Invariant pods run in inl (refl, same, results)
evict_pods-IsSound pods n ws ch wait (e ∷ errs) run =
    let (same, genuine, waits, results) = Run-Invariant pods run in
    inr (e, ap (λ l. e ∷ l) results.0, results.1)
