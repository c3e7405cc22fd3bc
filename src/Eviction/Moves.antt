-- ===== src/Eviction/Moves.antt =====
-- What the steps of a goroutine of evictPods keep: pkg/node/eviction/eviction.go.
use machine_controller_k0s.Prelude.{
  ◌≡◌, refl, ◌⊎◌, inl, inr, [], ◌∷◌, ◌++◌, List, Option, none, some, true, false, All, IsAmong,
  arith,
}
use machine_controller_k0s.Api.{ApiError}
use machine_controller_k0s.Eviction.Pods.{Pod}
use machine_controller_k0s.Eviction.Workers.{
  PodError, skipped, answered, Worker, starting, calling, ending, stopped, Main, selecting,
  selected, returned, is_done, is_failure, sent, Move, check, answer, leave, IsStopped,
}

abbrev pub pod_of : Worker → Pod
pod_of (starting pod) = pod
pod_of (calling pod) = pod
pod_of (ending pod a) = pod
pod_of (stopped pod a) = pod

-- The goroutine stopped after the server had answered.
abbrev pub IsAnswered : Worker → Type 0
IsAnswered (stopped pod (answered a)) = Unit
IsAnswered (stopped pod skipped) = ⊥
IsAnswered (ending pod a) = ⊥
IsAnswered (starting pod) = ⊥
IsAnswered (calling pod) = ⊥

abbrev pub IsUnskipped : Worker → Type 0
IsUnskipped (stopped pod (answered a)) = Unit
IsUnskipped (stopped pod skipped) = ⊥
IsUnskipped (ending pod (answered a)) = Unit
IsUnskipped (ending pod skipped) = ⊥
IsUnskipped (starting pod) = Unit
IsUnskipped (calling pod) = Unit

-- The server answered the goroutine of the pod with the error.
abbrev pub WasTold : PodError → Worker → Type 0
WasTold (pod, e) (stopped p (answered a)) = (p ≡ pod) × (a ≡ some e)
WasTold (pod, e) (ending p (answered a)) = (p ≡ pod) × (a ≡ some e)
WasTold error (stopped p skipped) = ⊥
WasTold error (ending p skipped) = ⊥
WasTold error (starting p) = ⊥
WasTold error (calling p) = ⊥

abbrev pub SomeTold : PodError → List Worker → Type 0
SomeTold error [] = ⊥
SomeTold error (w ∷ ws) = WasTold error w ⊎ SomeTold error ws

-- The error is the server's answer to the goroutine of one of the pods, and not one that is passed
-- over.
abbrev pub IsGenuine : List Pod → List Worker → PodError → Type 0
IsGenuine pods ws (pod, e) = IsAmong pod pods × (is_failure e ≡ true) × SomeTold (pod, e) ws

pub Move-pod_of :
    {m : Main} {w w' : Worker} {errs : List PodError} → Move m w errs w' → pod_of w ≡ pod_of w'
Move-pod_of {m = selecting} (check pod) = refl
Move-pod_of {m = selected errs} (check pod) = refl
Move-pod_of {m = returned errs} (check pod) = refl
Move-pod_of (answer pod a) = refl
Move-pod_of (leave pod a) = refl

pub Move-IsStopped :
    {m : Main} {w w' : Worker} {errs : List PodError}
    → Move m w errs w'
    → IsStopped w
    → IsStopped w'
Move-IsStopped (check pod) h = absurd h
Move-IsStopped (answer pod a) h = absurd h
Move-IsStopped (leave pod a) h = tt

pub Move-IsAnswered :
    {m : Main} {w w' : Worker} {errs : List PodError}
    → Move m w errs w'
    → IsAnswered w
    → IsAnswered w'
Move-IsAnswered (check pod) h = absurd h
Move-IsAnswered (answer pod a) h = absurd h
Move-IsAnswered (leave pod a) h = absurd h

pub Move-IsUnskipped :
    {m : Main} {w w' : Worker} {errs : List PodError}
    → is_done m ≡ false
    → Move m w errs w'
    → IsUnskipped w
    → IsUnskipped w'
Move-IsUnskipped {m = selecting} e (check pod) h = tt
Move-IsUnskipped {m = selected errs} e (check pod) h = tt
Move-IsUnskipped {m = returned errs} e (check pod) h = ground (arith, e)
Move-IsUnskipped e (answer pod a) h = tt
Move-IsUnskipped e (leave pod skipped) h = absurd h
Move-IsUnskipped e (leave pod (answered a)) h = tt

Move-WasTold :
    {m : Main} {w w' : Worker} {errs : List PodError} (error : PodError)
    → Move m w errs w'
    → WasTold error w
    → WasTold error w'
Move-WasTold error (check pod) h = absurd h
Move-WasTold error (answer pod a) h = absurd h
Move-WasTold error (leave pod skipped) h = absurd h
Move-WasTold error (leave pod (answered a)) h = h

SomeTold-replace :
    {m : Main} {w w' : Worker} {errs : List PodError} (error : PodError)
    → Move m w errs w'
    → (before after : List Worker) → SomeTold error (before ++ w ∷ after)
    → SomeTold error (before ++ w' ∷ after)
SomeTold-replace error move [] after (inl told) = inl (Move-WasTold error move told)
SomeTold-replace error move [] after (inr later) = inr later
SomeTold-replace error move (v ∷ before) after (inl told) = inl told
SomeTold-replace error move (v ∷ before) after (inr later) =
    inr (SomeTold-replace error move before after later)

SomeTold-middle :
    (error : PodError) (w : Worker)
    → WasTold error w
    → (before after : List Worker) → SomeTold error (before ++ w ∷ after)
SomeTold-middle error w told [] after = inl told
SomeTold-middle error w told (v ∷ before) after = inr (SomeTold-middle error w told before after)

pub IsGenuine-replace :
    {m : Main} {w w' : Worker} {errs : List PodError} (pods : List Pod)
    → Move m w errs w'
    → (before after : List Worker) (error : PodError) → IsGenuine pods (before ++ w ∷ after) error
    → IsGenuine pods (before ++ w' ∷ after) error
IsGenuine-replace pods move before after (pod, e) (among, failed, told) =
    (among, failed, SomeTold-replace (pod, e) move before after told)

module _ (before after : List Worker) where
  told :
      (pod : Pod) (e : ApiError)
      → SomeTold (pod, e) (before ++ ending pod (answered (some e)) ∷ after)
  told pod e = SomeTold-middle (pod, e) (ending pod (answered (some e))) (refl, refl) before after

  sent-IsGenuine :
      (pods : List Pod) (pod : Pod) (a : Option ApiError)
      → IsAmong pod pods
      → All (IsGenuine pods (before ++ ending pod (answered a) ∷ after)) (sent pod a)
  sent-IsGenuine pods pod none h = tt
  sent-IsGenuine pods pod (some ApiError.not_found) h = tt
  sent-IsGenuine pods pod (some ApiError.too_many_requests) h = tt
  sent-IsGenuine pods pod (some ApiError.already_exists) h =
      ((h, refl, told pod ApiError.already_exists), tt)
  sent-IsGenuine pods pod (some ApiError.conflict) h = ((h, refl, told pod ApiError.conflict), tt)
  sent-IsGenuine pods pod (some ApiError.refused) h = ((h, refl, told pod ApiError.refused), tt)

  pub Move-IsGenuine :
      {m : Main} {w w' : Worker} {errs : List PodError} (pods : List Pod)
      → IsAmong (pod_of w) pods
      → Move m w errs w'
      → All (IsGenuine pods (before ++ w' ∷ after)) errs
  Move-IsGenuine pods h (check pod) = tt
  Move-IsGenuine pods h (answer pod a) = sent-IsGenuine pods pod a h
  Move-IsGenuine pods h (leave pod a) = tt
