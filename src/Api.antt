-- ===== src/Api.antt =====
-- The API server as the controllers see it (controller-runtime's client is not part of the
-- repository): each request is answered from a list that stands for whatever the server does, and
-- the requests that it accepted are recorded. An empty list answers every request with success.
use machine_controller_k0s.Prelude.{
  ◌++◌, ◌∙◌, ap, sym, append_assoc, All, All-append, All-imp, Option-cases, arith, String, ◌≡◌,
  refl, ◌⊎◌, inl, inr, List, [], ◌∷◌, Option, none, some,
}

-- The errors that the source tells apart by `apierrors.Is…`.
pub data ApiError : Type 0 where
  not_found already_exists conflict too_many_requests refused : ApiError

pub data Error : Type 0 where
  -- "spec replicas … is nil, this is unexpected"
  nil_replicas : Error
  -- a Go panic: the dereference of a nil pointer, or an index out of range
  panicked : Error
  -- "got invalid request to scale down"
  invalid_scale : Error
  -- an `IntOrString` that has no value
  bad_value : Error
  -- a label selector that does not parse, or does not match the template
  bad_selector : Error
  -- "Unsupported delete policy"
  unsupported_policy : Error
  -- "unexpected deployment strategy type"
  bad_strategy : Error
  -- "machine has no node ref"
  no_node_ref : Error
  -- the creation of some machines failed
  not_created : Error
  -- any other error, by the start of its text
  message : String → Error
  -- "timed out waiting for the condition"
  timed_out : Error
  api : ApiError → Error

pub data Result {ℓ} (A : Type ℓ) : Type ℓ where
  ok : A → Result A
  err : Error → Result A

infixl 5 ◌>>=◌
abbrev pub ◌>>=◌ {ℓ κ} : {A : Type ℓ} {B : Type κ} → Result A → (A → Result B) → Result B
ok a >>= f = f a
err e >>= f = err e

-- The read of `*p`.
abbrev pub deref {ℓ} : {A : Type ℓ} → Option A → Result A
deref none = err panicked
deref (some a) = ok a

-- The error of a call that returns one.
abbrev pub error_of {ℓ} : {A : Type ℓ} → Result A → Option Error
error_of (ok a) = none
error_of (err e) = some e

pub Result-cases {ℓ} :
    {A : Type ℓ} (r : Result A) → ((a : A) × (r ≡ ok a)) ⊎ ((e : Error) × (r ≡ err e))
Result-cases (ok a) = inl (a, refl)
Result-cases (err e) = inr (e, refl)

pub record Api (C : Type 0) : Type 0 where
  pub answers : List (Option ApiError)
  pub accepted : List C

-- The answer to the next request, and the answers that are left.
abbrev pub next_answer : List (Option ApiError) → Option ApiError
next_answer [] = none
next_answer (a ∷ rest) = a

abbrev pub later_answers : List (Option ApiError) → List (Option ApiError)
later_answers [] = []
later_answers (a ∷ rest) = rest

module _ {C : Type 0} where
  -- A write: the newest accepted request stands first.
  unfoldable pub send : C → Api C → Option ApiError × Api C
  send c s = elim (next_answer s.answers) [
    | none ↦ (none, record { answers = later_answers s.answers; accepted = c ∷ s.accepted })
    | some e ↦ (some e, record s { answers = later_answers s.answers })
  ]

  -- A read, which leaves no record.
  unfoldable pub ask : Api C → Option ApiError × Api C
  ask s = (next_answer s.answers, record s { answers = later_answers s.answers })

-- The second list of accepted requests adds requests of that kind to the first one.
abbrev pub Added : {C : Type 0} → (C → Type 0) → List C → List C → Type 0
Added {C = C} P old later = (new : List C) × (later ≡ new ++ old) × All P new

module _ {C : Type 0} (P : C → Type 0) where
  pub Added-none : (old later : List C) → later ≡ old → Added P old later
  Added-none old later e = ([], e, tt)

  pub Added-one : (c : C) (old later : List C) → P c → later ≡ c ∷ old → Added P old later
  Added-one c old later h e = (c ∷ [], e, (h, tt))

  pub Added-trans :
      (old middle later : List C) → Added P old middle → Added P middle later → Added P old later
  Added-trans old middle later (first, e, h) (second, f, k) = (
    second ++ first,
    f ∙ ap (λ l. second ++ l) e ∙ sym (append_assoc second first old),
    All-append P second first k h,
  )

  pub Added-send : (c : C) (s : Api C) → P c → Added P s.accepted (send c s).1.accepted
  unfolding send
  Added-send c s h = elim (Option-cases (next_answer s.answers)) [
    | inl e ↦ Added-one c s.accepted (send c s).1.accepted h (ground (arith, e))
    | inr (why, e) ↦ Added-none s.accepted (send c s).1.accepted (ground (arith, e))
  ]

pub Added-imp :
    {C : Type 0} (P Q : C → Type 0)
    → ((c : C) → P c → Q c)
    → (old later : List C) → Added P old later
    → Added Q old later
Added-imp P Q f old later (new, e, h) = (new, e, All-imp P Q f new h)
