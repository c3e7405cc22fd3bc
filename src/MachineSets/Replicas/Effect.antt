-- ===== src/MachineSets/Replicas/Effect.antt =====
-- What a sync does: pkg/controller/machineset/machineset_controller.go.
use machine_controller_k0s.Prelude.{
  ap, sym, ◌∙◌, Option, none, ◌≢◌, ℕ, zero, suc, ◌+◌, ◌-◌, ◌≤◌, ◌<◌, ◌≡◌, ◌↔◌, refl, ◌⊎◌, inl, inr,
  List, [], ◌∷◌, ◌++◌, some, arith, length, leb, Bool-cases, Option-cases,
}
use machine_controller_k0s.Prelude.Int.{ℤ, pos, negsuc, sub_ℕ}
use machine_controller_k0s.Api.{
  ApiError, api, not_created, Result, ok, err, Api, send, next_answer, later_answers,
}
use machine_controller_k0s.Objects.{MachineSet, Machine}
use machine_controller_k0s.Externals.{Externals}
use machine_controller_k0s.MachineSets.Requests.{Request, create_machine}
use machine_controller_k0s.MachineSets.DeletePolicy.{
  Priorities, get_machines_to_delete_prioritized, get_delete_priority_func,
}
use machine_controller_k0s.MachineSets.DeletePolicy.Order.{
  get_machines_to_delete_prioritized-IsChoice,
}
use machine_controller_k0s.MachineSets.Replicas.{
  Surroundings, Sync, returned, blocked, new_machine, create_machines, await_created,
  delete_machines, wait_for_machine_creation, wait_for_machine_deletion, scale_down, sync_replicas,
}

abbrev pub copies : {A : Type 0} → ℕ → A → List A
copies zero r = []
copies (suc n) r = r ∷ copies n r

-- The errors among the next answers of the server, and the answers after them.
abbrev pub refusals : ℕ → List (Option ApiError) → List ApiError
refusals zero answers = []
refusals (suc n) answers = elim (next_answer answers) [
  | none ↦ refusals n (later_answers answers)
  | some e ↦ e ∷ refusals n (later_answers answers)
]

abbrev pub answers_after : ℕ → List (Option ApiError) → List (Option ApiError)
answers_after zero answers = answers
answers_after (suc n) answers = answers_after n (later_answers answers)

refusals-le : (n : ℕ) (answers : List (Option ApiError)) → length (refusals n answers) ≤ n
refusals-le zero answers = omega arith
refusals-le (suc n) answers = elim (Option-cases (next_answer answers)) [
  | inl e ↦ ground (arith, refusals-le n (later_answers answers))
  | inr (why, e) ↦ ground (arith, refusals-le n (later_answers answers))
]

copies_cons :
    {A : Type 0} (n : ℕ) (r : A) (rest : List A) → copies n r ++ (r ∷ rest) ≡ r ∷ copies n r ++ rest
copies_cons zero r rest = refl
copies_cons (suc n) r rest = ap (λ l. r ∷ l) (copies_cons n r rest)

copies-suc : {A : Type 0} (n m : ℕ) (r : A) → n ≡ suc m → copies n r ≡ r ∷ copies m r
copies-suc n m r e = rw e refl

absurd_cons : {A : Type 0} (e : A) (l : List A) → (e ∷ l) ≢ []
absurd_cons e l h = cc

module _ (x : Externals) (w : Surroundings) (f : Priorities) where
  -- Each round asks once: it creates the machine of the set or adds the error of the server.
  abbrev IsCreation :
      ℕ → MachineSet → Api Request → (List Machine × List ApiError) × Api Request → Type 0
  IsCreation n ms s ((made, errors), s') =
      let accepted_count = n - length (refusals n s.answers) in
      (errors ≡ refusals n s.answers)
      × (made ≡ copies accepted_count (new_machine x w f ms))
      × (s'.answers ≡ answers_after n s.answers)
      × (s'.accepted ≡ copies accepted_count (create_machine (new_machine x w f ms)) ++ s.accepted)

  create_machines-IsCreation :
      (n : ℕ) (ms : MachineSet) (s : Api Request) → IsCreation n ms s (create_machines x w f n ms s)
  unfolding create_machines send
  create_machines-IsCreation zero ms s = (refl, refl, refl, refl)
  create_machines-IsCreation (suc n) ms s = elim (Option-cases (next_answer s.answers)) [
    | inl e ↦
        let s₁ = (send (create_machine (new_machine x w f ms)) s).1 in
        let later = length (refusals n (later_answers s.answers)) in
        let r = create_machine (new_machine x w f ms) in
        ground (
          arith,
          create_machines-IsCreation n ms s₁,
          refusals-le n (later_answers s.answers),
          copies-suc (suc n - later) (n - later) (new_machine x w f ms),
          copies-suc (suc n - later) (n - later) r,
          copies_cons (n - later) r s.accepted,
        )
    | inr (why, e) ↦
        ground (
          arith,
          create_machines-IsCreation n ms (send (create_machine (new_machine x w f ms)) s).1,
        )
  ]

  pub chosen_count :
      (machines : List Machine) (diff : ℕ) (p : Machine → f.Priority)
      → diff ≤ length machines
      → length (get_machines_to_delete_prioritized f machines (pos diff) p) ≡ diff
  chosen_count machines diff p h =
      ground (arith, get_machines_to_delete_prioritized-IsChoice f p machines diff)

  chosen_all :
      (machines : List Machine) (diff : ℕ) (p : Machine → f.Priority)
      → length machines < diff
      → length (get_machines_to_delete_prioritized f machines (pos diff) p) ≡ length machines
  chosen_all machines diff p h =
      ground (arith, get_machines_to_delete_prioritized-IsChoice f p machines diff)

  scale_down_returned :
      (now diff : ℕ) (ms : MachineSet) (machines : List Machine) (s : Api Request)
      (p : Machine → f.Priority)
      → get_delete_priority_func f now ms ≡ ok p
      → diff ≤ length machines
      → (r : Result {0} Unit) × ((scale_down x w f now diff ms machines s).0 ≡ returned r)
  unfolding scale_down
  scale_down_returned now diff ms machines s p ep h =
      go
        (delete_machines x w f
          (w.schedule (get_machines_to_delete_prioritized f machines (pos diff) p)) s).0
        refl
    where
      go :
          (errors : List ApiError)
          → (delete_machines x w f
              (w.schedule (get_machines_to_delete_prioritized f machines (pos diff) p))
              s).0
            ≡ errors
          → (r : Result {0} Unit) × ((scale_down x w f now diff ms machines s).0 ≡ returned r)
      go [] k = (
        wait_for_machine_deletion x w f
            (get_machines_to_delete_prioritized f machines (pos diff) p),
        ground (arith, chosen_count machines diff p h),
      )
      go (e ∷ errors) k = (err (api e), ground (arith, chosen_count machines diff p h))

  scale_down_blocked :
      (now diff : ℕ) (ms : MachineSet) (machines : List Machine) (s : Api Request)
      (p : Machine → f.Priority)
      → get_delete_priority_func f now ms ≡ ok p
      → length machines < diff
      → (scale_down x w f now diff ms machines s).0 ≡ blocked
  unfolding scale_down
  scale_down_blocked now diff ms machines s p ep h = ground (arith, chosen_all machines diff p h)

  -- With a policy that there is, a sync returns, but for a negative number of replicas, where it
  -- waits for ever.
  pub sync_replicas_blocked :
      (now : ℕ) (ms : MachineSet) (machines : List Machine) (s : Api Request) (n : ℤ)
      (p : Machine → f.Priority)
      → ms.spec_replicas ≡ some n
      → get_delete_priority_func f now ms ≡ ok p
      → ((sync_replicas x w f now ms machines s).0 ≡ blocked) ↔ ((m : ℕ) × (n ≡ negsuc m))
  unfolding sync_replicas
  sync_replicas_blocked now ms machines s (pos n) p en ep =
      elim (Bool-cases (leb (length machines) n)) [
        | inl few ↦ ground arith
        | inr many ↦
            ground (
              arith,
              scale_down_returned now (length machines - n) ms machines s p ep (omega arith),
            )
      ]
  sync_replicas_blocked now ms machines s (negsuc n) p en ep =
      ground
        (arith, scale_down_blocked now (length machines + suc n) ms machines s p ep (omega arith))

  -- How the creation of the missing machines ends: the server is asked for each one.
  abbrev pub IsScaleUp : ℕ → MachineSet → Api Request → Sync × Api Request → Type 0
  IsScaleUp missing ms s (outcome, s') =
      let errors = refusals missing s.answers in
      (s'.answers ≡ answers_after missing s.answers)
      × (s'.accepted
          ≡ copies (missing - length errors) (create_machine (new_machine x w f ms)) ++ s.accepted)
      × (((errors ≡ [])
            × (outcome
                ≡ returned
                    (wait_for_machine_creation x w f (copies missing (new_machine x w f ms)))))
          ⊎ ((errors ≢ []) × (outcome ≡ returned (err not_created))))

  missing_surplus : (l n k : ℕ) → n ≡ l + suc k → sub_ℕ l n ≡ negsuc k
  missing_surplus l n k h = ground arith

  sync_replicas_up :
      (now k : ℕ) (ms : MachineSet) (machines : List Machine) (s : Api Request) (n : ℕ)
      → ms.spec_replicas ≡ some (pos n)
      → n ≡ length machines + suc k
      → sync_replicas x w f now ms machines s ≡ (
        returned (await_created x w f (create_machines x w f (suc k) ms s).0),
        (create_machines x w f (suc k) ms s).1,
      )
  unfolding sync_replicas
  sync_replicas_up now k ms machines s n en h =
      rw (en, missing_surplus (length machines) n k h) refl

  minus_zero : (n : ℕ) → n - 0 ≡ n
  minus_zero n = omega arith

  created-IsScaleUp :
      (k : ℕ) (ms : MachineSet) (s : Api Request) (r : (List Machine × List ApiError) × Api Request)
      → IsCreation k ms s r
      → IsScaleUp k ms s (returned (await_created x w f r.0), r.1)
  created-IsScaleUp k ms s ((made, []), s') (none_failed, same, left, accepted) = (
    left,
    accepted,
    inl (
      sym none_failed,
      ap (λ l. returned (wait_for_machine_creation x w f l))
          (same
            ∙ ap (λ l. copies (k - length l) (new_machine x w f ms)) (sym none_failed)
            ∙ ap (λ m. copies m (new_machine x w f ms)) (minus_zero k)),
    ),
  )
  created-IsScaleUp k ms s ((made, e ∷ errors), s') (failed, same, left, accepted) =
      (left, accepted, inr ((λ h. absurd_cons e errors (failed ∙ h)), refl))

  -- A sync of a set that misses machines asks the server once for each one, whatever it answers: as
  -- many machines of the set are accepted as it does not refuse. It fails if one is refused, and
  -- else waits for those made.
  pub sync_replicas_creates :
      (now k : ℕ) (ms : MachineSet) (machines : List Machine) (s : Api Request) (n : ℕ)
      → ms.spec_replicas ≡ some (pos n)
      → n ≡ length machines + suc k
      → IsScaleUp (suc k) ms s (sync_replicas x w f now ms machines s)
  sync_replicas_creates now k ms machines s n en h =
      rw (sync_replicas_up now k ms machines s n en h) (
        created-IsScaleUp (suc k) ms s (create_machines x w f (suc k) ms s)
          (create_machines-IsCreation (suc k) ms s))
