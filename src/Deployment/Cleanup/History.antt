-- ===== src/Deployment/Cleanup/History.antt =====
-- What `cleanupDeployment` of pkg/controller/machinedeployment/sync.go deletes.
use machine_controller_k0s.Prelude.{
  ℕ, zero, suc, ◌-◌, ◌≤◌, ◌<◌, ◌≡◌, refl, ◌∙◌, sym, ap, ◌⊎◌, inl, inr, List, [], ◌∷◌, ◌++◌, Option,
  none, some, true, false, arith, All, All-append, length, length-append, keep_if, sort, Bool-cases,
  Option-cases, if◌then◌else◌, leb,
}
use machine_controller_k0s.Prelude.Int.{ℤ, pos, ◌≤ℤ◌, eq_ℤ_iff, sub32_pos, int32_of_Fits}
use machine_controller_k0s.Api.{ApiError, not_found, Api, send, next_answer, later_answers}
use machine_controller_k0s.Objects.{MachineSet, MachineDeployment}
use machine_controller_k0s.Deployment.Find.{older}
use machine_controller_k0s.Deployment.Scaling.{Request, delete_machine_set}
use machine_controller_k0s.Deployment.Cleanup.{is_alive, is_kept, delete_first, cleanup_deployment}

-- A set with no machines, wanted or left, a status that is up to date, and no deletion under way.
pub record IsSpent (ms : MachineSet) : Type 0 where
  pub wants_none : ms.spec_replicas ≡ some (pos 0)
  pub has_none : ms.status.replicas ≡ pos 0
  pub up_to_date : ms.generation ≤ℤ ms.status.observed_generation
  pub alive : ms.deletion_timestamp ≡ none

-- Deletions in front of older requests, the newest first.
abbrev pub deletions : List MachineSet → List Request → List Request
deletions [] older = older
deletions (ms ∷ rest) older = delete_machine_set ms ∷ deletions rest older

deletions-append :
    (xs ys : List MachineSet) (older : List Request)
    → deletions (xs ++ ys) older ≡ deletions xs (deletions ys older)
deletions-append [] ys older = refl
deletions-append (x ∷ xs) ys older = cc (deletions-append xs ys older)

spent : (ms : MachineSet) (n : ℤ) → ms.spec_replicas ≡ some n → is_kept n ms ≡ false → IsSpent ms
spent ms n en kept = record {
  wants_none = ground (arith, eq_ℤ_iff n (pos 0));
  has_none = ground (arith, eq_ℤ_iff ms.status.replicas (pos 0));
  up_to_date = ground arith;
  alive = ground arith;
}

-- `ds` were deleted in at most `diff` requests, and nothing else was asked of the server.
pub record Deleted (diff : ℕ) (before after : Api Request) (ds : List MachineSet) : Type 0 where
  pub requests : after.accepted ≡ deletions ds before.accepted
  pub at_most : length ds ≤ diff
  pub all_spent : All IsSpent ds

no_more :
    (diff : ℕ) (s s' : Api Request)
    → s'.accepted ≡ s.accepted
    → (ds : List MachineSet) × Deleted diff s s' ds
no_more diff s s' e = ([], record { requests = e; at_most = omega arith; all_spent = tt })

abbrev moved_on : Api Request → List Request → Api Request
moved_on s accepted = record { answers = later_answers s.answers; accepted = accepted }

module _ (diff : ℕ) (ms : MachineSet) (rest : List MachineSet) (s : Api Request) where
  abbrev step : Api Request
  step = (delete_first (suc diff) (ms ∷ rest) s).1

  stopped_nil : ms.spec_replicas ≡ none → step.accepted ≡ s.accepted
  unfolding delete_first
  stopped_nil en = ground arith

  module _ (n : ℤ) (en : ms.spec_replicas ≡ some n) where
    passed_over :
        is_kept n ms ≡ true → delete_first (suc diff) (ms ∷ rest) s ≡ delete_first diff rest s
    unfolding delete_first
    passed_over kept = ground arith

    deleted :
        is_kept n ms ≡ false
        → next_answer s.answers ≡ none
        → delete_first (suc diff) (ms ∷ rest) s
          ≡ delete_first diff rest (moved_on s (delete_machine_set ms ∷ s.accepted))
    unfolding delete_first send
    deleted free accepted = ground arith

    refused_or_gone :
        (e : ApiError)
        → is_kept n ms ≡ false
        → next_answer s.answers ≡ some e
        → (delete_first (suc diff) (ms ∷ rest) s ≡ delete_first diff rest (moved_on s s.accepted))
          ⊎ (step.accepted ≡ s.accepted)
    unfolding delete_first send
    refused_or_gone not_found free answer = inl (ground arith)
    refused_or_gone e free answer = inr (ground arith)

  module _
      (later : (s' : Api Request)
        → (ds : List MachineSet) × Deleted diff s' (delete_first diff rest s').1 ds) where
    went_on :
        (s' : Api Request)
        → s'.accepted ≡ s.accepted
        → (ds : List MachineSet) × Deleted (suc diff) s (delete_first diff rest s').1 ds
    went_on s' e =
        let (ds, g) = later s' in
        (
          ds,
          record {
            requests = g.requests ∙ ap (deletions ds) e;
            at_most = omega (arith, g.at_most);
            all_spent = g.all_spent;
          },
        )

    with_one_more :
        IsSpent ms
        → (ds : List MachineSet) × Deleted
            (suc diff)
            s
            (delete_first diff rest (moved_on s (delete_machine_set ms ∷ s.accepted))).1
            ds
    with_one_more h =
        let (ds, g) = later (moved_on s (delete_machine_set ms ∷ s.accepted)) in
        (
          ds ++ ms ∷ [],
          record {
            requests = g.requests ∙ sym (deletions-append ds (ms ∷ []) s.accepted);
            at_most = omega (arith, g.at_most, length-append ds (ms ∷ []));
            all_spent = All-append IsSpent ds (ms ∷ []) g.all_spent (h, tt);
          },
        )

delete_first-Deleted :
    (diff : ℕ) (mss : List MachineSet) (s : Api Request)
    → (ds : List MachineSet) × Deleted diff s (delete_first diff mss s).1 ds
unfolding delete_first
delete_first-Deleted zero mss s = no_more 0 s s refl
delete_first-Deleted (suc diff) [] s = no_more (suc diff) s s refl
delete_first-Deleted (suc diff) (ms ∷ rest) s =
    go ms.spec_replicas refl (λ s'. delete_first-Deleted diff rest s')
  where
    go :
        (n : Option ℤ)
        → ms.spec_replicas ≡ n
        → ((s' : Api Request)
            → (ds : List MachineSet) × Deleted diff s' (delete_first diff rest s').1 ds)
        → (ds : List MachineSet) × Deleted (suc diff) s (delete_first (suc diff) (ms ∷ rest) s).1 ds
    go none en later = no_more (suc diff) s _ (stopped_nil diff ms rest s en)
    go (some n) en later = elim (Bool-cases (is_kept n ms)) [
      | inl kept ↦ rw (passed_over diff ms rest s n en kept) (went_on diff ms rest s later s refl)
      | inr free ↦ elim (Option-cases (next_answer s.answers)) [
        | inl accepted ↦
            rw (deleted diff ms rest s n en free accepted)
              (with_one_more diff ms rest s later (spent ms n en free))
        | inr (e, answer) ↦ elim (refused_or_gone diff ms rest s n en e free answer) [
          | inl gone ↦ rw gone (went_on diff ms rest s later (moved_on s s.accepted) refl)
          | inr stopped ↦ no_more (suc diff) s _ stopped
        ]
      ]
    ]

cleanup_value :
    (mss : List MachineSet) (d : MachineDeployment) (s : Api Request) (l : ℕ)
    → d.revision_history_limit ≡ some (pos l)
    → l < 2147483648
    → length (keep_if is_alive mss) < 2147483648
    → let alive = length (keep_if is_alive mss) in
      cleanup_deployment mss d s ≡ (
        if leb alive l
        then (none, s)
        else delete_first (alive - l) (sort older (keep_if is_alive mss)) s)
unfolding cleanup_deployment
cleanup_value mss d s l el fits small = ground (
  arith,
  int32_of_Fits (pos (length (keep_if is_alive mss))),
  sub32_pos (length (keep_if is_alive mss)) l,
)

-- A clean-up deletes only sets that are spent, and asks the server for nothing else. With a history
-- limit of `l` at most as many go as leave `l` of the sets that are not being deleted.
pub cleanup_deployment-Deleted :
    (mss : List MachineSet) (d : MachineDeployment) (s : Api Request) (l : ℕ)
    → d.revision_history_limit ≡ some (pos l)
    → l < 2147483648
    → length (keep_if is_alive mss) < 2147483648
    → (ds : List MachineSet) × Deleted
        (length (keep_if is_alive mss) - l)
        s
        (cleanup_deployment mss d s).1
        ds
cleanup_deployment-Deleted mss d s l el fits small =
    let alive = length (keep_if is_alive mss) in
    elim (Bool-cases (leb alive l)) [
      | inl few ↦ rw (cleanup_value mss d s l el fits small) (rw few (no_more (alive - l) s s refl))
      | inr many ↦
          rw (cleanup_value mss d s l el fits small)
            (rw many (delete_first-Deleted (alive - l) (sort older (keep_if is_alive mss)) s))
    ]
