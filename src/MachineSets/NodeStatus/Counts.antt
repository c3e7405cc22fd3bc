-- ===== src/MachineSets/NodeStatus/Counts.antt =====
-- What the status counts, and how it is written: pkg/controller/machineset/status.go.
use machine_controller_k0s.Prelude.{
  ℕ, zero, suc, ◌+◌, ◌≤◌, ◌<◌, ◌≡◌, ◌≢◌, refl, ◌⊎◌, inl, inr, List, [], ◌∷◌, Bool, true, false,
  arith, length, keep_if, none, some, Option-cases, ◌&&◌, Bool-cases, length-keep_if-le,
  if◌then◌else◌,
}
use machine_controller_k0s.Prelude.Int.{int32, ℤ, pos, eq_ℤ, eq_ℤ_iff, int32_of_Fits}
use machine_controller_k0s.Api.{
  ApiError, api, later_answers, Result, ok, err, Error, Api, send, ask, Result-cases, next_answer,
}
use machine_controller_k0s.Objects.{
  template_labels, read_map, MachineSetStatus, MachineSet, Machine, Node,
}
use machine_controller_k0s.MachineSets.Requests.{Request, update_status}
use machine_controller_k0s.MachineSets.NodeStatus.{
  status_update_retries, Counters, is_node_ready, is_node_available, get_machine_node, matches_all,
  count_machine, count_machines, calculate_status, same_counts, update_with_retries,
  update_machine_set_status,
}

abbrev pub satisfies : (Node → Bool) → Result Node → Bool
satisfies test (err e) = false
satisfies test (ok node) = test node

int32_of_count : (c n : ℕ) → c ≡ 0 + n → n < 2147483648 → int32 (pos c) ≡ pos n
int32_of_count c n h few = ground (arith, int32_of_Fits (pos n))

module _ (read : Machine → Result Node) (now : ℕ) (ms : MachineSet) where
  abbrev pub has_labels : Machine → Bool
  has_labels m = matches_all (template_labels ms.template) (read_map m.labels)

  abbrev pub has_ready_node : Machine → Bool
  has_ready_node m = satisfies (λ node. is_node_ready node.conditions) (get_machine_node read m)

  abbrev pub has_available_node : Machine → Bool
  has_available_node m =
      satisfies (λ node. is_node_available node ms.min_ready_seconds now) (get_machine_node read m)

  available-ready : (m : Machine) → has_available_node m ≡ true → has_ready_node m ≡ true
  unfolding is_node_available
  available-ready m h = ground arith

  count_machine_lem :
      (m : Machine) (c : Counters)
      → ((count_machine read now ms m c).labeled ≡ c.labeled + (if has_labels m then 1 else 0))
        × ((count_machine read now ms m c).ready ≡ c.ready + (if has_ready_node m then 1 else 0))
        × ((count_machine read now ms m c).available
            ≡ c.available + (if has_available_node m then 1 else 0))
  unfolding count_machine is_node_available
  count_machine_lem m c = elim (Result-cases (get_machine_node read m)) [
    | inl (node, e) ↦ ground (arith, e)
    | inr (why, e) ↦ ground (arith, e)
  ]

  count_machines_lem :
      (machines : List Machine) (c : Counters)
      → ((count_machines read now ms machines c).labeled
          ≡ c.labeled + length (keep_if has_labels machines))
        × ((count_machines read now ms machines c).ready
            ≡ c.ready + length (keep_if has_ready_node machines))
        × ((count_machines read now ms machines c).available
            ≡ c.available + length (keep_if has_available_node machines))
  unfolding count_machines
  count_machines_lem [] c = ground arith
  count_machines_lem (m ∷ rest) c =
      ground (arith, count_machine_lem m c, count_machines_lem rest (count_machine read now ms m c))

  available-le-ready :
      (machines : List Machine)
      → length (keep_if has_available_node machines) ≤ length (keep_if has_ready_node machines)
  available-le-ready [] = omega arith
  available-le-ready (m ∷ rest) = ground (arith, available-le-ready rest, available-ready m)

  -- For fewer than 2 ^ 31 machines, the status counts all of them, those with the labels of the
  -- template, those whose node is ready and those whose node is available, and of the last three
  -- numbers the available is at most the ready one, and none is above the first.
  pub calculate_status_exact :
      (machines : List Machine)
      → length machines < 2147483648
      → (calculate_status read now ms machines ≡ record ms.status {
        replicas = pos (length machines);
        fully_labeled_replicas = pos (length (keep_if has_labels machines));
        ready_replicas = pos (length (keep_if has_ready_node machines));
        available_replicas = pos (length (keep_if has_available_node machines));
      })
        × (length (keep_if has_labels machines) ≤ length machines)
        × (length (keep_if has_ready_node machines) ≤ length machines)
        × (length (keep_if has_available_node machines) ≤ length (keep_if has_ready_node machines))
  unfolding calculate_status
  calculate_status_exact machines few =
      let start : Counters = record { labeled = 0; ready = 0; available = 0 } in
      let (l, r, a) = count_machines_lem machines start in
      let ar = available-le-ready machines in
      let ll = length-keep_if-le has_labels machines in
      let rl = length-keep_if-le has_ready_node machines in
      (
        rw
            (
              int32_of_count (length machines) (length machines) (omega arith) few,
              int32_of_count _ _ l (omega arith),
              int32_of_count _ _ r (omega arith),
              int32_of_count _ _ a (omega arith),
            )
            refl,
        ll,
        rl,
        ar,
      )

same_status :
    (a b : MachineSetStatus) (g : ℤ)
    → (same_counts a b && eq_ℤ g a.observed_generation) ≡ true
    → a ≡ record b { observed_generation = g }
same_status a b g h = ground (
  arith,
  eq_ℤ_iff a.replicas b.replicas,
  eq_ℤ_iff a.fully_labeled_replicas b.fully_labeled_replicas,
  eq_ℤ_iff a.ready_replicas b.ready_replicas,
  eq_ℤ_iff a.available_replicas b.available_replicas,
  eq_ℤ_iff g a.observed_generation,
)

other_status :
    (a b : MachineSetStatus) (g : ℤ)
    → (same_counts a b && eq_ℤ g a.observed_generation) ≡ false
    → a ≢ record b { observed_generation = g }
other_status a b g h e = ground (
  arith,
  e,
  h,
  eq_ℤ_iff b.replicas b.replicas,
  eq_ℤ_iff b.fully_labeled_replicas b.fully_labeled_replicas,
  eq_ℤ_iff b.ready_replicas b.ready_replicas,
  eq_ℤ_iff b.available_replicas b.available_replicas,
  eq_ℤ_iff g g,
)

-- One accepted write of a set with the status, or an error and no accepted request.
abbrev pub IsWritten : MachineSetStatus → Api Request → Result MachineSet × Api Request → Type 0
IsWritten status s (answer, s') =
    ((r : MachineSet) × (answer ≡ ok r)
      × (r.status ≡ status)
      × (s'.accepted ≡ update_status r ∷ s.accepted))
    ⊎ ((e : Error) × (answer ≡ err e) × (s'.accepted ≡ s.accepted))

abbrev answered : ℕ → Api Request → Api Request
answered zero s = s
answered (suc n) s = record (answered n s) { answers = later_answers (answered n s).answers }

retried :
    (left : ℕ) (fresh ms : MachineSet) (status : MachineSetStatus) (s : Api Request) (e : ApiError)
    → next_answer s.answers ≡ some e
    → next_answer (later_answers s.answers) ≡ none
    → update_with_retries (suc left) fresh ms status s
      ≡ update_with_retries left fresh fresh status (answered 2 s)
unfolding update_with_retries send ask
retried left fresh ms status s e h k = ground arith

update_with_retries-IsWritten :
    (left : ℕ) (fresh ms : MachineSet) (status : MachineSetStatus) (s : Api Request)
    → IsWritten status s (update_with_retries left fresh ms status s)
unfolding update_with_retries send ask
update_with_retries-IsWritten zero fresh ms status s = elim (Option-cases (next_answer s.answers)) [
  | inl e ↦ inl (record ms { status = status }, ground arith, refl, ground arith)
  | inr (why, e) ↦ inr (api why, ground arith, ground arith)
]
update_with_retries-IsWritten (suc left) fresh ms status s =
    elim (Option-cases (next_answer s.answers)) [
      | inl e ↦ inl (record ms { status = status }, ground arith, refl, ground arith)
      | inr (why, e) ↦ elim (Option-cases (next_answer (later_answers s.answers))) [
        | inl k ↦
            rw (retried left fresh ms status s why e k)
              (update_with_retries-IsWritten left fresh fresh status (answered 2 s))
        | inr (unread, k) ↦ inr (api unread, ground arith, ground arith)
      ]
    ]

-- The status is written with the generation of the set that was calculated from: nothing is sent if
-- it is there already, and otherwise one request is accepted, unless the call returns an error.
pub update_machine_set_status_lem :
    (fresh ms : MachineSet) (status : MachineSetStatus) (s : Api Request)
    → let wanted = record status { observed_generation = ms.generation } in
      ((ms.status ≡ wanted) × (update_machine_set_status fresh ms status s ≡ (ok ms, s)))
      ⊎ ((ms.status ≢ wanted) × IsWritten wanted s (update_machine_set_status fresh ms status s))
unfolding update_machine_set_status
update_machine_set_status_lem fresh ms status s =
    elim (Bool-cases
      (same_counts ms.status status && eq_ℤ ms.generation ms.status.observed_generation)) [
        | inl same ↦ inl (same_status ms.status status ms.generation same, rw same refl)
        | inr changed ↦ inr (
          other_status ms.status status ms.generation changed,
          rw changed (
              update_with_retries-IsWritten status_update_retries fresh ms
                (record status { observed_generation = ms.generation }) s),
        )
      ]
