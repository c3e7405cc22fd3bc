-- ===== src/Machines/Stored.antt =====
-- What an update of the machine that succeeds leaves in memory and on the server:
-- pkg/cloudprovider/types/types.go.
use mathlib.Core.Path.{subst}
use machine_controller_k0s.Prelude.{
  ◌≡◌, ◌≢◌, refl, ◌∙◌, ◌⊎◌, inl, inr, List, [], ◌∷◌, true, IsAmong, arith,
}
use machine_controller_k0s.Api.{Error, Result, ok, err, Result-cases, send}
use machine_controller_k0s.Objects.{Machine}
use machine_controller_k0s.Retries.{Retried, last, again}
use machine_controller_k0s.Machines.Requests.{Request, update_machine}
use machine_controller_k0s.Machines.Update.{
  Machining, Client, get_machine, send_machine, try_update_machine, update_machine_with,
}

module _ (c : Client) (modify : Machine → Machine) where
  -- The machine in memory is a machine that was read, with the change, and the server has its
  -- finalizers: the change left those that were read, or it was the last request accepted.
  abbrev pub IsStored : Machining → Machining → Type 0
  IsStored s t =
      (m : Machine) × IsAmong (ok m) s.machine_reads
      × (t.machine ≡ modify m)
      × ((m.finalizers ≡ (modify m).finalizers)
          ⊎ ((older : List Request) × (t.server.accepted ≡ update_machine (modify m) ∷ older)))

  get_machine-IsAmong :
      (s : Machining) (m : Machine) (reads : List (Result Machine))
      → s.machine_reads ≡ reads
      → (get_machine s).0 ≡ ok m
      → IsAmong (ok m) reads
  unfolding get_machine
  get_machine-IsAmong s m [] e h = ground (arith, e, h)
  get_machine-IsAmong s m (r ∷ rest) e h = inl (ground (arith, e, h))

  reads_later :
      (s : Machining)
      → (try_update_machine c modify s).1.machine_reads ≡ (get_machine s).1.machine_reads
  unfolding try_update_machine send_machine
  reads_later s = ground arith

  get_machine_none : (s : Machining) → s.machine_reads ≡ [] → (get_machine s).1.machine_reads ≡ []
  unfolding get_machine
  get_machine_none s e = ground (arith, e)

  get_machine_some :
      (s : Machining) (q : Result Machine) (rest : List (Result Machine))
      → s.machine_reads ≡ q ∷ rest
      → (get_machine s).1.machine_reads ≡ rest
  unfolding get_machine
  get_machine_some s q rest e = ground (arith, e)

  try_update_machine-IsAmong :
      (s : Machining) (r : Result Machine) (reads : List (Result Machine))
      → s.machine_reads ≡ reads
      → IsAmong r (try_update_machine c modify s).1.machine_reads
      → IsAmong r reads
  try_update_machine-IsAmong s r [] e h =
      subst (λ l. IsAmong r l) (reads_later s ∙ get_machine_none s e) h
  try_update_machine-IsAmong s r (q ∷ rest) e h =
      inr (subst (λ l. IsAmong r l) (reads_later s ∙ get_machine_some s q rest e) h)

  try_ok :
      (s : Machining) (m : Machine)
      → (get_machine s).0 ≡ ok m
      → (try_update_machine c modify s).0 ≡ ok tt
      → ((try_update_machine c modify s).1.machine ≡ modify m)
        × ((c.same_machine m (modify m) ≡ true)
            ⊎ ((try_update_machine c modify s).1.server.accepted
                ≡ update_machine (modify m) ∷ s.server.accepted))
  unfolding try_update_machine get_machine send_machine send
  try_ok s m e h = ground arith

  try_failed :
      (s : Machining) (why : Error)
      → (get_machine s).0 ≡ err why
      → (try_update_machine c modify s).0 ≢ ok tt
  unfolding try_update_machine
  try_failed s why e h = ground arith

  with_older :
      (m : Machine) (t : Machining) (older : List Request)
      → (c.same_machine m (modify m) ≡ true)
        ⊎ (t.server.accepted ≡ update_machine (modify m) ∷ older)
      → (m.finalizers ≡ (modify m).finalizers)
        ⊎ ((rest : List Request) × (t.server.accepted ≡ update_machine (modify m) ∷ rest))
  with_older m t older (inl same) = inl (c.same_machine_finalizers m (modify m) same)
  with_older m t older (inr e) = inr (older, e)

  try_update_machine-IsStored :
      (s : Machining)
      → (try_update_machine c modify s).0 ≡ ok tt
      → IsStored s (try_update_machine c modify s).1
  try_update_machine-IsStored s h = elim (Result-cases (get_machine s).0) [
    | inr (why, e) ↦ absurd (try_failed s why e h)
    | inl (m, e) ↦
        let (held, sent) = try_ok s m e h in
        (
          m,
          get_machine-IsAmong s m s.machine_reads refl e,
          held,
          with_older m (try_update_machine c modify s).1 s.server.accepted sent,
        )
  ]

  Retried-IsStored :
      (s : Machining) {r : Result {0} Unit × Machining}
      → Retried (try_update_machine c modify) s r
      → r.0 ≡ ok tt
      → IsStored s r.1
  Retried-IsStored s (last _) h = try_update_machine-IsStored s h
  Retried-IsStored s (again _ {r} e later) h =
      let (m, among, held, sent) = Retried-IsStored (try_update_machine c modify s).1 later h in
      (m, try_update_machine-IsAmong s (ok m) s.machine_reads refl among, held, sent)

  pub update_machine_with-IsStored :
      (s : Machining)
      → (update_machine_with c modify s).0 ≡ ok tt
      → IsStored s (update_machine_with c modify s).1
  unfolding update_machine_with
  update_machine_with-IsStored s h =
      Retried-IsStored s (c.retries.retry_on_conflict-Retried (try_update_machine c modify) s) h
