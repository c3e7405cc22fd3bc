-- ===== src/Machines/Effect.antt =====
-- An update of the machine only writes the machine: pkg/cloudprovider/types/types.go.
use machine_controller_k0s.Prelude.{◌≡◌, refl, ◌⊎◌, inl, inr, true, false, Bool-cases, arith}
use machine_controller_k0s.Prelude.Decimal.{Text}
use machine_controller_k0s.Api.{
  Error, Result, ok, err, send, Result-cases, Added, Added-none, Added-trans, Added-send,
}
use machine_controller_k0s.Objects.{Machine}
use machine_controller_k0s.Retries.{Retried, last, again}
use machine_controller_k0s.Machines.Requests.{
  Request, update_machine, delete_machine, update_node, delete_node,
}
use machine_controller_k0s.Eviction.Cordon.{IsCordon}
use machine_controller_k0s.Machines.Update.{
  Machining, Client, get_machine, send_machine, try_update_machine, update_machine_with,
  update_machine_error, set_error,
}
use machine_controller_k0s.Machines.Provider.{
  IsMachineUpdate, ProviderError, terminal, transient, instance_not_found,
  update_machine_error_if_terminal_error,
}

-- Only updates of machines were accepted between the two.
abbrev pub Updates : Machining → Machining → Type 0
Updates s t = Added IsMachineUpdate s.server.accepted t.server.accepted

get_machine_server : (s : Machining) → (get_machine s).1.server ≡ s.server
unfolding get_machine
get_machine_server s = ground arith

send_machine_server :
    (m : Machine) (s : Machining)
    → (send_machine m s).1.server ≡ (send (update_machine m) s.server).1
unfolding send_machine
send_machine_server m s = ground arith

module _ (c : Client) (modify : Machine → Machine) where
  try_unread :
      (s : Machining) (why : Error)
      → (get_machine s).0 ≡ err why
      → (try_update_machine c modify s).1.server ≡ s.server
  unfolding try_update_machine
  try_unread s why e = ground (arith, get_machine_server s, e)

  try_same :
      (s : Machining) (m : Machine)
      → (get_machine s).0 ≡ ok m
      → c.same_machine m (modify m) ≡ true
      → (try_update_machine c modify s).1.server ≡ s.server
  unfolding try_update_machine
  try_same s m e h = ground (arith, get_machine_server s)

  try_changed :
      (s : Machining) (m : Machine)
      → (get_machine s).0 ≡ ok m
      → c.same_machine m (modify m) ≡ false
      → (try_update_machine c modify s).1.server ≡ (send (update_machine (modify m)) s.server).1
  unfolding try_update_machine
  try_changed s m e h =
      ground (arith, get_machine_server s, send_machine_server (modify m) (get_machine s).1)

  try_update_machine-Updates : (s : Machining) → Updates s (try_update_machine c modify s).1
  try_update_machine-Updates s = elim (Result-cases (get_machine s).0) [
    | inr (why, e) ↦
        rw (try_unread s why e)
          (Added-none IsMachineUpdate s.server.accepted s.server.accepted refl)
    | inl (m, e) ↦ elim (Bool-cases (c.same_machine m (modify m))) [
      | inl h ↦
          rw (try_same s m e h)
            (Added-none IsMachineUpdate s.server.accepted s.server.accepted refl)
      | inr h ↦
          rw (try_changed s m e h)
            (Added-send IsMachineUpdate (update_machine (modify m)) s.server tt)
    ]
  ]

  Retried-Updates :
      (s : Machining) {r : Result {0} Unit × Machining}
      → Retried (try_update_machine c modify) s r
      → Updates s r.1
  Retried-Updates s (last _) = try_update_machine-Updates s
  Retried-Updates s (again _ {r} e later) =
      Added-trans IsMachineUpdate s.server.accepted
        (try_update_machine c modify s).1.server.accepted r.1.server.accepted
        (try_update_machine-Updates s) (Retried-Updates (try_update_machine c modify s).1 later)

  pub update_machine_with-Updates : (s : Machining) → Updates s (update_machine_with c modify s).1
  unfolding update_machine_with
  update_machine_with-Updates s =
      Retried-Updates s (c.retries.retry_on_conflict-Retried (try_update_machine c modify) s)

module _ (c : Client) where
  terminal_error_state :
      (reason text : Text) (wrapped : Error) (e : ProviderError) (s : Machining)
      → ((update_machine_error_if_terminal_error c reason text wrapped e s).1 ≡ s)
        ⊎ ((update_machine_error_if_terminal_error c reason text wrapped e s).1
            ≡ (update_machine_error c reason text s).1)
  unfolding update_machine_error_if_terminal_error
  terminal_error_state reason text wrapped instance_not_found s = inl refl
  terminal_error_state reason text wrapped (transient t) s = inl refl
  terminal_error_state reason text wrapped (terminal why t) s = inr (ground arith)

  pub update_machine_error_if_terminal_error-Updates :
      (reason text : Text) (wrapped : Error) (e : ProviderError) (s : Machining)
      → Updates s (update_machine_error_if_terminal_error c reason text wrapped e s).1
  unfolding update_machine_error
  update_machine_error_if_terminal_error-Updates reason text wrapped e s =
      elim (terminal_error_state reason text wrapped e s) [
        | inl same ↦ rw same (Added-none IsMachineUpdate s.server.accepted s.server.accepted refl)
        | inr changed ↦ rw changed (update_machine_with-Updates c (set_error reason text) s)
      ]

-- The node that was not deleted.
abbrev pub IsKept : Request → Type 0
IsKept (delete_node node) = ⊥
IsKept (update_node node) = Unit
IsKept (update_machine machine) = Unit
IsKept (delete_machine machine) = Unit

pub IsMachineUpdate-IsKept : (r : Request) → IsMachineUpdate r → IsKept r
IsMachineUpdate-IsKept (update_machine machine) h = tt
IsMachineUpdate-IsKept (update_node node) h = tt
IsMachineUpdate-IsKept (delete_machine machine) h = tt
IsMachineUpdate-IsKept (delete_node node) h = h

pub IsCordon-IsKept : (r : Request) → IsCordon r → IsKept r
IsCordon-IsKept (update_machine machine) h = tt
IsCordon-IsKept (update_node node) h = tt
IsCordon-IsKept (delete_machine machine) h = tt
IsCordon-IsKept (delete_node node) h = h
