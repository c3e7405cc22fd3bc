-- ===== src/MachineSets/Reconcile/Guard.antt =====
-- What a reconciliation may do to a machine set that does not have its finalizer:
-- pkg/controller/machineset/machineset_controller.go.
use machine_controller_k0s.Prelude.{
  ◌≡◌, ◌⊎◌, inl, inr, List, [], ◌∷◌, ◌++◌, true, false, arith, Option-cases, String, str_eq_refl,
}
use machine_controller_k0s.Api.{Api, next_answer, send, ask}
use machine_controller_k0s.Objects.{MachineSet}
use machine_controller_k0s.Externals.{Externals}
use machine_controller_k0s.MachineSets.Requests.{Request, update_machine_set}
use machine_controller_k0s.MachineSets.DeletePolicy.{Priorities}
use machine_controller_k0s.MachineSets.Replicas.{Surroundings}
use machine_controller_k0s.MachineSets.Reconcile.{
  View, Outcome, requeue, foreground_deletion, contains, add_finalizer, reconcile,
  reconcile_request,
}

contains-append : (l : List String) (e : String) → contains (l ++ (e ∷ [])) e ≡ true
unfolding contains
contains-append [] e = ground (arith, str_eq_refl e)
contains-append (s ∷ rest) e = ground (arith, contains-append rest e)

-- Nothing was sent, or the set with its finalizer, after which the set comes back.
abbrev pub IsGuarded : Api Request → Outcome × Api Request → Type 0
IsGuarded s (outcome, s') =
    (s'.accepted ≡ s.accepted)
    ⊎ ((r : MachineSet) × (contains r.finalizers foreground_deletion ≡ true)
        × (s'.accepted ≡ update_machine_set r ∷ s.accepted)
        × (outcome ≡ requeue))

module _ (x : Externals) (w : Surroundings) (f : Priorities) where
  add_finalizer-IsGuarded :
      (ms : MachineSet) (s : Api Request) → IsGuarded s (add_finalizer x w f ms s)
  unfolding add_finalizer send
  add_finalizer-IsGuarded ms s = elim (Option-cases (next_answer s.answers)) [
    | inl e ↦ inr (
      record ms {
        meta = record ms.meta { finalizers = ms.finalizers ++ (foreground_deletion ∷ []) };
      },
      contains-append ms.finalizers foreground_deletion,
      ground arith,
      ground arith,
    )
    | inr (why, e) ↦ inl (ground arith)
  ]

  reconcile_stops :
      (v : View) (ms : MachineSet) (s : Api Request)
      → contains ms.finalizers foreground_deletion ≡ false
      → ((reconcile x w f v ms s).1 ≡ (ask s).1)
        ⊎ (reconcile x w f v ms s ≡ add_finalizer x w f ms (ask s).1)
  unfolding reconcile
  reconcile_stops v ms s h = ground arith

  reconcile-IsGuarded :
      (v : View) (ms : MachineSet) (s : Api Request)
      → contains ms.finalizers foreground_deletion ≡ false
      → IsGuarded s (reconcile x w f v ms s)
  unfolding ask
  reconcile-IsGuarded v ms s h = elim (reconcile_stops v ms s h) [
    | inl e ↦ inl (ground (arith, e))
    | inr e ↦ rw e (add_finalizer-IsGuarded ms (ask s).1)
  ]

  reconcile_request_stops :
      (v : View) (ms : MachineSet) (s : Api Request)
      → ((reconcile_request x w f v ms s).1 ≡ (ask s).1)
        ⊎ (reconcile_request x w f v ms s ≡ reconcile x w f v ms (ask s).1)
  unfolding reconcile_request
  reconcile_request_stops v ms s = ground arith

  -- No machine is created, deleted or adopted for a machine set that lacks its finalizer: the set
  -- with the finalizer is sent and the reconciliation comes back, or nothing is accepted.
  pub reconcile_request-IsGuarded :
      (v : View) (ms : MachineSet) (s : Api Request)
      → contains ms.finalizers foreground_deletion ≡ false
      → IsGuarded s (reconcile_request x w f v ms s)
  unfolding ask
  reconcile_request-IsGuarded v ms s h = elim (reconcile_request_stops v ms s) [
    | inl e ↦ inl (ground (arith, e))
    | inr e ↦ rw e (reconcile-IsGuarded v ms (ask s).1 h)
  ]
