-- ===== src/Machines/Instances/Guarded.antt =====
-- An instance is created after its finalizers are on the server:
-- pkg/controller/machine/machine.go.
use machine_controller_k0s.Prelude.{
  ◌≡◌, ◌≢◌, refl, ap, ◌∙◌, ◌⊎◌, inl, inr, ◌∷◌, true, false, Bool-cases, arith,
}
use machine_controller_k0s.Prelude.Decimal.{Text}
use machine_controller_k0s.Api.{Error, ok, err, Result-cases, message}
use machine_controller_k0s.Objects.{Machine}
use machine_controller_k0s.Machines.Update.{
  Machining, Client, update_machine_with, has_finalizer, finalizer_delete_instance,
  finalizer_delete_node, inserted_finalizers, ensure_delete_finalizer_exists,
}
use machine_controller_k0s.Machines.Stored.{IsStored, update_machine_with-IsStored}
use machine_controller_k0s.Machines.Provider.{Provider}
use machine_controller_k0s.Machines.Instances.{create_provider_instance}

module _ (c : Client) where
  inserted_lem :
      (m : Machine)
      → has_finalizer finalizer_delete_instance (inserted_finalizers c m).finalizers ≡ true
  inserted_lem m =
      c.sorted_set_lem finalizer_delete_instance
        (finalizer_delete_node ∷ finalizer_delete_instance ∷ m.finalizers)

  -- The finalizer of the instance was there, or it was stored.
  abbrev pub IsSecured : Machining → Machining → Type 0
  IsSecured s t =
      (has_finalizer finalizer_delete_instance t.machine.finalizers ≡ true)
      × ((t ≡ s) ⊎ IsStored c (inserted_finalizers c) s t)

  ensure_there :
      (s : Machining)
      → has_finalizer finalizer_delete_instance s.machine.finalizers ≡ true
      → ensure_delete_finalizer_exists c s ≡ (ok tt, s)
  unfolding ensure_delete_finalizer_exists
  ensure_there s h = ground arith

  ensure_missing :
      (s : Machining)
      → has_finalizer finalizer_delete_instance s.machine.finalizers ≡ false
      → (update_machine_with c (inserted_finalizers c) s).0 ≡ ok tt
      → ensure_delete_finalizer_exists c s
        ≡ (ok tt, (update_machine_with c (inserted_finalizers c) s).1)
  unfolding ensure_delete_finalizer_exists
  ensure_missing s h k = ground arith

  ensure_refused :
      (s : Machining) (why : Error)
      → has_finalizer finalizer_delete_instance s.machine.finalizers ≡ false
      → (update_machine_with c (inserted_finalizers c) s).0 ≡ err why
      → (ensure_delete_finalizer_exists c s).0 ≢ ok tt
  unfolding ensure_delete_finalizer_exists
  ensure_refused s why h k = ground arith

  ensure-IsSecured :
      (s : Machining)
      → (ensure_delete_finalizer_exists c s).0 ≡ ok tt
      → IsSecured s (ensure_delete_finalizer_exists c s).1
  ensure-IsSecured s h =
      elim (Bool-cases (has_finalizer finalizer_delete_instance s.machine.finalizers)) [
        | inl e ↦ rw (ensure_there s e) (e, inl refl)
        | inr e ↦ elim (Result-cases (update_machine_with c (inserted_finalizers c) s).0) [
          | inr (why, k) ↦ absurd (ensure_refused s why e k h)
          | inl (u, k) ↦
              let stored = update_machine_with-IsStored c (inserted_finalizers c) s k in
              rw (ensure_missing s e k) (
                ap (λ (m : Machine). has_finalizer finalizer_delete_instance m.finalizers) stored.2
                    ∙ inserted_lem stored.0,
                inr stored,
              )
        ]
      ]

  module _ (prov : Provider) (userdata : Text) where
    created_after :
        (s : Machining)
        → (ensure_delete_finalizer_exists c s).0 ≡ ok tt
        → create_provider_instance c prov userdata s ≡ (
          ok (prov.create userdata (ensure_delete_finalizer_exists c s).1).0,
          (prov.create userdata (ensure_delete_finalizer_exists c s).1).1,
        )
    unfolding create_provider_instance
    created_after s h = ground arith

    not_created :
        (s : Machining) (why : Error)
        → (ensure_delete_finalizer_exists c s).0 ≡ err why
        → create_provider_instance c prov userdata s
          ≡ (err (message "failed to add finalizer"), (ensure_delete_finalizer_exists c s).1)
    unfolding create_provider_instance
    not_created s why h = ground arith

    -- The provider is asked for an instance only for a machine with the finalizer of the instance,
    -- which was on it at the start, or which was on it when it was read again, or whose write is the
    -- last request accepted before. Otherwise the creation fails with the effect of the attempt to
    -- add the finalizers alone.
    pub create_provider_instance-IsGuarded :
        (s : Machining)
        → ((t : Machining) × IsSecured s t
            × (create_provider_instance c prov userdata s
                ≡ (ok (prov.create userdata t).0, (prov.create userdata t).1)))
          ⊎ (create_provider_instance c prov userdata s
              ≡ (err (message "failed to add finalizer"), (ensure_delete_finalizer_exists c s).1))
    create_provider_instance-IsGuarded s =
        elim (Result-cases (ensure_delete_finalizer_exists c s).0) [
          | inl (u, e) ↦
              inl ((ensure_delete_finalizer_exists c s).1, ensure-IsSecured s e, created_after s e)
          | inr (why, e) ↦ inr (not_created s why e)
        ]
