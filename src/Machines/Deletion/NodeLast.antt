-- ===== src/Machines/Deletion/NodeLast.antt =====
-- The node is deleted after the instance: pkg/controller/machine/machine.go.
use machine_controller_k0s.Prelude.{
  ◌≡◌, ◌≢◌, refl, ap, ◌∙◌, ◌⊎◌, inl, inr, none, true, false, arith, ℕ,
}
use machine_controller_k0s.Prelude.Decimal.{codes}
use machine_controller_k0s.Api.{
  Error, message, ok, Api, ask, Added, Added-none, Added-trans, Added-imp,
}
use machine_controller_k0s.Objects.{Machine}
use machine_controller_k0s.Eviction.Cordon.{IsCordon}
use machine_controller_k0s.Eviction.Order.{run_eviction-IsOrderly}
use machine_controller_k0s.Machines.{Cluster, should_evict}
use machine_controller_k0s.Machines.Requests.{Request}
use machine_controller_k0s.Machines.Update.{Machining, has_finalizer, finalizer_delete_instance}
use machine_controller_k0s.Machines.Provider.{
  Provider, ProviderError, Answer, answer, failure, IsMachineUpdate,
  update_machine_error_if_terminal_error,
}
use machine_controller_k0s.Machines.Effect.{
  Updates, IsKept, IsMachineUpdate-IsKept, IsCordon-IsKept,
  update_machine_error_if_terminal_error-Updates,
}
use machine_controller_k0s.Machines.Deletion.{
  Surroundings, draining, delete_cloud_provider_instance, evict_node, delete_instance_and_node,
  delete_machine_object,
}

Answer-cases :
    {A : Type 0} (r : Answer A)
    → ((a : A) × (r ≡ answer a)) ⊎ ((e : ProviderError) × (r ≡ failure e))
Answer-cases (answer a) = inl (a, refl)
Answer-cases (failure e) = inr (e, refl)

abbrev Keeps : Machining → Machining → Type 0
Keeps s t = Added IsKept s.server.accepted t.server.accepted

should_evict_accepted :
    (now skip_after : ℕ) (cluster : Cluster) (machine : Machine) (s : Api Request)
    → (should_evict now skip_after cluster machine s).1.accepted ≡ s.accepted
unfolding should_evict ask
should_evict_accepted now skip_after cluster machine s = ground arith

module _ (w : Surroundings) (prov : Provider) where
  -- The error and the machine after a failure of the provider.
  abbrev after_failure : ProviderError → Machining → Error × Machining
  after_failure e s =
      update_machine_error_if_terminal_error w.client (codes "DeleteMachineError")
        (codes "Please manually delete the finalizer")
        (message "failed to delete machine at cloud provider") e s

  delete_failed :
      (s : Machining) (e : ProviderError)
      → has_finalizer finalizer_delete_instance s.machine.finalizers ≡ true
      → (prov.cleanup s).0 ≡ failure e
      → ((delete_cloud_provider_instance w prov s).0 ≢ ok none)
        × ((delete_cloud_provider_instance w prov s).1 ≡ (after_failure e (prov.cleanup s).1).1)
  unfolding delete_cloud_provider_instance
  delete_failed s e h failed = ground arith

  delete_pending :
      (s : Machining)
      → has_finalizer finalizer_delete_instance s.machine.finalizers ≡ true
      → (prov.cleanup s).0 ≡ answer false
      → ((delete_cloud_provider_instance w prov s).0 ≢ ok none)
        × ((delete_cloud_provider_instance w prov s).1 ≡ (prov.cleanup s).1)
  unfolding delete_cloud_provider_instance
  delete_pending s h e = ground arith

  delete_stops :
      (s : Machining)
      → has_finalizer finalizer_delete_instance s.machine.finalizers ≡ true
      → (prov.cleanup s).0 ≢ answer true
      → ((delete_cloud_provider_instance w prov s).0 ≢ ok none)
        × Updates s (delete_cloud_provider_instance w prov s).1
  delete_stops s h gone = elim (Answer-cases (prov.cleanup s).0) [
    | inr (e, failed) ↦ (
      (delete_failed s e h failed).0,
      rw (delete_failed s e h failed).1 (
          Added-trans IsMachineUpdate s.server.accepted (prov.cleanup s).1.server.accepted
            (after_failure e (prov.cleanup s).1).1.server.accepted (prov.cleanup_updates s)
            (update_machine_error_if_terminal_error-Updates w.client (codes "DeleteMachineError")
              (codes "Please manually delete the finalizer")
              (message "failed to delete machine at cloud provider") e (prov.cleanup s).1)),
    )
    | inl (true, e) ↦ absurd (gone e)
    | inl (false, e) ↦
        ((delete_pending s h e).0, rw (delete_pending s h e).1 (prov.cleanup_updates s))
  ]

  stops_there :
      (s : Machining)
      → (delete_cloud_provider_instance w prov s).0 ≢ ok none
      → (delete_instance_and_node w prov s).1 ≡ (delete_cloud_provider_instance w prov s).1
  unfolding delete_instance_and_node
  stops_there s h = ground arith

  delete_instance_and_node-Keeps :
      (s : Machining)
      → has_finalizer finalizer_delete_instance s.machine.finalizers ≡ true
      → ((t : Machining) → (prov.cleanup t).0 ≢ answer true)
      → Keeps s (delete_instance_and_node w prov s).1
  delete_instance_and_node-Keeps s h gone =
      let (stopped, updates) = delete_stops s h (gone s) in
      rw (stops_there s stopped) (
        Added-imp IsMachineUpdate IsKept IsMachineUpdate-IsKept s.server.accepted
          (delete_cloud_provider_instance w prov s).1.server.accepted updates)

  abbrev asked : Machining → Machining
  asked s = record s {
    server = (should_evict w.now w.skip_eviction_after w.cluster s.machine s.server).1;
  }

  asked-Keeps : (s : Machining) → Keeps s (asked s)
  asked-Keeps s =
      Added-none IsKept s.server.accepted (asked s).server.accepted
        (should_evict_accepted w.now w.skip_eviction_after w.cluster s.machine s.server)

  evict_node-Keeps : (s : Machining) → Keeps s (evict_node w s).1
  unfolding evict_node
  evict_node-Keeps s =
      Added-imp IsCordon IsKept IsCordon-IsKept s.server.accepted (evict_node w s).1.server.accepted
        (run_eviction-IsOrderly w.eviction w.evict_pods w.eviction_view (draining s)).0

  evicted-Keeps : (s : Machining) → Keeps s (evict_node w (asked s)).1
  evicted-Keeps s =
      Added-trans IsKept s.server.accepted (asked s).server.accepted
        (evict_node w (asked s)).1.server.accepted (asked-Keeps s) (evict_node-Keeps (asked s))

  evict_node_machine : (s : Machining) → (evict_node w s).1.machine ≡ s.machine
  unfolding evict_node
  evict_node_machine s = refl

  -- How far the deletion comes.
  delete_machine_object_stops :
      (s : Machining)
      → ((delete_machine_object w prov s).1 ≡ asked s)
        ⊎ ((delete_machine_object w prov s).1 ≡ (evict_node w (asked s)).1)
        ⊎ ((delete_machine_object w prov s).1 ≡ (delete_instance_and_node w prov (asked s)).1)
        ⊎ ((delete_machine_object w prov s).1
            ≡ (delete_instance_and_node w prov (evict_node w (asked s)).1).1)
  unfolding delete_machine_object
  delete_machine_object_stops s = ground arith

  -- A deletion starts with the finalizer of the instance on the machine, and the provider never
  -- reports the instance as completely gone: then nothing that is accepted deletes a node, whatever
  -- the eviction does and the server answers.
  pub delete_machine_object-KeepsNode :
      (s : Machining)
      → has_finalizer finalizer_delete_instance s.machine.finalizers ≡ true
      → ((t : Machining) → (prov.cleanup t).0 ≢ answer true)
      → Added IsKept s.server.accepted (delete_machine_object w prov s).1.server.accepted
  delete_machine_object-KeepsNode s h gone = elim (delete_machine_object_stops s) [
    | inl e ↦ rw e (asked-Keeps s)
    | inr (inl e) ↦ rw e (evicted-Keeps s)
    | inr (inr (inl e)) ↦ rw e (
        Added-trans IsKept s.server.accepted (asked s).server.accepted
          (delete_instance_and_node w prov (asked s)).1.server.accepted (asked-Keeps s)
          (delete_instance_and_node-Keeps (asked s) h gone))
    | inr (inr (inr e)) ↦ rw e (
        Added-trans IsKept s.server.accepted (evict_node w (asked s)).1.server.accepted
          (delete_instance_and_node w prov (evict_node w (asked s)).1).1.server.accepted
          (evicted-Keeps s)
          (delete_instance_and_node-Keeps (evict_node w (asked s)).1
            (ap (λ (m : Machine). has_finalizer finalizer_delete_instance m.finalizers)
                (evict_node_machine (asked s))
              ∙ h)
            gone))
  ]
