-- ===== src/Machines/Deletion.antt =====
-- The deletion of a machine: deleteMachine, deleteCloudProviderInstance and deleteNodeForMachine of
-- pkg/controller/machine/machine.go.
pub mod NodeLast
use machine_controller_k0s.Prelude.{
  ℕ, List, [], ◌∷◌, Option, none, some, Bool, true, false, not, ◌≡◌, length, ◌==◌, if◌then◌else◌,
}
use machine_controller_k0s.Prelude.Decimal.{Text, codes, text_eq}
use machine_controller_k0s.Api.{
  api, not_found, Error, message, Result, ok, err, Api, send, ask, deref,
}
use machine_controller_k0s.Objects.{Machine, Node, NodeAddress, internal_dns, other_address}
use machine_controller_k0s.ProviderConfig.{Config, Encoding, get_config}
use machine_controller_k0s.Eviction.Pods.{Pod}
use machine_controller_k0s.Eviction.Workers.{PodError}
use machine_controller_k0s.Eviction.Drain.{run_eviction}
use machine_controller_k0s.Eviction.Drain
use machine_controller_k0s.Machines.{Cluster, should_evict}
use machine_controller_k0s.Machines.Requests.{Request, delete_node}
use machine_controller_k0s.Machines.Update.{
  Machining, Client, has_finalizer, finalizer_delete_instance, finalizer_delete_node,
  update_machine_with, without_finalizer, without_node_finalizer,
  remove_rhel_subscription_finalizer,
}
use machine_controller_k0s.Machines.Provider.{
  Provider, answer, failure, update_machine_error_if_terminal_error,
}

-- The fields of the configuration of pkg/userdata/rhel that the deletion reads.
pub record RhelConfig : Type 0 where
  pub rhel_subscription_manager_user : Text
  pub rhel_subscription_manager_password : Text
  pub rhsm_offline_token : Text
  pub rhel_use_satellite_server : Bool
  pub rhel_satellite_server : Text

-- What the controller is made of, and the calls whose code the model leaves out: the configuration of
-- RHEL, the two subscription managers, `labels.Parse`, and the eviction's view of the cluster.
pub record Surroundings : Type 1 where
  pub client : Client
  pub encoding : Encoding
  pub load_rhel_config : Text → Result RhelConfig
  pub unregister_instance : Text → Text → Result {0} Unit
  pub delete_satellite_host : Text → RhelConfig → Result {0} Unit
  pub selector_parses : Text → Bool
  pub eviction : Drain.Surroundings
  pub now : ℕ
  pub skip_eviction_after : ℕ
  pub cluster : Cluster
  pub eviction_view : Drain.View
  pub evict_pods : List Pod → List PodError
  -- the nodes with the owner label of the machine
  pub owned_nodes : Result (List Node)

-- `reconcile.Result` with its delay in seconds; `none` is nil.
abbrev pub Outcome : Type 0
Outcome = Result (Option ℕ)

abbrev pub deletion_retry_wait_period : ℕ
deletion_retry_wait_period = 10

-- The last internal DNS name.
unfoldable pub last_internal_dns : Text → List NodeAddress → Text
last_internal_dns name [] = name
last_internal_dns name (a ∷ addresses) = elim a.address_type [
  | internal_dns ↦ last_internal_dns a.address addresses
  | other_address t ↦ last_internal_dns name addresses
]

-- `client.Delete` of a node.
unfoldable pub send_delete_node : Node → Machining → Result {0} Unit × Machining
unfolding send
send_delete_node node s =
    let (e, server) = send (delete_node node) s.server in
    let s' = record s { server = server } in
    elim e [ none ↦ (ok tt, s') | some why ↦ (err (api why), s') ]

unfoldable pub get_node : Machining → Result Node × Machining
get_node s = elim s.node_reads [
  | [] ↦ (err (api not_found), s)
  | r ∷ rest ↦ (r, record s { node_reads = rest })
]

unfoldable pub delete_nodes : List Node → Machining → Result {0} Unit × Machining
unfolding send_delete_node
delete_nodes [] s = (ok tt, s)
delete_nodes (node ∷ nodes) s =
    let (deleted, s') = send_delete_node node s in
    let rest = delete_nodes nodes s' in elim deleted [ err e ↦ (err e, s') | ok u ↦ rest ]

-- An error "not found" is passed over.
abbrev pub unless_missing : Result {0} Unit → Result {0} Unit
unless_missing (ok u) = ok tt
unless_missing (err (api not_found)) = ok tt
unless_missing (err e) = err e

abbrev pub is_missing : Error → Bool
is_missing (api not_found) = true
is_missing e = false

-- Of a reference to a node.
unfoldable pub delete_referenced : Machining → Result {0} Unit × Machining
unfolding get_node send_delete_node
delete_referenced s =
    let (read, s₁) = get_node s in
    elim read [
      | err e ↦ (if is_missing e then ok tt else err (message "failed to get node"), s₁)
      | ok node ↦ let (deleted, s₂) = send_delete_node node s₁ in (unless_missing deleted, s₂)
    ]

abbrev pub draining : Machining → Drain.Draining
draining s = record { reads = s.node_reads; server = s.server }

module _ (w : Surroundings) where
  -- Of a machine without a reference.
  unfoldable pub delete_owned : Machining → Result {0} Unit × Machining
  unfolding delete_nodes
  delete_owned s =
      if not (w.selector_parses s.machine.uid)
      then (err (message "failed to parse label selector"), s)
      else elim w.owned_nodes [
        | err e ↦ (err (message "failed to list nodes"), s)
        | ok nodes ↦ delete_nodes nodes s
      ]

  unfoldable pub delete_nodes_of_machine : Machining → Result {0} Unit × Machining
  unfolding delete_referenced delete_owned
  delete_nodes_of_machine s = elim s.machine.node_ref [
    | some name ↦ delete_referenced s
    | none ↦ delete_owned s
  ]

  unfoldable pub delete_node_for_machine : Machining → Result {0} Unit × Machining
  unfolding delete_nodes_of_machine update_machine_with
  delete_node_for_machine s =
      let (deleted, s') = delete_nodes_of_machine s in
      elim deleted [
        | err e ↦ (err e, s')
        | ok u ↦ update_machine_with w.client (without_node_finalizer w.client) s'
      ]

  abbrev subscribed_name : Config → Machine → Text
  subscribed_name config machine =
      if text_eq config.cloud_provider (codes "aws")
      then last_internal_dns machine.name machine.addresses
      else machine.name

  abbrev unregister : RhelConfig → Text → Result {0} Unit
  unregister rhel name =
      if length rhel.rhsm_offline_token == 0
      then ok tt
      else w.unregister_instance rhel.rhsm_offline_token name

  abbrev unhost : RhelConfig → Text → Result {0} Unit
  unhost rhel name =
      if rhel.rhel_use_satellite_server then w.delete_satellite_host name rhel else ok tt

  -- What is undone for an instance with a subscription of Red Hat.
  unfoldable pub unsubscribe : Config → Machining → Result {0} Unit × Machining
  unfolding text_eq last_internal_dns remove_rhel_subscription_finalizer
  unsubscribe config s =
      let (removed, s') = remove_rhel_subscription_finalizer w.client s in
      elim (w.load_rhel_config config.operating_system_spec) [
        | err e ↦ (err (message "failed to get rhel os specs"), s)
        | ok rhel ↦ elim (unregister rhel (subscribed_name config s.machine)) [
          | err e ↦ (err (message "failed to delete subscription for machine name"), s)
          | ok u ↦ elim (unhost rhel (subscribed_name config s.machine)) [
            | err e ↦ (err (message "failed to delete redhat satellite host"), s)
            | ok v ↦ elim removed [
              | err e ↦ (err (message "failed to remove redhat subscription finalizer"), s')
              | ok w ↦ (ok tt, s')
            ]
          ]
        ]
      ]

  -- The instance is gone: the subscriptions, then the finalizer.
  unfoldable pub release_instance : Machining → Outcome × Machining
  unfolding get_config text_eq unsubscribe update_machine_with
  release_instance s = elim (get_config w.encoding (some s.machine.spec.provider_spec)) [
    | err e ↦ (err (message "failed to get provider config"), s)
    | ok config ↦
        let (undone, s') =
          if text_eq config.operating_system (codes "rhel")
          then unsubscribe config s
          else (ok tt, s) in
        let (updated, s'') =
          update_machine_with w.client (without_finalizer w.client finalizer_delete_instance) s' in
        elim undone [
          | err e ↦ (err e, s')
          | ok u ↦ elim updated [ err e ↦ (err e, s'') | ok v ↦ (ok none, s'') ]
        ]
  ]

  -- The eviction of the node of the machine, which `should_evict` found.
  unfoldable pub evict_node : Machining → Result Bool × Machining
  unfolding run_eviction
  evict_node s =
      let (evicted, d) = run_eviction w.eviction w.evict_pods w.eviction_view (draining s) in
      (evicted, record s { node_reads = d.reads; server = d.server })

  module _ (prov : Provider) where
    unfoldable pub delete_cloud_provider_instance : Machining → Outcome × Machining
    unfolding update_machine_error_if_terminal_error release_instance
    delete_cloud_provider_instance s =
        let (cleaned, s₁) = prov.cleanup s in
        if not (has_finalizer finalizer_delete_instance s.machine.finalizers)
        then (ok none, s)
        else elim cleaned [
          | failure e ↦
              let (why, s₂) =
                update_machine_error_if_terminal_error w.client (codes "DeleteMachineError")
                  (codes "Please manually delete the finalizer")
                  (message "failed to delete machine at cloud provider") e s₁ in
              (err why, s₂)
          | answer completely_gone ↦
              if not completely_gone
              then (ok (some deletion_retry_wait_period), s₁)
              else release_instance s₁
        ]

    -- After the eviction.
    unfoldable pub delete_instance_and_node : Machining → Outcome × Machining
    unfolding delete_cloud_provider_instance delete_node_for_machine
    delete_instance_and_node s =
        let (deleted, s₁) = delete_cloud_provider_instance s in
        let (forgotten, s₂) = delete_node_for_machine s₁ in
        elim deleted [
          | err e ↦ (err e, s₁)
          | ok (some delay) ↦ (ok (some delay), s₁)
          | ok none ↦
              if has_finalizer finalizer_delete_instance s₁.machine.finalizers
              then (ok none, s₁)
              else elim forgotten [ err e ↦ (err e, s₂) | ok u ↦ (ok none, s₂) ]
        ]

    unfoldable pub delete_machine_object : Machining → Outcome × Machining
    unfolding should_evict evict_node delete_instance_and_node
    delete_machine_object s =
        let (wanted, server) =
          should_evict w.now w.skip_eviction_after w.cluster s.machine s.server in
        let s₁ = record s { server = server } in
        let (evicted, s₂) = evict_node s₁ in
        elim wanted [
          | err e ↦ (err e, s₁)
          | ok false ↦ delete_instance_and_node s₁
          | ok true ↦ elim evicted [
            | err e ↦ (err (message "failed to evict node"), s₂)
            | ok true ↦ (ok (some 10), s₂)
            | ok false ↦ delete_instance_and_node s₂
          ]
        ]
