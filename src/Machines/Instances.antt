-- ===== src/Machines/Instances.antt =====
-- The creation of instances: createProviderInstance and ensureInstanceExistsForMachine of
-- pkg/controller/machine/machine.go.
pub mod Guarded
use machine_controller_k0s.Prelude.{ℕ, Option, none, some, Bool, true, false, List, if◌then◌else◌}
use machine_controller_k0s.Prelude.Decimal.{Text, codes, text_eq}
use machine_controller_k0s.Api.{Error, message, Result, ok, err}
use machine_controller_k0s.Objects.{Machine, MachineSpec, NodeAddress}
use machine_controller_k0s.ProviderConfig.{Config}
use machine_controller_k0s.Machines.Update.{
  Machining, Client, update_machine_with, ensure_delete_finalizer_exists,
  add_rhel_subscription_finalizer,
}
use machine_controller_k0s.Machines.Provider.{
  Provider, ProviderError, instance_not_found, terminal, transient, Answer, answer, failure,
  Instance, update_machine_error_if_terminal_error,
}
use machine_controller_k0s.Machines.Deletion.{Outcome}
use machine_controller_k0s.Machines.Link.{Linking, ensure_node_owner_ref_and_config_source}

-- The kubeconfig with a bootstrap token, and the user data of the plugin for the operating system,
-- from the spec, the kubeconfig and the provider's cloud config.
pub record Bootstrap : Type 0 where
  pub create_bootstrap_kubeconfig : Text → Result Text
  pub user_data : MachineSpec → Text → Text × Text → Result Text

-- What createProviderInstance returns: an error of the controller or the provider's answer.
abbrev pub Created : Type 0
Created = Result (Answer Instance)

module _ (c : Client) (prov : Provider) where
  -- The finalizers come first. Their error is an ordinary one, which is never terminal.
  unfoldable pub create_provider_instance : Text → Machining → Created × Machining
  unfolding ensure_delete_finalizer_exists
  create_provider_instance userdata s =
      let (ensured, s₁) = ensure_delete_finalizer_exists c s in
      let (created, s₂) = prov.create userdata s₁ in
      elim ensured [
        | err e ↦ (err (message "failed to add finalizer"), s₁)
        | ok u ↦ (ok created, s₂)
      ]

  abbrev pub with_addresses : List NodeAddress → Machine → Machine
  with_addresses l m = record m { addresses = l }

  module _ (b : Bootstrap) where
    abbrev pub after_terminal : Error → ProviderError → Machining → Outcome × Machining
    after_terminal wrapped e s =
        let (why, s') =
          update_machine_error_if_terminal_error c (codes "CreateMachineError")
            (codes "Unable to create a machine.") wrapped e s in
        (err why, s')

    abbrev with_subscription_of : Config → Machining → Outcome × Machining
    with_subscription_of config s =
        let (added, s') = add_rhel_subscription_finalizer c s in
        if text_eq config.operating_system (codes "rhel")
        then elim added [
          | err e ↦ (err (message "failed to add redhat subscription finalizer"), s')
          | ok u ↦ (ok (some 30), s')
        ]
        else (ok (some 30), s)

    -- With the user data.
    unfoldable pub create_with : Config → Text → Machining → Outcome × Machining
    unfolding create_provider_instance text_eq add_rhel_subscription_finalizer
        update_machine_error_if_terminal_error
    create_with config userdata s =
        let (created, s') = create_provider_instance userdata s in
        elim created [
          | err e ↦ (err (message "failed to create machine at cloudprovider"), s')
          | ok (failure e) ↦
              after_terminal (message "failed to create machine at cloudprovider") e s'
          | ok (answer found) ↦ with_subscription_of config s'
        ]

    -- The provider does not know the instance.
    unfoldable pub create_instance : Config → Machining → Outcome × Machining
    unfolding create_with
    create_instance config s = elim (b.create_bootstrap_kubeconfig s.machine.name) [
      | err e ↦ (err (message "failed to create bootstrap kubeconfig"), s)
      | ok kubeconfig ↦ elim (prov.get_cloud_config s.machine.spec) [
        | none ↦ (err (message "failed to render cloud config"), s)
        | some cloud_config ↦ elim (b.user_data s.machine.spec kubeconfig cloud_config) [
          | err e ↦ (err (message "failed get userdata"), s)
          | ok userdata ↦ create_with config userdata s
        ]
      ]
    ]

    -- The provider knows the instance.
    unfoldable pub adopt_instance : Linking → Config → Instance → Machining → Outcome × Machining
    unfolding ensure_delete_finalizer_exists update_machine_with
        ensure_node_owner_ref_and_config_source
    adopt_instance k config found s =
        let (ensured, s₁) = ensure_delete_finalizer_exists c s in
        let (updated, s₂) = update_machine_with c (with_addresses found.instance_addresses) s₁ in
        let linked = ensure_node_owner_ref_and_config_source k c config.cloud_provider found s₂ in
        elim ensured [
          | err e ↦ (err e, s₁)
          | ok u ↦ elim updated [
            | err e ↦ (err (message "failed to update machine after setting .status.addresses"), s₂)
            | ok v ↦ linked
          ]
        ]

    unfoldable pub ensure_instance_exists_for_machine :
        Linking → Config → Machining → Outcome × Machining
    unfolding create_instance adopt_instance update_machine_error_if_terminal_error
    ensure_instance_exists_for_machine k config s =
        let (got, s₁) = prov.get s in
        elim got [
          | failure instance_not_found ↦ create_instance config s₁
          | failure (terminal why text) ↦
              after_terminal (message "failed to get instance from provider") (terminal why text) s₁
          | failure (transient text) ↦ (err (message "failed to get instance from provider"), s₁)
          | answer found ↦ adopt_instance k config found s₁
        ]
