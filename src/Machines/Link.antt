-- ===== src/Machines/Link.antt =====
-- The node that belongs to an instance: getNode, ensureNodeOwnerRefAndConfigSource and
-- updateMachineStatus of pkg/controller/machine/machine.go.
use machine_controller_k0s.Prelude.{
  ℕ, ◌-◌, List, [], ◌∷◌, ◌++◌, Option, none, some, Bool, true, false, not, ◌&&◌, any, ltb, ◌==◌,
  if◌then◌else◌,
}
use machine_controller_k0s.Prelude.Decimal.{Text, codes, text_eq}
use machine_controller_k0s.Api.{message, Result, ok, err, send}
use machine_controller_k0s.Objects.{read_map, Machine, Node, NodeAddress, OwnerReference, value_at}
use machine_controller_k0s.Machines.Requests.{delete_machine}
use machine_controller_k0s.Machines.Update.{Machining, Client, update_machine_with}
use machine_controller_k0s.Machines.Provider.{Instance}
use machine_controller_k0s.Machines.Deletion.{Outcome}
use machine_controller_k0s.Machines.Nodes.{
  Held, Modifier, node_owner_label_name, set_label, update_node_with, as_node_error,
}

-- The list of all nodes, and the libraries: `strings.EqualFold`, `reference.GetReference`, whose
-- name stands for it, and `equality.Semantic.DeepEqual` of the machine's reference and that of a
-- node. Times are in seconds.
pub record Linking : Type 0 where
  pub nodes : Result (List Node)
  pub equal_fold : Text → Text → Bool
  pub get_reference : Node → Result Text
  pub same_reference : Option Text → Node → Bool
  pub now : ℕ
  pub join_cluster_timeout : Option ℕ

-- `strings.TrimLeft` of slashes.
unfoldable pub trim_slashes : Text → Text
trim_slashes [] = []
trim_slashes (c ∷ s) = let rest = trim_slashes s in if c == b'/' then rest else c ∷ s

abbrev pub provider_id_of : Text → Instance → Text
provider_id_of provider instance_of_machine =
    provider ++ codes ":///" ++ trim_slashes instance_of_machine.instance_id

module _ (k : Linking) where
  abbrev pub has_provider_id : Text → Instance → Node → Bool
  has_provider_id provider found node =
      if text_eq provider (codes "azure")
      then k.equal_fold node.provider_id (provider_id_of provider found)
      else text_eq node.provider_id (provider_id_of provider found)

  -- A shared address; on Hetzner the names must be the same too.
  abbrev pub shares_address : Text → Instance → Node → Bool
  shares_address provider found node =
      any
        (λ (a : NodeAddress).
          any
            (λ (b : NodeAddress).
              not
                (text_eq provider (codes "hetzner") && not (text_eq node.name found.instance_name))
              && text_eq a.address b.address)
            found.instance_addresses)
        node.node_addresses

  unfoldable pub first_node : Text → Instance → List Node → Option Node
  unfolding text_eq trim_slashes
  first_node provider found [] = none
  first_node provider found (node ∷ nodes) =
      let rest = first_node provider found nodes in
      if has_provider_id provider found node
      then some node
      else if shares_address provider found node
      then some node
      else rest

  -- `none` is an instance without a node; the caller's instance is never nil.
  unfoldable pub get_node_of_instance : Text → Instance → Result (Option Node)
  unfolding first_node
  get_node_of_instance provider found = elim k.nodes [
    | err e ↦ err e
    | ok nodes ↦ ok (first_node provider found nodes)
  ]

  unfoldable pub owner_references_has_machine_set_kind : List OwnerReference → Bool
  unfolding text_eq
  owner_references_has_machine_set_kind [] = false
  owner_references_has_machine_set_kind (o ∷ owners) =
      let rest = owner_references_has_machine_set_kind owners in
      if text_eq o.kind (codes "MachineSet") then true else rest

  abbrev same_version : Option Text → Text → Bool
  same_version none v = false
  same_version (some u) v = text_eq u v

  module _ (c : Client) where
    abbrev pub with_status : Text → Text → Machine → Machine
    with_status ref version m = record m { node_ref = some ref; kubelet_version = some version }

    unfoldable pub update_machine_status : Node → Machining → Result {0} Unit × Machining
    unfolding text_eq update_machine_with
    update_machine_status node s = elim (k.get_reference node) [
      | err e ↦ (err (message "failed to get node reference"), s)
      | ok ref ↦
          let (updated, s') = update_machine_with c (with_status ref node.kubelet_version) s in
          if k.same_reference s.machine.node_ref node
            && same_version s.machine.kubelet_version node.kubelet_version
          then (ok tt, s)
          else elim updated [
            | err e ↦ (err (message "failed to update machine after setting its status"), s')
            | ok u ↦ (ok tt, s')
          ]
    ]

    -- The label with the owner, unless it is there.
    unfoldable pub ensure_owner_label : Text → Held → Result {0} Unit × Held
    unfolding value_at text_eq update_node_with
    ensure_owner_label uid (node, s) =
        let updated = update_node_with c (set_label node_owner_label_name uid ∷ []) (node, s) in
        if text_eq (value_at node_owner_label_name (read_map node.labels)) uid
        then (ok tt, (node, s))
        else as_node_error "failed to update node after adding owner label" updated

    abbrev set_config_source : Option Text → Modifier
    set_config_source source node = ok (record node { node_config_source = source })

    abbrev lacks_source : Option Text → Option Text → Bool
    lacks_source none (some t) = true
    lacks_source none none = false
    lacks_source (some u) wanted = false

    unfoldable pub ensure_config_source : Option Text → Held → Result {0} Unit × Held
    unfolding update_node_with
    ensure_config_source source (node, s) =
        let updated = update_node_with c (set_config_source source ∷ []) (node, s) in
        if lacks_source node.node_config_source source
        then as_node_error "failed to update node after setting the config source" updated
        else (ok tt, (node, s))

    abbrev as_status_error : Result {0} Unit × Machining → Outcome × Machining
    as_status_error (ok u, s) = (ok none, s)
    as_status_error (err e, s) = (err (message "failed to update machine status"), s)

    -- The node of the instance is there.
    unfoldable pub link_node : Node → Machining → Outcome × Machining
    unfolding ensure_owner_label ensure_config_source update_machine_status
    link_node node s =
        let (labelled, (node₁, s₁)) = ensure_owner_label s.machine.uid (node, s) in
        let (sourced, (node₂, s₂)) =
          ensure_config_source s₁.machine.spec.config_source (node₁, s₁) in
        let reported = update_machine_status node₂ s₂ in
        elim labelled [
          | err e ↦ (err e, s₁)
          | ok u ↦ elim sourced [ err e ↦ (err e, s₂) | ok v ↦ as_status_error reported ]
        ]

    -- The node did not join: after the time for that a machine of a machine set is deleted.
    unfoldable pub await_node : Machining → Outcome × Machining
    unfolding owner_references_has_machine_set_kind send
    await_node s =
        let (e, server) = send (delete_machine s.machine) s.server in
        let s' = record s { server = server } in
        elim k.join_cluster_timeout [
          | none ↦ (ok none, s)
          | some timeout ↦
              if not (owner_references_has_machine_set_kind s.machine.owner_references)
              then (ok none, s)
              else if ltb timeout (k.now - s.machine.creation_timestamp)
              then elim e [
                | some why ↦ (err (message "failed to delete machine that didn't join cluster"), s')
                | none ↦ (ok none, s')
              ]
              else (ok (some 60), s)
        ]

    unfoldable pub ensure_node_owner_ref_and_config_source :
        Text → Instance → Machining → Outcome × Machining
    unfolding get_node_of_instance link_node await_node
    ensure_node_owner_ref_and_config_source provider found s =
        elim (get_node_of_instance provider found) [
          | err e ↦ (err (message "failed to get node for machine"), s)
          | ok (some node) ↦ link_node node s
          | ok none ↦ await_node s
        ]
