-- ===== src/Machines/Provider.antt =====
-- The interface of the cloud providers: pkg/cloudprovider/types/types.go, instance/instance.go and
-- errors/errors.go, and the machine's error after one of theirs, of
-- pkg/controller/machine/machine.go.
use machine_controller_k0s.Prelude.{List, Option, Bool}
use machine_controller_k0s.Prelude.Decimal.{Text}
use machine_controller_k0s.Api.{Error, message, ok, err, Added}
use machine_controller_k0s.Objects.{MachineSpec, NodeAddress}
use machine_controller_k0s.Machines.Requests.{
  Request, update_machine, delete_machine, update_node, delete_node,
}
use machine_controller_k0s.Machines.Update.{Machining, Client, update_machine_error}

pub data ProviderError : Type 0 where
  instance_not_found : ProviderError
  -- the reason and the text of a `TerminalError`
  terminal : Text → Text → ProviderError
  transient : Text → ProviderError

pub data Answer (A : Type 0) : Type 0 where
  answer : A → Answer A
  failure : ProviderError → Answer A

-- `instance.Instance`, without its status; the addresses in the order in which Go gives the map.
pub record Instance : Type 0 where
  pub instance_name : Text
  pub instance_id : Text
  pub instance_addresses : List NodeAddress

abbrev pub IsMachineUpdate : Request → Type 0
IsMachineUpdate (update_machine machine) = Unit
IsMachineUpdate (delete_machine machine) = ⊥
IsMachineUpdate (update_node node) = ⊥
IsMachineUpdate (delete_node node) = ⊥

-- `Provider`, as far as the controller calls it. A provider gets the machine and its update function,
-- and so may change the machine.
pub record Provider : Type 0 where
  pub get : Machining → Answer Instance × Machining
  pub get_cloud_config : MachineSpec → Option (Text × Text)
  pub create : Text → Machining → Answer Instance × Machining
  pub cleanup : Machining → Answer Bool × Machining
  pub cleanup_updates :
      (s : Machining) → Added IsMachineUpdate s.server.accepted (cleanup s).1.server.accepted

module _ (c : Client) where
  -- Always an error: the terminal one after it is written to the machine, or a wrapped one.
  unfoldable pub update_machine_error_if_terminal_error :
      Text → Text → Error → ProviderError → Machining → Error × Machining
  unfolding update_machine_error
  update_machine_error_if_terminal_error reason text wrapped instance_not_found s = (wrapped, s)
  update_machine_error_if_terminal_error reason text wrapped (transient t) s = (wrapped, s)
  update_machine_error_if_terminal_error reason text wrapped (terminal why t) s =
      let (updated, s') = update_machine_error c reason text s in
      elim updated [
        | err e ↦ (message "failed to update machine error after due to", s')
        | ok u ↦ (message "An error of type", s')
      ]
