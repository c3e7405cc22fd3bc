-- ===== src/MachineSets/Requests.antt =====
-- The writes of the machine set controller: pkg/controller/machineset.
use machine_controller_k0s.Objects.{Machine, MachineSet}

pub data Request : Type 0 where
  create_machine : Machine → Request
  delete_machine : Machine → Request
  update_machine : Machine → Request
  update_machine_set : MachineSet → Request
  update_status : MachineSet → Request
