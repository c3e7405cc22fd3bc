-- ===== src/Machines/Requests.antt =====
-- The writes of the machine controller and of the eviction: pkg/controller/machine/machine.go and
-- pkg/node/eviction/eviction.go.
use machine_controller_k0s.Objects.{Machine, Node}

pub data Request : Type 0 where
  update_machine delete_machine : Machine → Request
  update_node delete_node : Node → Request
