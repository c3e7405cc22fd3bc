-- ===== src/MachineSets.antt =====
-- The machine set controller: pkg/controller/machineset.
pub mod Requests
pub mod DeletePolicy
pub mod Replicas
pub mod NodeStatus
pub mod Reconcile
