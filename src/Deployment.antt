-- ===== src/Deployment.antt =====
-- The machine deployment controller: pkg/controller/machinedeployment.
pub mod Counts
pub mod Annotations
pub mod Fenceposts
pub mod Find
pub mod Scaling
pub mod Status
pub mod Rolling
pub mod Cleanup
pub mod Sync
pub mod NewSet
pub mod Rollout
