-- ===== src/Eviction.antt =====
-- The eviction of the pods of a node: pkg/node/eviction/eviction.go.
pub mod Pods
pub mod Workers
pub mod Moves
pub mod Outcome
pub mod Race
pub mod Progress
pub mod Drain
pub mod Cordon
pub mod Order
