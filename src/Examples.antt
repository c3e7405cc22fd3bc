-- ===== src/Examples.antt =====
-- Concrete objects, tests of the definitions, and each theorem with hypotheses at an input that
-- meets them.
mod Base
mod Rolling
mod Util
mod Status
mod Machines
mod Webhook
mod Search
mod Nodes
mod Certificates
mod Config
mod Eviction
mod Lifecycle
mod Validation
mod Review
