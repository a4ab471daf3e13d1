-- ===== src/ReplicaSets.antt =====
-- src/controllers/restatedeployment/reconcilers/replicaset.rs: the cleanup of old versions.
pub mod Select
pub mod Visit
pub mod Pass
pub mod Order
pub mod Spares
mod Turn
pub mod Outcome
pub mod Forced
