-- ===== src/Rollout.antt =====
-- src/controllers/restatedeployment/controller.rs: the part of `reconcile` that registers the
-- current version and then cleans up the old ones, in ReplicaSet mode.
pub mod Readiness
pub mod Inject
pub mod Injected
pub mod Adopt
pub mod Adopted
pub mod Flow
pub mod Confirmed
pub mod Guarded
pub mod Reconcile
