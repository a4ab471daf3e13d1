-- ===== src/Deletion.antt =====
-- src/controllers/restatedeployment/controller.rs: what happens when a RestateDeployment is deleted.
pub mod Report
pub mod Finalizer
pub mod Teardown
pub mod Finished
pub mod Hold
