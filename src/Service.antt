-- ===== src/Service.antt =====
-- service/src/service.rs: the lifecycle service, over its repository and its providers.
pub mod Action
pub mod Interface
pub mod Calls
pub mod Create
pub mod BringUp
pub mod Start
pub mod Stop
pub mod Destroy
pub mod Reconcile
pub mod Ensures
pub mod Lawful
pub mod Stored
mod Examples
