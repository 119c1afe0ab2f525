-- ===== src/Service/Stored.antt =====
-- Whatever the service saves passes the test of the repository: a proof for each method.
pub mod Moves
pub mod Calls
pub mod BringUp
pub mod Down
pub mod Start
pub mod Reconcile
pub mod Pages
pub mod Sessions
