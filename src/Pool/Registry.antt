-- ===== src/Pool/Registry.antt =====
-- pool-control/src/registry.rs: `BoundedSandboxPoolControl`. The mutex makes each call one step, and
-- the clock is an argument; a method that returns an error keeps what it wrote before.
pub mod Defs
pub mod Prepare
pub mod Claim
pub mod Ready
pub mod Release
pub mod Withdraw
pub mod Reconcile
pub mod Targets
pub mod Command
pub mod Slots
pub mod Lifetimes
pub mod Acceptance
pub mod Fencing
pub mod Attempts
pub mod Replay
pub mod Indexed
pub mod Exclusion
