-- ===== src/Transaction/Registry.antt =====
-- transaction-control/src/registry.rs: `BoundedSandboxWorkspaceTransactionControl`. The mutex makes
-- each call one step, so a method is a function from the registry to the registry and its result;
-- a method that returns an error keeps what it wrote before.
pub mod Record
pub mod Begin
pub mod Advance
pub mod Candidate
pub mod Release
pub mod Failure
pub mod Command
pub mod Invariant
pub mod Records
pub mod Preservation
pub mod Safety
pub mod Finality
pub mod Fencing
pub mod Acceptance
pub mod Replay
