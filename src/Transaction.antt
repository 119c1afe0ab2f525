-- ===== src/Transaction.antt =====
-- crates/sdkwork-intelligence-sandbox-transaction-control: the workspace-transaction control.
pub mod Error
pub mod State
pub mod Stage
pub mod Checkpoint
pub mod Compensation
pub mod Request
pub mod Registry
mod Examples
