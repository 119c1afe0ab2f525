-- ===== src/Pool.antt =====
-- crates/sdkwork-intelligence-sandbox-pool-control: the runtime pool control.
pub mod Bounds
pub mod Error
pub mod SlotState
pub mod ClaimState
pub mod PoolClass
pub mod Assurance
pub mod Records
pub mod Registry
mod Examples
