-- ===== src/Session.antt =====
-- service/src: the lifecycle of a sandbox session.
pub mod Kinds
pub mod Ledger
pub mod Error
pub mod Model
pub mod Persisted
pub mod Lease
mod Examples
