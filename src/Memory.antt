-- ===== src/Memory.antt =====
-- repository-memory/src/lib.rs: the session repository in memory.
pub mod Keys
pub mod Defs
pub mod Leases
pub mod Saves
pub mod Command
pub mod Fencing
pub mod Reads
pub mod Port
pub mod Valid
mod Examples
