-- ===== src/Transaction/Registry/Preservation.antt =====
-- Every call keeps the invariant of the registry.
pub mod Put
pub mod Close
pub mod Open
pub mod History
