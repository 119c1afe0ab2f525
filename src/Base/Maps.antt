-- ===== src/Base/Maps.antt =====
-- `BTreeMap<String, V>`: its operations, their laws, and the order of its keys.
mod Defs
mod Sorted
unfoldable pub use Defs.*
pub use Sorted.*
