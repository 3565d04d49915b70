-- ===== src/GoMap.antt =====
-- Go's maps, with the order of a `range` loop left open, and `sort.SliceStable` by a string key.
mod Defs
mod Laws
pub mod Sorting
pub mod Loops
pub mod Keyed
pub mod Appended
pub mod Orders
pub mod Canonical
pub mod Listed
unfoldable pub use Defs.*
pub use Laws.*
