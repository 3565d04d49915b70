-- ===== src/Operator/Unmoved.antt =====
-- Steps that leave the phase, the health and the events of the resource alone.
mod Defs
mod Objects
mod Checks
mod Database
pub use Defs.*
pub use Objects.*
pub use Checks.*
pub use Database.*
