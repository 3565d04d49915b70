-- ===== src/Operator.antt =====
-- pkg/service/operator.
pub mod Services
mod Status
mod Check
mod Pg
mod Ensure
mod Steps
unfoldable pub use Status.*
unfoldable pub use Check.*
unfoldable pub use Pg.*
unfoldable pub use Ensure.*
unfoldable pub use Steps.*
pub mod Events
pub mod Sent
mod Inversion
pub mod Keeps
mod Building
pub mod Ensured
pub mod Unmoved
pub mod Agreed
pub mod Members
pub mod Quorum
pub mod Rotated
pub mod Owned
pub mod Configured
pub mod Served
pub mod Session
pub mod Deployed
pub mod Standby
pub mod Escaped
