-- ===== src/Types.antt =====
-- The Kubernetes types that the operator reads and builds, with the fields that its code uses.
-- Strings and maps are Go's; a slice or a map is an `Option` where the code tells nil from empty.
mod Opaque
mod Containers
mod Pods
mod Resources
pub use Opaque.*
pub use Containers.*
pub use Pods.*
pub use Resources.*
