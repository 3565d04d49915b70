-- ===== src/Merge.antt =====
-- pkg/util/merge: a user's partial Kubernetes objects laid over the operator's.
mod Values
mod Containers
mod Volumes
mod Pods
mod Workloads
pub mod Scalars
pub mod ByName
pub mod Absorb
pub mod Clashes
pub mod Strings
pub mod Zero
pub mod ByKey
pub mod Joined
unfoldable pub use Values.*
unfoldable pub use Containers.*
unfoldable pub use Volumes.*
unfoldable pub use Pods.*
unfoldable pub use Workloads.*
