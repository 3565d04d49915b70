-- ===== src/K8s.antt =====
-- pkg/service/k8s: reads and writes of the objects in the API server.
pub mod Interface
mod Requests
mod Objects
mod StatefulSets
pub mod Stored
pub mod Settled
pub mod Untouched
pub mod Laws
unfoldable pub use Requests.*
unfoldable pub use Objects.*
unfoldable pub use StatefulSets.*
