-- ===== src/Kind.antt =====
-- pkg/service/operator/Kind.go: the Kubernetes objects of a Nacos resource.
mod Defaults
pub mod Validated
pub mod Filled
pub mod Wired
pub mod Members
mod Names
mod ConfigMaps
mod Endpoints
mod Environment
mod Jobs
mod DefaultConfig
mod Storage
mod Workload
mod Cluster
unfoldable pub use Defaults.*
unfoldable pub use Names.*
unfoldable pub use ConfigMaps.*
unfoldable pub use Endpoints.*
unfoldable pub use Environment.*
unfoldable pub use Jobs.*
unfoldable pub use DefaultConfig.*
unfoldable pub use Storage.*
unfoldable pub use Workload.*
unfoldable pub use Cluster.*
