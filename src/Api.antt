-- ===== src/Api.antt =====
-- api/v1alpha1/nacos_types.go: the Nacos custom resource.
mod Spec
mod Status
pub mod Wrapper
pub use Spec.*
pub use Status.*
use nacos_operator.Prelude.{ℕ, String, List}
use nacos_operator.GoMap.{GoMap}

-- Of the object's metadata, what the operator reads. Times are in seconds.
pub record Nacos : Type 0 where
  pub name : String
  pub namespace : String
  pub labels : GoMap String
  pub annotations : GoMap String
  pub creation_timestamp : ℕ
  pub spec : NacosSpec
  pub status : NacosStatus
