-- ===== src/Api/Status.antt =====
-- NacosStatus and its parts. A time is in seconds; 0 is the zero time.
use nacos_operator.Prelude.{ℕ, String, Bool, List, ℤ}

pub record NacosCondition : Type 0 where
  pub type : String
  pub status : String
  pub instance_ip : String
  pub pod_name : String
  pub node_name : String

pub record Event : Type 0 where
  pub status : Bool
  pub first_appear_time : ℕ
  pub last_transition_time : ℕ
  pub message : String
  pub code : ℤ

abbrev pub Phase : Type 0
Phase = String

abbrev pub phase_running : Phase
phase_running = "Running"

abbrev pub phase_none : Phase
phase_none = ""

abbrev pub phase_creating : Phase
phase_creating = "Creating"

abbrev pub phase_failed : Phase
phase_failed = "Failed"

abbrev pub phase_scale : Phase
phase_scale = "Scaling"

pub record PgStatus : Type 0 where
  pub initialized : Bool
  pub init_version : ℤ
  pub last_init_time : ℕ
  pub last_result : String
  pub last_message : String

pub record AdminStatus : Type 0 where
  pub last_rotate_time : ℕ
  pub last_result : String
  pub last_message : String
  pub last_secret_resource_version : String
  pub last_secret_checksum : String

pub record NacosStatus : Type 0 where
  pub conditions : List NacosCondition
  pub event : List Event
  pub phase : Phase
  pub healthy : Bool
  pub version : String
  pub pg : PgStatus
  pub admin : AdminStatus
  pub config_digest : String
  pub version_digest : String
