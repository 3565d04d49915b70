-- ===== src/Types/Containers.antt =====
-- Containers (k8s.io/api/core/v1).
use nacos_operator.Prelude.{String, Bool, Option, none, List, [], ℤ, false}
use nacos_operator.GoMap.{GoMap}
use nacos_operator.Types.Opaque.{Blob}

pub data EnvVarSource : Type 0 where
  config_map_key_ref : (name key : String) → EnvVarSource
  other_source : Blob → EnvVarSource

pub record EnvVar : Type 0 where
  pub name : String
  pub value : String
  pub value_from : Option EnvVarSource

pub record ContainerPort : Type 0 where
  pub name : String
  pub host_port : ℤ
  pub container_port : ℤ
  pub protocol : String
  pub host_ip : String

pub record VolumeMount : Type 0 where
  pub name : String
  pub read_only : Bool
  pub mount_path : String
  pub sub_path : String
  pub mount_propagation : Option String
  pub sub_path_expr : String

pub record VolumeDevice : Type 0 where
  pub name : String
  pub device_path : String

-- Quantities are kept as their text.
pub record ResourceRequirements : Type 0 where
  pub limits : Option (GoMap String)
  pub requests : Option (GoMap String)

pub record Probe : Type 0 where
  pub exec : Option Blob
  pub http_get : Option Blob
  pub tcp_socket : Option Blob
  pub initial_delay_seconds : ℤ
  pub timeout_seconds : ℤ
  pub period_seconds : ℤ
  pub success_threshold : ℤ
  pub failure_threshold : ℤ

pub record Lifecycle : Type 0 where
  pub post_start : Option Blob
  pub pre_stop : Option Blob

pub record SecurityContext : Type 0 where
  pub capabilities : Option Blob
  pub privileged : Option Bool
  pub se_linux_options : Option Blob
  pub windows_options : Option Blob
  pub run_as_user : Option ℤ
  pub run_as_group : Option ℤ
  pub run_as_non_root : Option Bool
  pub read_only_root_filesystem : Option Bool
  pub allow_privilege_escalation : Option Bool
  pub proc_mount : Option String
  pub seccomp_profile : Option Blob

pub record Container : Type 0 where
  pub name : String
  pub image : String
  pub command : List String
  pub args : List String
  pub working_dir : String
  pub ports : List ContainerPort
  pub env_from : List Blob
  pub env : List EnvVar
  pub resources : ResourceRequirements
  pub volume_mounts : List VolumeMount
  pub volume_devices : List VolumeDevice
  pub liveness_probe : Option Probe
  pub readiness_probe : Option Probe
  pub startup_probe : Option Probe
  pub lifecycle : Option Lifecycle
  pub termination_message_path : String
  pub termination_message_policy : String
  pub image_pull_policy : String
  pub security_context : Option SecurityContext
  pub stdin : Bool
  pub stdin_once : Bool
  pub tty : Bool

-- `EphemeralContainerCommon` has the fields of `Container`.
pub record EphemeralContainer : Type 0 where
  pub common : Container
  pub target_container_name : String

-- Go's zero values.
abbrev pub zero_resources : ResourceRequirements
zero_resources = record { limits = none; requests = none }

abbrev pub zero_container : Container
zero_container = record {
  name = "";
  image = "";
  command = [];
  args = [];
  working_dir = "";
  ports = [];
  env_from = [];
  env = [];
  resources = zero_resources;
  volume_mounts = [];
  volume_devices = [];
  liveness_probe = none;
  readiness_probe = none;
  startup_probe = none;
  lifecycle = none;
  termination_message_path = "";
  termination_message_policy = "";
  image_pull_policy = "";
  security_context = none;
  stdin = false;
  stdin_once = false;
  tty = false;
}
