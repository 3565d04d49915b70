-- ===== src/Types/Pods.antt =====
-- Pods and their parts (k8s.io/api/core/v1).
use nacos_operator.Prelude.{String, Bool, Option, none, List, [], ℤ, false}
use nacos_operator.GoMap.{GoMap}
use nacos_operator.Types.Opaque.{Blob}
use nacos_operator.Types.Containers.{Container, EphemeralContainer}

pub record KeyToPath : Type 0 where
  pub key : String
  pub path : String
  pub mode : Option ℤ

pub record EmptyDirVolumeSource : Type 0 where
  pub medium : String
  pub size_limit : Option String

pub record SecretVolumeSource : Type 0 where
  pub secret_name : String
  pub items : List KeyToPath
  pub default_mode : Option ℤ
  pub optional : Option Bool

pub record ConfigMapVolumeSource : Type 0 where
  pub name : String
  pub items : List KeyToPath
  pub default_mode : Option ℤ
  pub optional : Option Bool

-- `other` stands for the sources that the operator only copies.
pub record VolumeSource : Type 0 where
  pub host_path : Option Blob
  pub empty_dir : Option EmptyDirVolumeSource
  pub secret : Option SecretVolumeSource
  pub config_map : Option ConfigMapVolumeSource
  pub other : Option Blob

pub record Volume : Type 0 where
  pub name : String
  pub source : VolumeSource

pub record Toleration : Type 0 where
  pub key : String
  pub operator : String
  pub value : String
  pub effect : String
  pub toleration_seconds : Option ℤ

pub record Affinity : Type 0 where
  pub node_affinity : Option Blob
  pub pod_affinity : Option Blob
  pub pod_anti_affinity : Option Blob

pub record HostAlias : Type 0 where
  pub ip : String
  pub hostnames : List String

pub record PodDnsConfig : Type 0 where
  pub nameservers : Option (List String)
  pub searches : Option (List String)
  pub options : Option Blob

pub record LabelSelectorRequirement : Type 0 where
  pub key : String
  pub operator : String
  pub values : Option (List String)

pub record LabelSelector : Type 0 where
  pub match_labels : GoMap String
  pub match_expressions : List LabelSelectorRequirement

pub record TopologySpreadConstraint : Type 0 where
  pub max_skew : ℤ
  pub topology_key : String
  pub when_unsatisfiable : String
  pub label_selector : Option LabelSelector

pub record PodSpec : Type 0 where
  pub volumes : List Volume
  pub init_containers : List Container
  pub containers : List Container
  pub ephemeral_containers : Option (List EphemeralContainer)
  pub restart_policy : String
  pub termination_grace_period_seconds : Option ℤ
  pub active_deadline_seconds : Option ℤ
  pub dns_policy : String
  pub node_selector : Option (GoMap String)
  pub service_account_name : String
  pub deprecated_service_account : String
  pub automount_service_account_token : Option Bool
  pub node_name : String
  pub host_network : Bool
  pub host_pid : Bool
  pub host_ipc : Bool
  pub share_process_namespace : Option Bool
  pub security_context : Option Blob
  pub image_pull_secrets : Option (List String)
  pub hostname : String
  pub subdomain : String
  pub affinity : Option Affinity
  pub scheduler_name : String
  pub tolerations : List Toleration
  pub host_aliases : List HostAlias
  pub priority_class_name : String
  pub priority : Option ℤ
  pub dns_config : Option PodDnsConfig
  pub readiness_gates : Option Blob
  pub runtime_class_name : Option String
  pub enable_service_links : Option Bool
  pub preemption_policy : Option String
  pub overhead : Option Blob
  pub topology_spread_constraints : Option (List TopologySpreadConstraint)

abbrev pub zero_pod_spec : PodSpec
zero_pod_spec = record {
  volumes = [];
  init_containers = [];
  containers = [];
  ephemeral_containers = none;
  restart_policy = "";
  termination_grace_period_seconds = none;
  active_deadline_seconds = none;
  dns_policy = "";
  node_selector = none;
  service_account_name = "";
  deprecated_service_account = "";
  automount_service_account_token = none;
  node_name = "";
  host_network = false;
  host_pid = false;
  host_ipc = false;
  share_process_namespace = none;
  security_context = none;
  image_pull_secrets = none;
  hostname = "";
  subdomain = "";
  affinity = none;
  scheduler_name = "";
  tolerations = [];
  host_aliases = [];
  priority_class_name = "";
  priority = none;
  dns_config = none;
  readiness_gates = none;
  runtime_class_name = none;
  enable_service_links = none;
  preemption_policy = none;
  overhead = none;
  topology_spread_constraints = none;
}

abbrev pub zero_volume_source : VolumeSource
zero_volume_source = record {
  host_path = none;
  empty_dir = none;
  secret = none;
  config_map = none;
  other = none;
}
