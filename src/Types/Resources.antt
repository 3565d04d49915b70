-- ===== src/Types/Resources.antt =====
-- The objects that the operator creates and reads: config maps, services, stateful sets, jobs,
-- secrets and pods.
use nacos_operator.Prelude.{String, Bool, Option, List, ℤ}
use nacos_operator.GoMap.{GoMap}
use nacos_operator.Types.Opaque.{Blob}
use nacos_operator.Types.Containers.{ResourceRequirements}
use nacos_operator.Types.Pods.{LabelSelector, PodSpec}

pub record ObjectMeta : Type 0 where
  pub name : String
  pub namespace : String
  pub labels : GoMap String
  pub annotations : GoMap String
  pub resource_version : String
  -- The owner that `SetControllerReference` writes.
  pub controller : Option String

pub record ConfigMap : Type 0 where
  pub meta : ObjectMeta
  pub contents : GoMap String

pub record Secret : Type 0 where
  pub contents : GoMap String
  pub resource_version : String

pub record ServicePort : Type 0 where
  pub name : String
  pub port : ℤ
  pub protocol : String

pub record ServiceSpec : Type 0 where
  pub type : String
  pub publish_not_ready_addresses : Bool
  pub ports : List ServicePort
  pub selector : GoMap String
  pub cluster_ip : String
  pub ip_families : List String
  pub ip_family_policy : Option String

pub record Service : Type 0 where
  pub meta : ObjectMeta
  pub spec : ServiceSpec

pub record PersistentVolumeClaimSpec : Type 0 where
  pub access_modes : List String
  pub selector : Option LabelSelector
  pub resources : ResourceRequirements
  pub storage_class_name : Option String
  pub volume_mode : Option String
  pub data_source : Option Blob

pub record PersistentVolumeClaim : Type 0 where
  pub name : String
  pub namespace : String
  pub spec : PersistentVolumeClaimSpec

pub record PodTemplateSpec : Type 0 where
  pub labels : GoMap String
  pub annotations : GoMap String
  pub namespace : String
  pub spec : PodSpec

pub record StatefulSetSpec : Type 0 where
  pub replicas : Option ℤ
  pub selector : Option LabelSelector
  pub template : PodTemplateSpec
  pub volume_claim_templates : List PersistentVolumeClaim
  pub service_name : String
  pub pod_management_policy : String
  pub update_strategy_type : String
  pub rolling_update : Option Blob
  pub revision_history_limit : Option ℤ

pub record StatefulSet : Type 0 where
  pub meta : ObjectMeta
  pub spec : StatefulSetSpec

pub record DeploymentSpec : Type 0 where
  pub replicas : Option ℤ
  pub selector : Option LabelSelector
  pub template : PodTemplateSpec
  pub revision_history_limit : Option ℤ

pub record Job : Type 0 where
  pub meta : ObjectMeta
  pub template : PodTemplateSpec

pub record PodCondition : Type 0 where
  pub type : String
  pub status : String

pub record Pod : Type 0 where
  pub name : String
  pub pod_ip : String
  pub node_name : String
  pub conditions : List PodCondition
