-- ===== src/Api/Spec.antt =====
-- NacosSpec and its parts. An int32 is an integer; no operation on one leaves its range.
use nacos_operator.Prelude.{String, Bool, Option, List, ℤ}
use nacos_operator.GoMap.{GoMap}
use nacos_operator.Types.{
  Blob, ResourceRequirements, Affinity, Toleration, Probe, EnvVar, PodSpec, PersistentVolumeClaim,
  EmptyDirVolumeSource,
}

pub record Certification : Type 0 where
  pub enabled : Bool
  pub token : String
  pub token_expire_seconds : String
  pub cache_enabled : Bool

pub record ConfigMapRef : Type 0 where
  pub name : String
  pub key : String

pub record Storage : Type 0 where
  pub volume_claim_template : Option PersistentVolumeClaim
  pub empty_dir : Option EmptyDirVolumeSource
  pub host_path : Option Blob
  pub keep_after_deletion : Bool
  pub persistent_volume_size : String

pub record Database : Type 0 where
  pub type_database : String
  pub mysql_host : String
  pub mysql_port : String
  pub mysql_db : String
  pub mysql_user : String
  pub mysql_password : String

pub record PgCredentialsSecretRef : Type 0 where
  pub name : String
  pub username_key : String
  pub password_key : String

pub record NacosPostgresSpec : Type 0 where
  pub host : String
  pub port : String
  pub database : String
  pub credentials_secret_ref : PgCredentialsSecretRef

pub record PgInitSpec : Type 0 where
  pub enabled : Bool
  pub timeout_seconds : ℤ
  pub schema_version : ℤ
  pub policy : String

pub record IdentitySecretRef : Type 0 where
  pub name : String
  pub key_key : String
  pub value_key : String

pub record AdminCredentialsSecretRef : Type 0 where
  pub name : String
  pub username_key : String
  pub password_hash_key : String

-- `K8sWrapper.PodSpec.Spec` is `k8s_wrapper`.
pub record NacosSpec : Type 0 where
  pub image : String
  pub image_pull_secrets : List String
  pub replicas : Option ℤ
  pub resources : ResourceRequirements
  pub affinity : Option Affinity
  pub tolerations : List Toleration
  pub node_selector : Option (GoMap String)
  pub liveness_probe : Option Probe
  pub readiness_probe : Option Probe
  pub env : List EnvVar
  pub mysql_init_image : String
  pub type : String
  pub function_mode : String
  pub database : Database
  pub volume : Storage
  pub config : String
  pub user_config_ref : Option ConfigMapRef
  pub internal_config_ref : Option ConfigMapRef
  pub final_config_name : String
  pub certification : Certification
  pub k8s_wrapper : PodSpec
  pub postgres : NacosPostgresSpec
  pub pg_init : PgInitSpec
  pub admin_credentials_secret_ref : AdminCredentialsSecretRef
  pub admin_secret_checksum : String
  pub identity_secret_ref : Option IdentitySecretRef
