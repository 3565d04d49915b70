-- ===== src/Samples/Values.antt =====
-- A Nacos resource, as a user writes one.
use nacos_operator.Prelude.{true, false, none, some, [], pos}
use nacos_operator.Types.{zero_resources, zero_pod_spec}
use nacos_operator.Api.{Nacos, NacosSpec, NacosStatus}

abbrev pub user_spec : NacosSpec
user_spec = record {
  image = "nacos/nacos-server:1.4.1";
  image_pull_secrets = [];
  replicas = some (pos 3);
  resources = zero_resources;
  affinity = none;
  tolerations = [];
  node_selector = none;
  liveness_probe = none;
  readiness_probe = none;
  env = [];
  mysql_init_image = "";
  type = "cluster";
  function_mode = "";
  database = record {
    type_database = "mysql";
    mysql_host = "";
    mysql_port = "";
    mysql_db = "";
    mysql_user = "";
    mysql_password = "";
  };
  volume = record {
    volume_claim_template = none;
    empty_dir = none;
    host_path = none;
    keep_after_deletion = false;
    persistent_volume_size = "";
  };
  config = "";
  user_config_ref = some (record { name = "user-config"; key = "" });
  internal_config_ref = none;
  final_config_name = "";
  certification = record {
    enabled = true;
    token = "";
    token_expire_seconds = "";
    cache_enabled = false;
  };
  k8s_wrapper = zero_pod_spec;
  postgres = record {
    host = "db";
    port = "";
    database = "nacos";
    credentials_secret_ref = record { name = "db-user"; username_key = ""; password_key = "" };
  };
  pg_init = record {
    enabled = false;
    timeout_seconds = pos 0;
    schema_version = pos 0;
    policy = "";
  };
  admin_credentials_secret_ref = record {
    name = "admin";
    username_key = "";
    password_hash_key = "";
  };
  admin_secret_checksum = "";
  identity_secret_ref = none;
}

abbrev pub new_status : NacosStatus
new_status = record {
  conditions = [];
  event = [];
  phase = "";
  healthy = false;
  version = "";
  pg = record {
    initialized = false;
    init_version = pos 0;
    last_init_time = 0;
    last_result = "";
    last_message = "";
  };
  admin = record {
    last_rotate_time = 0;
    last_result = "";
    last_message = "";
    last_secret_resource_version = "";
    last_secret_checksum = "";
  };
  config_digest = "";
  version_digest = "";
}

abbrev pub new_nacos : Nacos
new_nacos = record {
  name = "demo";
  namespace = "default";
  labels = [];
  annotations = [];
  creation_timestamp = 100;
  spec = user_spec;
  status = new_status;
}
