-- ===== src/Kind/Workload.antt =====
-- buildStatefulset: the stateful set of a Nacos resource.
use nacos_operator.Prelude.{
  String, Bool, not, ◌&&◌, Option, none, some, List, [], ◌∷◌, ◌++◌, ◌==◌, ℤ, if◌then◌else◌,
}
use nacos_operator.GoMap.{GoMap, RangeOrder}
use nacos_operator.Go.{Go, pure, ◌>>=◌}
use nacos_operator.Types.{
  ContainerPort, Container, zero_container, VolumeMount, zero_volume_source, zero_pod_spec,
  StatefulSet, EnvVar,
}
use nacos_operator.Api.{Nacos, NacosSpec}
use nacos_operator.Kind.Names.{object_labels, object_meta, generate_name}
use nacos_operator.Kind.ConfigMaps.{manages_config, final_config_name}
use nacos_operator.Kind.Endpoints.{nacos_port, raft_port, new_raft_port}
use nacos_operator.Kind.Environment.{build_env}
use nacos_operator.Kind.Storage.{Additions, no_additions, volume_mount_at, storage_additions}
use nacos_operator.Kind.Jobs.{add_check_database}

abbrev container_port : String → ℤ → ContainerPort
container_port name number = record {
  name = name;
  host_port = ℤ.pos 0;
  container_port = number;
  protocol = "TCP";
  host_ip = "";
}

abbrev config_volume : String → String → String → Additions
config_volume config_map file path = record {
  volumes =
      record {
        name = "config";
        source = record zero_volume_source {
          config_map = some (record {
            name = config_map;
            items = record { key = file; path = file; mode = none } ∷ [];
            default_mode = none;
            optional = none;
          });
        };
      }
      ∷ [];
  mounts = volume_mount_at "config" path file ∷ [];
  claims = [];
}

unfoldable pub config_additions : Nacos → Additions
unfolding final_config_name
config_additions nacos =
    if manages_config nacos
    then config_volume (final_config_name nacos) "application.properties"
        "/home/nacos/conf/application.properties"
    else if nacos.spec.config == ""
    then no_additions
    else config_volume nacos.name "custom.properties" "/home/nacos/init.d/custom.properties"

-- A change of the digest changes the template, so that the pods are rolled.
unfoldable pub template_annotations : Nacos → GoMap String
template_annotations nacos =
    if manages_config nacos && not (nacos.status.config_digest == "")
    then ("nacos.io/config-digest", nacos.status.config_digest) ∷ []
    else []

-- The Nacos container.
unfoldable pub nacos_container : Nacos → List EnvVar → List VolumeMount → Container
nacos_container nacos env mounts = record zero_container {
  name = nacos.name;
  image = nacos.spec.image;
  ports =
      container_port "client" nacos_port
      ∷ container_port "rpc" raft_port
      ∷ container_port "new-rpc" new_raft_port
      ∷ [];
  env = env;
  liveness_probe = nacos.spec.liveness_probe;
  readiness_probe = nacos.spec.readiness_probe;
  volume_mounts = mounts;
  resources = nacos.spec.resources;
}

unfoldable pub assemble_stateful_set :
    RangeOrder → Nacos → List EnvVar → Additions → Additions → StatefulSet
unfolding object_labels generate_name template_annotations nacos_container
assemble_stateful_set order nacos env storage config =
    let labels = object_labels order nacos in
    record {
      meta = object_meta nacos (generate_name nacos) labels nacos.annotations;
      spec = record {
        replicas = nacos.spec.replicas;
        selector = some (record { match_labels = labels; match_expressions = [] });
        template = record {
          labels = labels;
          annotations = template_annotations nacos;
          namespace = "";
          spec = record zero_pod_spec {
            volumes = storage.volumes ++ config.volumes;
            node_selector = nacos.spec.node_selector;
            tolerations = nacos.spec.tolerations;
            affinity = nacos.spec.affinity;
            containers = nacos_container nacos env (storage.mounts ++ config.mounts) ∷ [];
          };
        };
        volume_claim_templates = storage.claims;
        service_name = "";
        pod_management_policy = "Parallel";
        update_strategy_type = "";
        rolling_update = none;
        revision_history_limit = none;
      };
    }

unfoldable pub checks_database : NacosSpec → Bool
checks_database spec = spec.database.type_database == "mysql" && not (spec.mysql_init_image == "")

-- `own` is SetControllerReference with its check.
unfoldable pub build_stateful_set :
    {W : Type 0}
    → RangeOrder
    → (String → Option String)
    → (StatefulSet → Go W StatefulSet)
    → Nacos
    → Go W StatefulSet
unfolding build_env storage_additions config_additions assemble_stateful_set checks_database
    add_check_database
build_stateful_set order parse_quantity own nacos = do
  env ← build_env nacos.spec
  storage ← storage_additions parse_quantity nacos.spec.volume
  ss ← own (assemble_stateful_set order nacos env storage (config_additions nacos))
  pure (if checks_database nacos.spec then add_check_database nacos ss else ss)
