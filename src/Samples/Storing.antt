-- ===== src/Samples/Storing.antt =====
-- The theorems on the API operations at a server that keeps its objects in a list.
use nacos_operator.Prelude.{true, ℕ, suc, String, refl, none, some, [], ◌∷◌, pos}
use nacos_operator.GoMap.{GoMap}
use nacos_operator.Go.{failure, fail}
use nacos_operator.Types.{
  ConfigMap, Service, StatefulSet, StatefulSetSpec, Job, ObjectMeta, zero_container, zero_pod_spec,
  Container,
}
use nacos_operator.K8s.Interface.{ResourceApi}
use nacos_operator.K8s.{create_if_not_exists_config_map}
use nacos_operator.K8s.Stored.{
  Stores, config_map_name, config_map_contents, create_if_not_exists_config_map-Stores,
}
use nacos_operator.Samples.World.{filling, memory, memory_laws}

abbrev meta : String → String → ObjectMeta
meta name version = record {
  name = name;
  namespace = "default";
  labels = [];
  annotations = [];
  resource_version = version;
  controller = none;
}

abbrev config : String → ConfigMap
config text = record { meta = meta "demo" "1"; contents = ("application.properties", text) ∷ [] }

abbrev config_world : String → GoMap ConfigMap
config_world text = ("default/demo", config text) ∷ []

create_if_not_exists_config_map-Stores_example :
    Stores
      (memory config_map_name)
      config_map_contents
      "default"
      "demo"
      (config "new").contents
      (config_world "new")
create_if_not_exists_config_map-Stores_example =
    create_if_not_exists_config_map-Stores (memory config_map_name)
      (memory_laws config_map_name config_map_contents) "default" (config "new")
      (config_world "old") (config_world "new") (unfold create_if_not_exists_config_map in refl)

abbrev service : String → String → Service
service type ip = record {
  meta = meta "demo" "1";
  spec = record {
    type = type;
    publish_not_ready_addresses = true;
    ports = [];
    selector = [];
    cluster_ip = ip;
    ip_families = [];
    ip_family_policy = none;
  };
}

-- A server that answers every read with an error.
abbrev broken : {R : Type 0} → ResourceApi ℕ R
broken = record {
  get = λ ns n w. fail (failure "timeout");
  create = λ ns r w. (none, suc w);
  update = λ ns r w. (none, suc w);
  delete = λ ns n w. (none, suc w);
  list = λ ns w. fail (failure "timeout");
}

abbrev job : Job
job = record {
  meta = meta "demo-mysql-sql-init" "1";
  template = record { labels = []; annotations = []; namespace = ""; spec = zero_pod_spec };
}

abbrev with_image : String → Container
with_image image = record zero_container { name = "nacos"; image = image }

abbrev set : String → StatefulSet
set image = record {
  meta = meta "demo" "1";
  spec = record {
    replicas = some (pos 3);
    selector = none;
    template = record {
      labels = [];
      annotations = [];
      namespace = "default";
      spec = record zero_pod_spec { containers = with_image image ∷ [] };
    };
    volume_claim_templates = [];
    service_name = "demo-headless";
    pod_management_policy = "";
    update_strategy_type = "";
    rolling_update = none;
    revision_history_limit = none;
  };
}

abbrev set_name : StatefulSet → String
set_name s = s.meta.name

-- One replica where none are given.
abbrev one_replica : StatefulSetSpec → StatefulSetSpec
one_replica spec = record spec {
  replicas = elim spec.replicas [ none ↦ some (pos 1) | some n ↦ some n ];
}

abbrev counted_set : StatefulSet → StatefulSet
counted_set s = record s { spec = one_replica s.spec }

abbrev counting : ResourceApi (GoMap StatefulSet) StatefulSet
counting = filling counted_set set_name

abbrev wanted_set : StatefulSet
wanted_set = set "2.0"
