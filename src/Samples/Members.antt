-- ===== src/Samples/Members.antt =====
-- A stored stateful set of three replicas, and its pods.
use nacos_operator.Prelude.{String, pos, some, none, [], ◌∷◌}
use nacos_operator.Types.{StatefulSet, Pod, PodCondition, zero_pod_spec, zero_container}

-- A stored stateful set of three replicas, two of which are ready.
abbrev condition : String → String → PodCondition
condition type status = record { type = type; status = status }

abbrev pub pod : String → String → Pod
pod name ready = record {
  name = name;
  pod_ip = "10.1.0.1";
  node_name = "node";
  conditions =
      condition "Initialized" "True"
      ∷ condition "Ready" ready
      ∷ condition "ContainersReady" ready
      ∷ condition "PodScheduled" "True"
      ∷ [];
}

abbrev pub three : StatefulSet
three = record {
  meta = record {
    name = "demo";
    namespace = "default";
    labels = [];
    annotations = [];
    resource_version = "1";
    controller = none;
  };
  spec = record {
    replicas = some (pos 3);
    selector = some (record { match_labels = ("app", "demo") ∷ []; match_expressions = [] });
    template = record {
      labels = [];
      annotations = [];
      namespace = "default";
      spec = record zero_pod_spec { containers = zero_container ∷ [] };
    };
    volume_claim_templates = [];
    service_name = "demo-headless";
    pod_management_policy = "";
    update_strategy_type = "";
    rolling_update = none;
    revision_history_limit = none;
  };
}
