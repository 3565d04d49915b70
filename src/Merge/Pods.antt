-- ===== src/Merge/Pods.antt =====
-- pkg/util/merge/merge.go (tolerations, affinity) and merge_podtemplate_spec.go.
use nacos_operator.Prelude.{String, Option, none, some, List, [], ◌∷◌}
use nacos_operator.GoMap.{GoMap, lookup, assign, RangeOrder}
use nacos_operator.GoMap.Sorting.{sort_by}
use nacos_operator.GoMap.Loops.{create_from, create_map, assign_all, merge_entry, map_values}
use nacos_operator.Types.{
  Toleration, Affinity, HostAlias, PodDnsConfig, TopologySpreadConstraint, PodSpec, PodTemplateSpec,
}
use nacos_operator.Merge.Scalars.{
  over_str, over_int, over_bool, over_opt, append_missing, string_slices, string_to_string_map,
}
use nacos_operator.Merge.Containers.{containers, ephemeral_containers}
use nacos_operator.Merge.Volumes.{volumes}

-- The early return of nil for an empty result is the empty list here.
unfoldable pub tolerations : RangeOrder → List Toleration → List Toleration → List Toleration
tolerations order default_tolerations override_tolerations =
    let default_map = create_map (λ t. t.key) default_tolerations in
    let merged = create_from (λ t. t.key) default_map override_tolerations in
    sort_by (λ t. t.key) (map_values (order.visit 0 Toleration merged))

unfoldable pub affinity : Option Affinity → Option Affinity → Option Affinity
affinity none override = override
affinity (some default) none = some default
affinity (some default) (some override) = some (record {
  node_affinity = over_opt default.node_affinity override.node_affinity;
  pod_affinity = over_opt default.pod_affinity override.pod_affinity;
  pod_anti_affinity = over_opt default.pod_anti_affinity override.pod_anti_affinity;
})

unfoldable pub topology_spread_constraint :
    TopologySpreadConstraint → TopologySpreadConstraint → TopologySpreadConstraint
topology_spread_constraint original override = record original {
  label_selector = over_opt original.label_selector override.label_selector;
  max_skew = over_int original.max_skew override.max_skew;
  when_unsatisfiable = over_str original.when_unsatisfiable override.when_unsatisfiable;
}

-- The second loop tests the map that it writes.
merge_into :
    (TopologySpreadConstraint → TopologySpreadConstraint → TopologySpreadConstraint)
    → GoMap TopologySpreadConstraint
    → GoMap TopologySpreadConstraint
    → GoMap TopologySpreadConstraint
merge_into merge m [] = m
merge_into merge m ((k, v) ∷ es) = merge_into merge (assign k (merge_entry merge m k v) m) es

-- Not sorted in the source.
unfoldable pub topology_spread_constraints :
    RangeOrder
    → List TopologySpreadConstraint
    → List TopologySpreadConstraint
    → List TopologySpreadConstraint
unfolding merge_into
topology_spread_constraints order original override =
    let original_map = create_map (λ c. c.topology_key) original in
    let override_map = create_map (λ c. c.topology_key) override in
    let copied = assign_all (λ k v. v) [] (order.visit 0 TopologySpreadConstraint original_map) in
    let merged =
      merge_into topology_spread_constraint copied
        (order.visit 1 TopologySpreadConstraint override_map) in
    map_values (order.visit 2 TopologySpreadConstraint merged)

-- One round of the second loop of `HostAliases`.
unfoldable pub add_host_alias : HostAlias → GoMap HostAlias → GoMap HostAlias
unfolding append_missing
add_host_alias override m = elim (lookup override.ip m) [
  | some a ↦
      assign override.ip
        (record { ip = override.ip; hostnames = append_missing a.hostnames override.hostnames }) m
  | none ↦ assign override.ip override m
]

unfoldable pub add_host_aliases : GoMap HostAlias → List HostAlias → GoMap HostAlias
unfolding add_host_alias
add_host_aliases m [] = m
add_host_aliases m (o ∷ os) = add_host_aliases (add_host_alias o m) os

unfoldable pub host_aliases : RangeOrder → List HostAlias → List HostAlias → List HostAlias
unfolding add_host_aliases
host_aliases order original_aliases override_aliases =
    let m = add_host_aliases (create_map (λ a. a.ip) original_aliases) override_aliases in
    sort_by (λ a. a.ip) (map_values (order.visit 0 HostAlias m))

-- `StringSlices` of a list that may be nil.
abbrev slices_if_set : Option (List String) → Option (List String) → Option (List String)
slices_if_set merged none = merged
slices_if_set none (some override) = some (string_slices [] override)
slices_if_set (some merged) (some override) = some (string_slices merged override)

unfoldable pub pod_dns_config : Option PodDnsConfig → Option PodDnsConfig → Option PodDnsConfig
pod_dns_config original none = original
pod_dns_config none (some override) = some override
pod_dns_config (some original) (some override) = some (record {
  options = over_opt original.options override.options;
  nameservers = slices_if_set original.nameservers override.nameservers;
  searches = slices_if_set original.searches override.searches;
})

-- Fields that are merged only when the override sets them.
abbrev pub merge_if_set {ℓ} : {A : Type ℓ} → (Option A → A → A) → Option A → Option A → Option A
merge_if_set merge original none = original
merge_if_set merge original (some override) = some (merge original override)

abbrev pub items : {A : Type 0} → Option (List A) → List A
items none = []
items (some xs) = xs

unfoldable pub pod_spec : RangeOrder → PodSpec → PodSpec → PodSpec
pod_spec order original override = record original {
  volumes = volumes order original.volumes override.volumes;
  containers = containers order original.containers override.containers;
  init_containers = containers order original.init_containers override.init_containers;
  ephemeral_containers =
      merge_if_set (λ o. ephemeral_containers order (items o)) original.ephemeral_containers
        override.ephemeral_containers;
  restart_policy = over_str original.restart_policy override.restart_policy;
  termination_grace_period_seconds =
      over_opt original.termination_grace_period_seconds override.termination_grace_period_seconds;
  active_deadline_seconds =
      over_opt original.active_deadline_seconds override.active_deadline_seconds;
  dns_policy = over_str original.dns_policy override.dns_policy;
  node_selector =
      merge_if_set (λ o. string_to_string_map order (items o)) original.node_selector
        override.node_selector;
  service_account_name = over_str original.service_account_name override.service_account_name;
  deprecated_service_account =
      over_str original.deprecated_service_account override.deprecated_service_account;
  automount_service_account_token =
      over_opt original.automount_service_account_token override.automount_service_account_token;
  node_name = over_str original.node_name override.node_name;
  host_network = over_bool original.host_network override.host_network;
  host_pid = over_bool original.host_pid override.host_pid;
  share_process_namespace =
      over_opt original.share_process_namespace override.share_process_namespace;
  security_context = over_opt original.security_context override.security_context;
  image_pull_secrets = over_opt original.image_pull_secrets override.image_pull_secrets;
  hostname = over_str original.hostname override.hostname;
  subdomain = over_str original.subdomain override.subdomain;
  affinity = elim override.affinity [
    | none ↦ original.affinity
    | some a ↦ affinity original.affinity (some a)
  ];
  scheduler_name = over_str original.scheduler_name override.scheduler_name;
  tolerations = tolerations order original.tolerations override.tolerations;
  host_aliases = host_aliases order original.host_aliases override.host_aliases;
  priority_class_name = over_str original.priority_class_name override.priority_class_name;
  priority = over_opt original.priority override.priority;
  dns_config = elim override.dns_config [
    | none ↦ original.dns_config
    | some c ↦ pod_dns_config original.dns_config (some c)
  ];
  readiness_gates = over_opt original.readiness_gates override.readiness_gates;
  runtime_class_name = over_opt original.runtime_class_name override.runtime_class_name;
  enable_service_links = over_opt original.enable_service_links override.enable_service_links;
  preemption_policy = over_opt original.preemption_policy override.preemption_policy;
  overhead = over_opt original.overhead override.overhead;
  topology_spread_constraints =
      merge_if_set (λ o. topology_spread_constraints order (items o))
        original.topology_spread_constraints override.topology_spread_constraints;
}

unfoldable pub pod_template_specs : RangeOrder → PodTemplateSpec → PodTemplateSpec → PodTemplateSpec
pod_template_specs order original override = record original {
  annotations = string_to_string_map order original.annotations override.annotations;
  labels = string_to_string_map order original.labels override.labels;
  spec = pod_spec order original.spec override.spec;
}
