-- ===== src/Merge/Workloads.antt =====
-- pkg/util/merge/merge_statefulset.go and merge_deployment.go.
use nacos_operator.Prelude.{String, Option, none, some, List, [], ◌∷◌, ◌++◌}
use nacos_operator.GoMap.{RangeOrder}
use nacos_operator.GoMap.Sorting.{sort_by, find_by}
use nacos_operator.GoMap.Loops.{merged_values}
use nacos_operator.Types.{
  LabelSelector, LabelSelectorRequirement, PersistentVolumeClaim, StatefulSetSpec, StatefulSet,
  DeploymentSpec,
}
use nacos_operator.Merge.Scalars.{
  over_str, over_opt, append_missing, string_slices, string_to_string_map,
}
use nacos_operator.Merge.Pods.{items, pod_template_specs}

-- LabelSelectorRequirementByKey
unfoldable pub label_selector_requirement_by_key :
    List LabelSelectorRequirement → String → Option LabelSelectorRequirement
label_selector_requirement_by_key lsrs key = find_by (λ r. r.key) key lsrs

abbrev sort_values : Option (List String) → Option (List String)
sort_values none = none
sort_values (some vs) = some (sort_by (λ v. v) vs)

merge_requirement :
    LabelSelectorRequirement → Option LabelSelectorRequirement → LabelSelectorRequirement
merge_requirement original none = record original { values = sort_values original.values }
merge_requirement original (some override) = record original {
  operator = over_str original.operator override.operator;
  values = sort_values (elim override.values [
    | none ↦ original.values
    | some vs ↦ some (string_slices (items original.values) vs)
  ]);
}

-- The first loop of `LabelSelectorRequirements`.
merge_requirements :
    List LabelSelectorRequirement → List LabelSelectorRequirement → List LabelSelectorRequirement
unfolding merge_requirement label_selector_requirement_by_key
merge_requirements override [] = []
merge_requirements override (r ∷ rs) =
    merge_requirement r (label_selector_requirement_by_key override r.key)
    ∷ merge_requirements override rs

-- Its second loop.
new_requirements :
    List LabelSelectorRequirement → List LabelSelectorRequirement → List LabelSelectorRequirement
unfolding label_selector_requirement_by_key
new_requirements original [] = []
new_requirements original (r ∷ rs) = elim (label_selector_requirement_by_key original r.key) [
  | none ↦ record r { values = sort_values r.values } ∷ new_requirements original rs
  | some _ ↦ new_requirements original rs
]

unfoldable pub label_selector_requirements :
    List LabelSelectorRequirement → List LabelSelectorRequirement → List LabelSelectorRequirement
unfolding merge_requirements new_requirements
label_selector_requirements original override =
    sort_by (λ r. r.key)
      (merge_requirements override original ++ new_requirements original override)

unfoldable pub label_selectors :
    RangeOrder → Option LabelSelector → Option LabelSelector → Option LabelSelector
label_selectors order original none = original
label_selectors order none (some override) = none
label_selectors order (some original) (some override) = some (record {
  match_labels = string_to_string_map order original.match_labels override.match_labels;
  match_expressions =
      label_selector_requirements original.match_expressions override.match_expressions;
})

-- The loop over the access modes is that of `StringSlices`, with `contains.AccessMode`.
unfoldable pub persistent_volume_claim :
    PersistentVolumeClaim → PersistentVolumeClaim → PersistentVolumeClaim
unfolding append_missing
persistent_volume_claim default override =
    let d = default.spec in
    let o = override.spec in
    record default {
      namespace = over_str default.namespace override.namespace;
      spec = record {
        volume_mode = over_opt d.volume_mode o.volume_mode;
        storage_class_name = over_opt d.storage_class_name o.storage_class_name;
        access_modes = append_missing d.access_modes o.access_modes;
        selector = over_opt d.selector o.selector;
        resources = record {
          limits = over_opt d.resources.limits o.resources.limits;
          requests = over_opt d.resources.requests o.resources.requests;
        };
        data_source = over_opt d.data_source o.data_source;
      };
    }

unfoldable pub volume_claim_templates :
    RangeOrder
    → List PersistentVolumeClaim
    → List PersistentVolumeClaim
    → List PersistentVolumeClaim
volume_claim_templates order defaults overrides =
    sort_by (λ c. c.name)
      (merged_values order (λ c. c.name) persistent_volume_claim defaults overrides)

unfoldable pub stateful_set_specs : RangeOrder → StatefulSetSpec → StatefulSetSpec → StatefulSetSpec
stateful_set_specs order default override = record {
  replicas = over_opt default.replicas override.replicas;
  selector = label_selectors order default.selector override.selector;
  pod_management_policy = over_str default.pod_management_policy override.pod_management_policy;
  revision_history_limit = over_opt default.revision_history_limit override.revision_history_limit;
  update_strategy_type = over_str default.update_strategy_type override.update_strategy_type;
  rolling_update = over_opt default.rolling_update override.rolling_update;
  service_name = over_str default.service_name override.service_name;
  template = pod_template_specs order default.template override.template;
  volume_claim_templates =
      volume_claim_templates order default.volume_claim_templates override.volume_claim_templates;
}

unfoldable pub stateful_sets : RangeOrder → StatefulSet → StatefulSet → StatefulSet
stateful_sets order default override = record default {
  meta = record default.meta {
    labels = string_to_string_map order default.meta.labels override.meta.labels;
    namespace = over_str default.meta.namespace override.meta.namespace;
    name = over_str default.meta.name override.meta.name;
  };
  spec = stateful_set_specs order default.spec override.spec;
}

unfoldable pub deployment_specs : RangeOrder → DeploymentSpec → DeploymentSpec → DeploymentSpec
deployment_specs order default override = record default {
  replicas = over_opt default.replicas override.replicas;
  selector = label_selectors order default.selector override.selector;
  revision_history_limit = over_opt default.revision_history_limit override.revision_history_limit;
  template = pod_template_specs order default.template override.template;
}
