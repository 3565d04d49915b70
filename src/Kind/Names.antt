-- ===== src/Kind/Names.antt =====
-- Names, labels and annotations.
use nacos_operator.Prelude.{String, none, List, [], ◌∷◌, ◌+++◌}
use nacos_operator.GoMap.{GoMap, RangeOrder}
use nacos_operator.GoMap.Loops.{assign_all}
use nacos_operator.Types.{ObjectMeta}
use nacos_operator.Api.{Nacos}

abbrev pub nacos_label : String
nacos_label = "nacos"

unfoldable pub generate_labels : String → String → GoMap String
generate_labels name component =
    ("app", name) ∷ ("middleware", nacos_label) ∷ ("component", component) ∷ []

abbrev pub generate_annoation : GoMap String
generate_annoation = []

-- One round of the outer loop for each map.
merge_label_maps : RangeOrder → GoMap String → List (GoMap String) → GoMap String
merge_label_maps order res [] = res
merge_label_maps order res (labels ∷ rest) =
    merge_label_maps order (assign_all (λ k v. v) res (order.visit 0 String labels)) rest

unfoldable pub merge_labels : RangeOrder → List (GoMap String) → GoMap String
unfolding merge_label_maps
merge_labels order all_labels = merge_label_maps order [] all_labels

unfoldable pub generate_name : Nacos → String
generate_name nacos = nacos.name

unfoldable pub generate_headless_svc_name : Nacos → String
generate_headless_svc_name nacos = nacos.name +++ "-headless"

unfoldable pub generate_client_svc_name : Nacos → String
generate_client_svc_name nacos = nacos.name +++ "-client"

-- `labels = e.MergeLabels(nacos.Labels, e.generateLabels(nacos.Name, NACOS))`
unfoldable pub object_labels : RangeOrder → Nacos → GoMap String
unfolding merge_labels generate_labels
object_labels order nacos =
    merge_labels order (nacos.labels ∷ generate_labels nacos.name nacos_label ∷ [])

-- What every object of a resource starts from.
abbrev pub object_meta : Nacos → String → GoMap String → GoMap String → ObjectMeta
object_meta nacos name labels annotations = record {
  name = name;
  namespace = nacos.namespace;
  labels = labels;
  annotations = annotations;
  resource_version = "";
  controller = none;
}
