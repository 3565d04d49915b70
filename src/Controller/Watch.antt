-- ===== src/Controller/Watch.antt =====
-- Which resources a change of a config map wakes.
use nacos_operator.Prelude.{
  String, Bool, false, ◌||◌, Option, none, some, List, [], ◌∷◌, ◌==◌, if◌then◌else◌,
}
use nacos_operator.GoMap.{GoMap, lookup}
use nacos_operator.Go.{Reply, ok, fail}
use nacos_operator.Api.{Nacos, ConfigMapRef}

abbrev refers_to : String → Option ConfigMapRef → Bool
refers_to name none = false
refers_to name (some ref) = ref.name == name

unfoldable pub references : String → Nacos → Bool
references name nacos =
    refers_to name nacos.spec.user_config_ref || refers_to name nacos.spec.internal_config_ref

-- A request: namespace and name.
unfoldable pub requests_for : String → List Nacos → List (String × String)
unfolding references
requests_for name [] = []
requests_for name (n ∷ ns) =
    let rest = requests_for name ns in
    if references name n then (n.namespace, n.name) ∷ rest else rest

-- A failed listing is logged, and wakes nothing.
unfoldable pub find_nacos_for_config_map : String → Reply (List Nacos) → List (String × String)
unfolding requests_for
find_nacos_for_config_map name (fail e) = []
find_nacos_for_config_map name (ok items) = requests_for name items

unfoldable pub filter_by_label : GoMap String → Bool
filter_by_label label = elim (lookup "middleware" label) [ none ↦ false | some v ↦ v == "nacos" ]
