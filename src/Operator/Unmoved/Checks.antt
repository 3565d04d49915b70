-- ===== src/Operator/Unmoved/Checks.antt =====
-- The checks leave it alone.
use nacos_operator.Prelude.{String, Bool, List, [], ◌∷◌}
use nacos_operator.Go.{Outcome, done, panics, Reply, ok, fail}
use nacos_operator.Types.{Pod}
use nacos_operator.Api.{Nacos, Event}
use nacos_operator.NacosClient.{Server}
use nacos_operator.Operator.Services.{Services, State}
use nacos_operator.Operator.Check.{
  check_kind, check_nacos, check_servers, check_pod, check_pods, ensure_servers, read_pods, pods_of,
}
use nacos_operator.Operator.Steps.{check_and_make_heal}
use nacos_operator.Operator.Keeps.{Keeps, keeps_rules}
use nacos_operator.Operator.Unmoved.Defs.{Has}

module _ {W : Type 0} (services : Services W) (p : String) (b : Bool) (es : List Event) where
  abbrev Q : State W → Type 0
  Q s = Has p b es s.nacos

  pods_of-keeps :
      (s : State W) (x : Outcome (Reply (List Pod)) × W) → Q s → Q (pods_of services s x).1
  pods_of-keeps s (done (ok pods), w) h = h
  pods_of-keeps s (done (fail e), w) h = h
  pods_of-keeps s (panics p, w) h = h

  read_pods-Keeps : (nacos : Nacos) → Keeps Q (read_pods services nacos)
  read_pods-Keeps nacos = record { at = λ s h. pods_of-keeps s _ h }

  check_kind-Keeps : Keeps Q (check_kind services)
  unfolding check_kind
  check_kind-Keeps = search (keeps_rules, read_pods-Keeps) depth 20

  check_servers-Keeps :
      (servers : List Server) (leader : String) → Keeps Q (check_servers services servers leader)
  unfolding check_servers
  check_servers-Keeps [] leader = search keeps_rules
  check_servers-Keeps (svc ∷ servers) leader =
      search (keeps_rules, check_servers-Keeps servers) depth 9

  ensure_servers-Keeps : (r : Reply (List Server)) → Keeps Q (ensure_servers services r)
  ensure_servers-Keeps (ok servers) = search keeps_rules
  ensure_servers-Keeps (fail e) = search keeps_rules

  check_pod-Keeps :
      (identity : String × String) (pod : Pod) (leader : String)
      → Keeps Q (check_pod services identity pod leader)
  unfolding check_pod
  check_pod-Keeps identity pod leader =
      search (keeps_rules, ensure_servers-Keeps, check_servers-Keeps) depth 12

  check_pods-Keeps :
      (identity : String × String) (pods : List Pod) (leader : String)
      → Keeps Q (check_pods services identity pods leader)
  unfolding check_pods
  check_pods-Keeps identity [] leader = search keeps_rules
  check_pods-Keeps identity (pod ∷ pods) leader =
      search (keeps_rules, check_pod-Keeps, check_pods-Keeps identity pods) depth 9

  check_nacos-Keeps : (pods : List Pod) → Keeps Q (check_nacos services pods)
  unfolding check_nacos
  check_nacos-Keeps pods = search (keeps_rules, check_pods-Keeps) depth 9

  pub check_and_make_heal-Keeps : Keeps Q (check_and_make_heal services)
  unfolding check_and_make_heal
  check_and_make_heal-Keeps = search (keeps_rules, check_kind-Keeps, check_nacos-Keeps)
