-- ===== src/Kind/Cluster.antt =====
-- buildStatefulsetCluster: the address list of a cluster's members.
use nacos_operator.Prelude.{
  ℕ, zero, suc, String, not, ◌&&◌, List, [], ◌∷◌, ◌++◌, ◌==◌, ◌+++◌, ℤ, pos, negsuc, itoa, show_nat,
  drop_last_char, if◌then◌else◌,
}
use nacos_operator.Go.{Go, runtime_error, pure, panic, ◌>>=◌}
use nacos_operator.Types.{Container, EnvVar, StatefulSet}
use nacos_operator.Api.{Nacos}
use nacos_operator.K8s.{dereference, first}
use nacos_operator.Kind.Names.{generate_name, generate_headless_svc_name}
use nacos_operator.Kind.Endpoints.{nacos_port}
use nacos_operator.Kind.Environment.{env_var}

-- The last DOMAIN_NAME with a value, or the default.
abbrev pub domain_from : String → List EnvVar → String
domain_from domain [] = domain
domain_from domain (e ∷ es) =
    domain_from (if e.name == "DOMAIN_NAME" && not (e.value == "") then e.value else domain) es

unfoldable pub cluster_domain : List EnvVar → String
cluster_domain env = domain_from "cluster.local" env

-- The address of member `i`.
unfoldable pub member_address : Nacos → ℕ → String
unfolding generate_name generate_headless_svc_name cluster_domain
member_address nacos i =
    generate_name nacos
    +++ "-"
    +++ show_nat i
    +++ "."
    +++ generate_headless_svc_name nacos
    +++ "."
    +++ nacos.namespace
    +++ ".svc."
    +++ cluster_domain nacos.spec.env
    +++ ":"
    +++ itoa nacos_port

-- `for i := 0; i < int(*replicas); i++`: `left` rounds from `i` on, a space behind each address.
unfoldable pub service_loop : Nacos → ℕ → ℕ → String → String
unfolding member_address
service_loop nacos zero i service = service
service_loop nacos (suc left) i service =
    service_loop nacos left (suc i) (service +++ member_address nacos i +++ " ")

abbrev pub rounds : ℤ → ℕ
rounds (pos n) = n
rounds (negsuc n) = 0

-- `s[0 : len(s)-1]`, which panics on the empty text.
abbrev pub without_last : {W : Type 0} → String → Go W String
without_last s =
    if s == ""
    then panic (runtime_error "slice bounds out of range [:-1]")
    else pure (drop_last_char s)

unfoldable pub nacos_servers : {W : Type 0} → Nacos → Go W String
unfolding service_loop
nacos_servers nacos = do
  replicas ← dereference nacos.spec.replicas
  without_last (service_loop nacos (rounds replicas) 0 "")

-- `Containers[0].Env` and `Containers[0].Command`.
abbrev for_cluster : String → List Container → List Container
for_cluster servers [] = []
for_cluster servers (c ∷ cs) =
    record c {
      env = c.env ++ env_var "NACOS_SERVERS" servers ∷ [];
      command = "/bin/bash" ∷ "-c" ∷ "bin/docker-startup.sh" ∷ [];
    }
    ∷ cs

unfoldable pub build_stateful_set_cluster : {W : Type 0} → Nacos → StatefulSet → Go W StatefulSet
unfolding nacos_servers generate_headless_svc_name
build_stateful_set_cluster nacos ss = do
  servers ← nacos_servers nacos
  container ← first ss.spec.template.spec.containers
  pure (record ss {
    spec = record ss.spec {
      service_name = generate_headless_svc_name nacos;
      template = record ss.spec.template {
        spec = record ss.spec.template.spec {
          containers = for_cluster servers ss.spec.template.spec.containers;
        };
      };
    };
  })
