-- ===== src/Samples/Ensuring.antt =====
-- The theorems on the steps at servers that keep objects, and at a database that is a standby.
use nacos_operator.Prelude.{
  ℕ, ◌≡◌, ◌≤◌, ◌*◌, refl, sym, ap, true, inl, pos, some, none, [], ◌∷◌, length,
}
use nacos_operator.GoMap.{GoMap}
use nacos_operator.GoMap.Orders.{in_order}
use nacos_operator.Api.{Nacos}
use nacos_operator.Kind.Wired.{IsWired, build_stateful_set-IsWired}
use nacos_operator.Go.{Panic, Go, Outcome, done, panics, Reply, ok, fail, ensure_normal}
use nacos_operator.Types.{ObjectMeta, ConfigMap, Service, StatefulSet, zero_resources}
use nacos_operator.K8s.{
  create_or_update_config_map, create_or_update_service, get_stateful_set_read_pod,
  get_stateful_set_pods, ready_pods, is_ready,
}
use nacos_operator.K8s.Stored.{config_map_name, config_map_contents, service_name, service_content}
use nacos_operator.Kind.{
  build_merged_config_map, referenced_content, merged_content, final_config_name, build_service,
  build_headless_service_cluster, build_stateful_set, build_env, storage_additions,
  config_additions, assemble_stateful_set, checks_database, object_labels, generate_name,
}
use nacos_operator.Operator.Services.{Services, State}
use nacos_operator.Operator.{
  check_kind, ensure_config_map, ensure_headless_service_cluster, with_connection, url_query_escape,
}
use nacos_operator.Operator.Quorum.{all_ready, check_kind-quorum}
use nacos_operator.Operator.Standby.{with_connection-standby}
use nacos_operator.Operator.Configured.{IsConfigured, ensure_config_map-IsConfigured}
use nacos_operator.Operator.Owned.{KeepsName}
use nacos_operator.Operator.Served.{IsServed, built_headless, headless, ensured-IsServed}
use nacos_operator.Operator.Escaped.{
  HasNoSeparator, percent_encoded, url_query_escape-HasNoSeparator,
  url_query_escape-percent_encoded,
}
use nacos_operator.Samples.Values.{new_nacos}
use nacos_operator.Samples.Members.{pod, three}
use nacos_operator.Samples.World.{
  memory, memory_laws, filling, filling_laws, with_type, with_type-content, clock_services,
  still_services, start,
}

url_query_escape-HasNoSeparator_example : HasNoSeparator (url_query_escape "p@ss:w/rd?#")
url_query_escape-HasNoSeparator_example = url_query_escape-HasNoSeparator "p@ss:w/rd?#"

url_query_escape-percent_encoded_example :
    url_query_escape "p@ss:w/rd?#%" ≡ percent_encoded "p@ss:w/rd?#%"
url_query_escape-percent_encoded_example = url_query_escape-percent_encoded "p@ss:w/rd?#%"

abbrev standby : Services ℕ
standby = record clock_services {
  postgres = record clock_services.postgres { query_in_recovery = λ w. (ok true, w) };
}

with_connection-standby_example :
    (p : Panic) × (s' : State ℕ) × ((work : Go (State ℕ) (Unit {0}))
      → with_connection standby work start ≡ (panics p, s'))
with_connection-standby_example = with_connection-standby standby (inl (λ w. refl)) start

abbrev config_services : Services (GoMap ConfigMap)
config_services = record still_services {
  api = record still_services.api { config_maps = memory config_map_name };
}

abbrev configured : GoMap ConfigMap
configured =
    (
      "default/user-config",
      record {
        meta = record {
          name = "user-config";
          namespace = "default";
          labels = [];
          annotations = [];
          resource_version = "3";
          controller = none;
        };
        contents = ("user.properties", "nacos.core.auth.enabled=true") ∷ [];
      },
    )
    ∷ []

owner_kept : KeepsName config_services
owner_kept n meta owned e =
    ap (λ (r : Reply ObjectMeta). elim r [ ok m ↦ m.name | fail _ ↦ owned.name ]) (sym e)

abbrev to_configure : State (GoMap ConfigMap)
to_configure = record { nacos = new_nacos; world = configured }

ensure_config_map-IsConfigured_example :
    IsConfigured config_services to_configure (ensure_config_map config_services to_configure).1
ensure_config_map-IsConfigured_example =
    ensure_config_map-IsConfigured config_services (memory_laws config_map_name config_map_contents)
      owner_kept to_configure (ensure_config_map config_services to_configure).1 refl
      (unfold ensure_config_map build_merged_config_map referenced_content merged_content
          create_or_update_config_map final_config_name ensure_normal object_labels generate_name in
        refl)

abbrev service_services : Services (GoMap Service)
service_services = record still_services {
  api = record still_services.api { services = filling with_type service_name };
}

abbrev to_serve : State (GoMap Service)
to_serve = record { nacos = new_nacos; world = [] }

service_owner_kept : KeepsName service_services
service_owner_kept n meta owned e =
    ap (λ (r : Reply ObjectMeta). elim r [ ok m ↦ m.name | fail _ ↦ owned.name ]) (sym e)

ensured-IsServed_example :
    IsServed service_services
      (built_headless service_services to_serve)
      to_serve
      (ensure_headless_service_cluster service_services to_serve).1
ensured-IsServed_example =
    ensured-IsServed service_services
      (filling_laws with_type service_name service_content with_type-content) service_owner_kept
      (headless {s = to_serve} {s' = (ensure_headless_service_cluster service_services to_serve).1}
        (unfold ensure_headless_service_cluster create_or_update_service build_service
            build_headless_service_cluster ensure_normal in
          refl))

abbrev sets : Services ℕ
sets = record clock_services {
  api = record clock_services.api {
    stateful_sets = record clock_services.api.stateful_sets { get = λ ns name w. ok three };
    list_pods =
        λ ns labels w. ok (pod "demo-0" "True" ∷ pod "demo-1" "False" ∷ pod "demo-2" "True" ∷ []);
  };
}

check_kind-quorum_example :
    (ss : StatefulSet) × (sets.api.stateful_sets.get "default" "demo" 120 ≡ ok ss)
    × (ss.spec.replicas ≡ some (pos 3))
    × (3 ≤ 2 * length (pod "demo-0" "True" ∷ pod "demo-2" "True" ∷ []))
    × (all_ready (pod "demo-0" "True" ∷ pod "demo-2" "True" ∷ []) ≡ true)
    × ((check_kind sets start).1.nacos ≡ start.nacos)
check_kind-quorum_example =
    check_kind-quorum sets 3 start (check_kind sets start).1
      (pod "demo-0" "True" ∷ pod "demo-2" "True" ∷ []) refl
      (unfold check_kind get_stateful_set_read_pod get_stateful_set_pods ready_pods is_ready in
        refl)

-- The stateful set of a resource with a claim and a managed configuration.
abbrev with_claim : Nacos
with_claim = record new_nacos {
  spec = record new_nacos.spec {
    type = "standalone";
    volume = record new_nacos.spec.volume {
      volume_claim_template = some (record {
        name = "";
        namespace = "";
        spec = record {
          access_modes = [];
          selector = none;
          resources = zero_resources;
          storage_class_name = some "fast";
          volume_mode = none;
          data_source = none;
        };
      });
      persistent_volume_size = "10Gi";
    };
  };
}

abbrev kept_by : StatefulSet → ℕ → Outcome StatefulSet × ℕ
kept_by ss w = (done ss, w)

abbrev set_of : Outcome StatefulSet × ℕ → StatefulSet
set_of (done ss, w) = ss
set_of (panics p, w) = three

kept_by_spec :
    (ss owned : StatefulSet) (w w' : ℕ) → kept_by ss w ≡ (done owned, w') → owned.spec ≡ ss.spec
kept_by_spec ss owned w w' e = ap (λ (r : Outcome StatefulSet × ℕ). (set_of r).spec) (sym e)

build_stateful_set-IsWired_example :
    IsWired in_order with_claim
      (set_of (build_stateful_set in_order (λ text. some text) kept_by with_claim 0)).spec
build_stateful_set-IsWired_example =
    build_stateful_set-IsWired in_order (λ text. some text) kept_by kept_by_spec with_claim
      (set_of (build_stateful_set in_order (λ text. some text) kept_by with_claim 0)) 0 0
      (unfold build_stateful_set build_env storage_additions config_additions assemble_stateful_set
          checks_database in
        refl)
