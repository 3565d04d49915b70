-- ===== src/Operator/Ensure.antt =====
-- Kind.go: the Ensure operations, which build an object and hand it to the API server.
use nacos_operator.Prelude.{
  String, Option, none, some, ◌==◌, not, is_some, map_option, if◌then◌else◌,
}
use nacos_operator.GoMap.{lookup}
use nacos_operator.GoMap.Loops.{create_map}
use nacos_operator.Go.{KubeError, Reply, ok, fail, Go, pure, gets, when, ◌>>=◌, ◌>>◌, ensure_normal}
use nacos_operator.Types.{
  ObjectMeta, ConfigMap, Service, StatefulSet, Job, Volume, EmptyDirVolumeSource,
}
use nacos_operator.Api.{Nacos, Storage}
use nacos_operator.Merge.{pod_spec, merge_empty_dir}
use nacos_operator.K8s.{
  create_if_not_exists_config_map, create_or_update_config_map, create_if_not_exists_service,
  create_or_update_service, create_if_not_exists_job, create_or_update_stateful_set,
}
use nacos_operator.Kind.{
  manages_config, build_config_map, build_merged_config_map, build_mysql_config_map,
  compute_config_digest, build_service, build_client_service, build_headless_service_cluster,
  build_job, shared_storage, build_stateful_set, build_stateful_set_cluster,
}
use nacos_operator.Operator.Services.{Services, State, on_world, read_world, set_nacos}
use nacos_operator.Operator.Check.{ensure_reply}

-- A step that knows the world alone, within the whole state.
abbrev pub in_world : {W A : Type 0} → Go W A → Go (State W) A
in_world m s = let (r, w) = m s.world in (r, record s { world = w })

abbrev merged_empty_dir : Option EmptyDirVolumeSource → EmptyDirVolumeSource → EmptyDirVolumeSource
merged_empty_dir none default = default
merged_empty_dir (some override) default = merge_empty_dir default override

module _ {W : Type 0} (services : Services W) where
  -- EnsureNormal(SetControllerReference(nacos, object, scheme))
  abbrev own : {S : Type 0} → Nacos → ObjectMeta → Go S ObjectMeta
  own nacos meta = ensure_reply (services.set_controller_reference nacos meta)

  abbrev pub own_config_map : {S : Type 0} → Nacos → ConfigMap → Go S ConfigMap
  own_config_map nacos cm = do meta ← own nacos cm.meta; pure (record cm { meta = meta })

  abbrev pub own_service : {S : Type 0} → Nacos → Service → Go S Service
  own_service nacos svc = do meta ← own nacos svc.meta; pure (record svc { meta = meta })

  abbrev own_stateful_set : {S : Type 0} → Nacos → StatefulSet → Go S StatefulSet
  own_stateful_set nacos ss = do meta ← own nacos ss.meta; pure (record ss { meta = meta })

  abbrev own_job : {S : Type 0} → Nacos → Job → Go S Job
  own_job nacos job = do meta ← own nacos job.meta; pure (record job { meta = meta })

  -- `EnsureNormal(call)`
  abbrev pub ensured : (W → Option KubeError × W) → Go (State W) (Unit {0})
  ensured call = do err ← on_world call; ensure_normal err

  abbrev pub current : Go (State W) Nacos
  current = gets (λ s. s.nacos)

  abbrev with_wrapper : Nacos → StatefulSet → StatefulSet
  with_wrapper nacos ss = record ss {
    spec = record ss.spec {
      template = record ss.spec.template {
        spec = pod_spec services.order ss.spec.template.spec nacos.spec.k8s_wrapper;
      };
    };
  }

  -- The wrapper's volume is merged into the empty directory that the resource and the volume `db`
  -- of the stateful set share.
  abbrev shared_empty_dir : Option Volume → Storage → Storage
  shared_empty_dir none v = v
  shared_empty_dir (some over) v = record v {
    empty_dir = map_option (merged_empty_dir over.source.empty_dir) v.empty_dir;
  }

  abbrev pub share_empty_dir : Nacos → Nacos
  share_empty_dir nacos = record nacos {
    spec = record nacos.spec {
      volume =
          if is_some nacos.spec.volume.host_path
          then nacos.spec.volume
          else shared_empty_dir
              (lookup "db" (create_map (λ (v : Volume). v.name) nacos.spec.k8s_wrapper.volumes))
              nacos.spec.volume;
    };
  }

  abbrev pub share_claim : Nacos → Nacos
  share_claim nacos = record nacos {
    spec = record nacos.spec { volume = shared_storage services.parse_quantity nacos.spec.volume };
  }

  -- The stateful set gets its owner after its storage has been built.
  abbrev own_with_claim : StatefulSet → Go (State W) StatefulSet
  own_with_claim ss = do set_nacos share_claim; nacos ← current; own_stateful_set nacos ss

  abbrev store_stateful_set : Nacos → StatefulSet → Go (State W) (Unit {0})
  store_stateful_set nacos ss = do
    set_nacos share_empty_dir
    err ← in_world (
        create_or_update_stateful_set services.marshal services.api.stateful_sets nacos.namespace
          ss)
    ensure_normal err

  unfoldable pub ensure_stateful_set : Go (State W) (Unit {0})
  ensure_stateful_set = do
    nacos ← current
    ss ← build_stateful_set services.order services.parse_quantity own_with_claim nacos
    store_stateful_set nacos (with_wrapper nacos ss)

  unfoldable pub ensure_stateful_set_cluster : Go (State W) (Unit {0})
  ensure_stateful_set_cluster = do
    nacos ← current
    ss ← build_stateful_set services.order services.parse_quantity own_with_claim nacos
    cluster ← build_stateful_set_cluster nacos ss
    store_stateful_set nacos (with_wrapper nacos cluster)

  unfoldable pub ensure_service : Go (State W) (Unit {0})
  ensure_service = do
    nacos ← current
    svc ← own_service nacos (build_service services.order nacos)
    ensured (create_if_not_exists_service services.api.services nacos.namespace svc)

  unfoldable pub ensure_service_cluster : Go (State W) (Unit {0})
  ensure_service_cluster = do
    nacos ← current
    svc ← own_service nacos (build_service services.order nacos)
    ensured (create_or_update_service services.api.services nacos.namespace svc)

  unfoldable pub ensure_client_service : Go (State W) (Unit {0})
  ensure_client_service = do
    nacos ← current
    svc ← own_service nacos (build_client_service services.order nacos)
    ensured (create_or_update_service services.api.services nacos.namespace svc)

  unfoldable pub ensure_headless_service_cluster : Go (State W) (Unit {0})
  ensure_headless_service_cluster = do
    nacos ← current
    svc ← own_service nacos (build_service services.order nacos)
    ensured (
        create_or_update_service services.api.services nacos.namespace
          (build_headless_service_cluster svc nacos))

  abbrev pub set_config_digest : Option String → Go (State W) (Unit {0})
  set_config_digest none = pure tt
  set_config_digest (some content) = set_nacos (λ nacos. record nacos {
    status = record nacos.status {
      config_digest = compute_config_digest services.sha256_hex content;
    };
  })

  abbrev pub ensure_merged_config : Nacos → Go (State W) (Unit {0})
  ensure_merged_config nacos = do
    built ← in_world (build_merged_config_map services.order services.api.config_maps nacos)
    cm ← own_config_map nacos built
    ensured (create_or_update_config_map services.api.config_maps nacos.namespace cm)
    set_config_digest (lookup "application.properties" cm.contents)

  abbrev ensure_plain_config : Nacos → Go (State W) (Unit {0})
  ensure_plain_config nacos = do
    cm ← own_config_map nacos (build_config_map services.order nacos)
    ensured (create_if_not_exists_config_map services.api.config_maps nacos.namespace cm)

  unfoldable pub ensure_config_map : Go (State W) (Unit {0})
  ensure_config_map = do
    nacos ← current
    if manages_config nacos
        then ensure_merged_config nacos
        else when (not (nacos.spec.config == "")) (ensure_plain_config nacos)

  -- readSql: an unreadable file is the empty script.
  abbrev pub sql_text : Reply String → String
  sql_text (ok sql) = sql
  sql_text (fail e) = ""

  unfoldable pub ensure_mysql_config_map : Go (State W) (Unit {0})
  ensure_mysql_config_map = do
    nacos ← current
    sql ← read_world (services.read_file "config/sql/nacos-mysql.sql")
    cm ← own_config_map nacos (build_mysql_config_map services.order nacos (sql_text sql))
    ensured (create_if_not_exists_config_map services.api.config_maps nacos.namespace cm)

  abbrev job_with_wrapper : Nacos → Job → Job
  job_with_wrapper nacos job = record job {
    template = record job.template {
      spec = pod_spec services.order job.template.spec nacos.spec.k8s_wrapper;
    };
  }

  unfoldable pub ensure_job : Go (State W) (Unit {0})
  ensure_job = do
    nacos ← current
    job ← own_job nacos (build_job services.order nacos)
    ensured
        (create_if_not_exists_job services.api.jobs nacos.namespace (job_with_wrapper nacos job))
