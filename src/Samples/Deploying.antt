-- ===== src/Samples/Deploying.antt =====
-- MakeEnsure and a whole reconcile of a cluster, at the server of one namespace.
use nacos_operator.Prelude.{none, show_nat, itoa, take_chars, [], ◌∷◌, refl, sym, ap}
use nacos_operator.Go.{Reply, ensure_normal, ensure_equal}
use nacos_operator.Types.{ObjectMeta}
use nacos_operator.Api.{Nacos}
use nacos_operator.Operator.Services.{State}
use nacos_operator.Kind.{
  build_headless_service_cluster, build_client_service, build_mysql_config_map, final_config_name,
  validation_field, set_default_nacos_type, set_default_mysql, set_default_certification,
  set_default_postgres, set_default_admin_secret, build_merged_config_map, referenced_content,
  build_stateful_set, build_env, storage_additions, build_stateful_set_cluster, nacos_servers,
  service_loop, member_address, cluster_domain, checks_database, assemble_stateful_set,
  add_check_database,
}
use nacos_operator.K8s.{
  get_stateful_set_read_pod, get_stateful_set_pods, ready_pods, is_ready, check_sts,
  check_volume_claim_templates, apply_operator, create_or_update_config_map,
  create_or_update_stateful_set, create_or_update_service, create_if_not_exists_config_map,
  create_if_not_exists_job,
}
use nacos_operator.Api.{phase_creating}
use nacos_operator.NacosClient.{get_cluster_nodes, nodes_url}
use nacos_operator.Controller.{reconcile_work, steps}
use nacos_operator.Controller.Achieved.{Achieved, reconcile_work-Achieved}
use nacos_operator.Merge.{pod_spec, containers}
use nacos_operator.GoMap.Loops.{merged_values, merged_map}
use nacos_operator.Operator.{
  pre_check, pg_ensure, rotate_admin, check_and_make_heal, check_kind, check_nacos, check_pods,
  check_pod, check_servers, resolve_identity_header, operator_update_status, update_status_running,
  update_last_event, sync_healthy, sync_version_digest, rotate_admin_password, read_admin_secret,
  rotation_needed, with_connection, open_connection, check_writable, rotate, read_db_credentials,
  data_source_name, url_query_escape, make_ensure, ensure_config_map, ensure_stateful_set_cluster,
  ensure_headless_service_cluster, ensure_client_service, ensure_mysql_config_map, ensure_job,
}
use nacos_operator.Operator.Owned.{KeepsName}
use nacos_operator.Operator.Deployed.Defs.{IsDeployed, validated}
use nacos_operator.Operator.Deployed.Cluster.{make_ensure-IsDeployed}
use nacos_operator.Samples.Values.{new_nacos}
use nacos_operator.Samples.Cluster.{Namespace, cluster_services, cluster_laws}

-- A resource with the job of the database, and the user's configuration.
abbrev with_job : Nacos
with_job = record new_nacos { spec = record new_nacos.spec { mysql_init_image = "mysql:5.7" } }

abbrev configured : State Namespace
configured = record {
  nacos = with_job;
  world = record {
    config_maps =
        (
          "user-config",
          record {
            meta = record {
              name = "user-config";
              namespace = "default";
              labels = [];
              annotations = [];
              resource_version = "1";
              controller = none;
            };
            contents = ("user.properties", "server.port=8848") ∷ [];
          },
        )
        ∷ [];
    services = [];
  };
}

owner_kept : KeepsName cluster_services
owner_kept n meta owned e =
    ap (λ (r : Reply ObjectMeta). elim r [ Reply.ok m ↦ m.name | Reply.fail _ ↦ owned.name ])
      (sym e)

make_ensure-IsDeployed_example :
    IsDeployed cluster_services
      (validated with_job)
      configured.world
      (make_ensure cluster_services configured).1
make_ensure-IsDeployed_example =
    make_ensure-IsDeployed cluster_services cluster_laws owner_kept configured
      (make_ensure cluster_services configured).1
      (unfold validation_field set_default_nacos_type set_default_mysql set_default_certification
          set_default_postgres set_default_admin_secret in
        refl)
      (unfold validation_field set_default_nacos_type set_default_mysql set_default_certification
          set_default_postgres set_default_admin_secret in
        refl)
      (unfold final_config_name validation_field set_default_nacos_type set_default_mysql
          set_default_certification set_default_postgres set_default_admin_secret in
        refl)
      (unfold make_ensure validation_field set_default_nacos_type set_default_mysql
          set_default_certification set_default_postgres set_default_admin_secret ensure_config_map
          build_merged_config_map referenced_content create_or_update_config_map
          ensure_stateful_set_cluster build_stateful_set build_env storage_additions
          build_stateful_set_cluster nacos_servers service_loop member_address cluster_domain
          create_or_update_stateful_set ensure_headless_service_cluster ensure_client_service
          create_or_update_service checks_database ensure_mysql_config_map ensure_job
          create_if_not_exists_config_map create_if_not_exists_job final_config_name
          assemble_stateful_set add_check_database check_sts check_volume_claim_templates
          apply_operator pod_spec containers merged_values merged_map take_chars ensure_normal
          show_nat itoa build_headless_service_cluster build_client_service
          build_mysql_config_map in
        refl)

-- The same resource in the phase `Creating`.
abbrev creating : State Namespace
creating = record configured {
  nacos = record with_job { status = record with_job.status { phase = phase_creating } };
}

reconcile_work-Achieved_example :
    Achieved cluster_services 3 creating (reconcile_work cluster_services creating).1
reconcile_work-Achieved_example =
    reconcile_work-Achieved cluster_services cluster_laws owner_kept 3 creating
      (reconcile_work cluster_services creating).1 (λ t w. refl) refl
      (unfold validation_field set_default_nacos_type set_default_mysql set_default_certification
          set_default_postgres set_default_admin_secret in
        refl)
      (unfold validation_field set_default_nacos_type set_default_mysql set_default_certification
          set_default_postgres set_default_admin_secret in
        refl)
      (unfold final_config_name validation_field set_default_nacos_type set_default_mysql
          set_default_certification set_default_postgres set_default_admin_secret in
        refl)
      (unfold reconcile_work steps pre_check pg_ensure rotate_admin check_and_make_heal check_kind
          check_nacos check_pods check_pod check_servers ensure_equal get_cluster_nodes nodes_url
          resolve_identity_header operator_update_status update_status_running update_last_event
          sync_healthy sync_version_digest rotate_admin_password read_admin_secret rotation_needed
          with_connection open_connection check_writable rotate read_db_credentials data_source_name
          url_query_escape get_stateful_set_read_pod get_stateful_set_pods ready_pods is_ready
          make_ensure validation_field set_default_nacos_type set_default_mysql
          set_default_certification set_default_postgres set_default_admin_secret ensure_config_map
          build_merged_config_map referenced_content create_or_update_config_map
          ensure_stateful_set_cluster build_stateful_set build_env storage_additions
          build_stateful_set_cluster nacos_servers service_loop member_address cluster_domain
          create_or_update_stateful_set ensure_headless_service_cluster ensure_client_service
          create_or_update_service checks_database ensure_mysql_config_map ensure_job
          create_if_not_exists_config_map create_if_not_exists_job final_config_name
          assemble_stateful_set add_check_database check_sts check_volume_claim_templates
          apply_operator pod_spec containers merged_values merged_map take_chars ensure_normal
          show_nat itoa build_headless_service_cluster build_client_service
          build_mysql_config_map in
        refl)
