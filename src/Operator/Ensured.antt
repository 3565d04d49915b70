-- ===== src/Operator/Ensured.antt =====
-- What MakeEnsure leaves true, for any predicate that does not look at the world and that its writes
-- to the resource keep.
use nacos_operator.Prelude.{String, Option}
use nacos_operator.Api.{Nacos}
use nacos_operator.Kind.{validation_field}
use nacos_operator.Operator.Services.{Services, State, set_nacos}
use nacos_operator.Operator.Ensure.{
  ensure_service, ensure_config_map, ensure_client_service, ensure_headless_service_cluster,
  ensure_mysql_config_map, ensure_job, set_config_digest, share_claim, share_empty_dir,
  ensure_stateful_set, ensure_stateful_set_cluster,
}
use nacos_operator.Operator.Steps.{make_ensure, ensure_database}
use nacos_operator.Operator.Keeps.{Keeps, keeps_rules}
use nacos_operator.Operator.Building.{ensure_stateful_set-Keeps, ensure_stateful_set_cluster-Keeps}

module _ {W : Type 0} (services : Services W) {Q : State W → Type 0}
    (blind : (s : State W) (w : W) → Q s → Q (record s { world = w }))
    (validates : Keeps Q (set_nacos (λ n. record n { spec = validation_field n.spec })))
    (digests : (o : Option String) → Keeps Q (set_config_digest services o))
    (claims : (s : State W) → Q s → Q (record s { nacos = share_claim services s.nacos }))
    (dirs : (s : State W) → Q s → Q (record s { nacos = share_empty_dir services s.nacos })) where
  ensure_service-Keeps : Keeps Q (ensure_service services)
  unfolding ensure_service
  ensure_service-Keeps = search (keeps_rules, blind) depth 12

  ensure_client_service-Keeps : Keeps Q (ensure_client_service services)
  unfolding ensure_client_service
  ensure_client_service-Keeps = search (keeps_rules, blind) depth 12

  ensure_headless_service_cluster-Keeps : Keeps Q (ensure_headless_service_cluster services)
  unfolding ensure_headless_service_cluster
  ensure_headless_service_cluster-Keeps = search (keeps_rules, blind) depth 12

  ensure_mysql_config_map-Keeps : Keeps Q (ensure_mysql_config_map services)
  unfolding ensure_mysql_config_map
  ensure_mysql_config_map-Keeps = search (keeps_rules, blind) depth 12

  ensure_job-Keeps : Keeps Q (ensure_job services)
  unfolding ensure_job
  ensure_job-Keeps = search (keeps_rules, blind) depth 12

  sets-Keeps : Keeps Q (ensure_stateful_set services)
  sets-Keeps = ensure_stateful_set-Keeps services claims dirs (λ ns ss s h. blind s _ h)

  cluster_sets-Keeps : Keeps Q (ensure_stateful_set_cluster services)
  cluster_sets-Keeps =
      ensure_stateful_set_cluster-Keeps services claims dirs (λ ns ss s h. blind s _ h)

  ensure_config_map-Keeps : Keeps Q (ensure_config_map services)
  unfolding ensure_config_map
  ensure_config_map-Keeps = search (keeps_rules, blind, digests) depth 9

  ensure_database-Keeps : (n : Nacos) → Keeps Q (ensure_database services n)
  ensure_database-Keeps n = search (keeps_rules, ensure_mysql_config_map-Keeps, ensure_job-Keeps)

  pub make_ensure-Keeps : Keeps Q (make_ensure services)
  unfolding make_ensure
  make_ensure-Keeps =
      search
        (
          keeps_rules, ensure_config_map-Keeps, sets-Keeps, ensure_service-Keeps,
          ensure_client_service-Keeps, cluster_sets-Keeps, ensure_headless_service_cluster-Keeps,
          ensure_database-Keeps,
        )
        depth 12
