-- ===== src/Operator/Deployed/Kept.antt =====
-- What each operation leaves of what the others have stored: a reading of the server that the
-- requests of its kinds leave alone.
use nacos_operator.Prelude.{String, ◌≡◌, refl, sym, ap, ◌∙◌}
use nacos_operator.Go.{Go, Outcome, done}
use nacos_operator.Types.{ConfigMap, Service, Job}
use nacos_operator.Api.{Nacos}
use nacos_operator.K8s.{
  create_or_update_service, create_if_not_exists_job, create_if_not_exists_config_map,
}
use nacos_operator.K8s.Stored.{config_map_name, service_name}
use nacos_operator.K8s.Untouched.{
  Untouched, create_or_update_stateful_set-read, create_or_update_service-read,
  create_if_not_exists_job-read, create_if_not_exists_config_map-read,
}
use nacos_operator.K8s.Laws.{Anything, stateful_set_name, job_name}
use nacos_operator.Operator.Services.{Services, State}
use nacos_operator.Operator.Ensure.{
  ensure_stateful_set_cluster, ensure_headless_service_cluster, ensure_client_service,
  ensure_mysql_config_map, ensure_job,
}
use nacos_operator.Operator.Steps.{ensure_database}
use nacos_operator.Operator.Keeps.{Keeps, keeps_rules}
use nacos_operator.Operator.Building.{ensure_stateful_set_cluster-Keeps}

module _ {W A : Type 0} (services : Services W) (read : W → A) (a : A) where
  -- `read` reads `a`.
  abbrev pub Reads : State W → Type 0
  Reads s = read s.world ≡ a

  pub stateful_set-Reads :
      Untouched services.api.stateful_sets stateful_set_name Anything read
      → Keeps Reads (ensure_stateful_set_cluster services)
  stateful_set-Reads law =
      ensure_stateful_set_cluster-Keeps services (λ s h. h) (λ s h. h)
        (λ ns ss s h.
          create_or_update_stateful_set-read services.marshal law (λ name. tt) ns ss s.world ∙ h)

  module _ (law : Untouched services.api.services service_name Anything read) where
    service_stored :
        (ns : String) (svc : Service) (s : State W)
        → Reads s
        → Reads
            (record s { world = (create_or_update_service services.api.services ns svc s.world).1 })
    service_stored ns svc s h = create_or_update_service-read law ns svc s.world tt ∙ h

    pub headless-Reads : Keeps Reads (ensure_headless_service_cluster services)
    unfolding ensure_headless_service_cluster
    headless-Reads = search (keeps_rules, service_stored) depth 12

    pub client-Reads : Keeps Reads (ensure_client_service services)
    unfolding ensure_client_service
    client-Reads = search (keeps_rules, service_stored) depth 12

  module _ (law : Untouched services.api.jobs job_name Anything read) where
    job_stored :
        (ns : String) (job : Job) (s : State W)
        → Reads s
        → Reads (record s { world = (create_if_not_exists_job services.api.jobs ns job s.world).1 })
    job_stored ns job s h = create_if_not_exists_job-read law ns job s.world tt ∙ h

    pub job-Reads : Keeps Reads (ensure_job services)
    unfolding ensure_job
    job-Reads = search (keeps_rules, job_stored) depth 12

    module _ (law_cm : Untouched services.api.config_maps config_map_name Anything read) where
      script_stored :
          (ns : String) (cm : ConfigMap) (s : State W)
          → Reads s
          → Reads (record s {
            world = (create_if_not_exists_config_map services.api.config_maps ns cm s.world).1;
          })
      script_stored ns cm s h = create_if_not_exists_config_map-read law_cm ns cm s.world tt ∙ h

      script-Reads : Keeps Reads (ensure_mysql_config_map services)
      unfolding ensure_mysql_config_map
      script-Reads = search (keeps_rules, script_stored) depth 12

      pub database-Reads : (n : Nacos) → Keeps Reads (ensure_database services n)
      database-Reads n = search (keeps_rules, script-Reads, job-Reads) depth 12

-- The database steps leave the resource as it is.
module _ {W : Type 0} (services : Services W) (n : Nacos) where
  abbrev IsResource : State W → Type 0
  IsResource s = s.nacos ≡ n

  script-IsResource : Keeps IsResource (ensure_mysql_config_map services)
  unfolding ensure_mysql_config_map
  script-IsResource = search keeps_rules depth 12

  job-IsResource : Keeps IsResource (ensure_job services)
  unfolding ensure_job
  job-IsResource = search keeps_rules depth 12

  pub script-resource :
      (s s' : State W)
      → ensure_mysql_config_map services s ≡ (done tt, s')
      → s.nacos ≡ n
      → s'.nacos ≡ n
  script-resource s s' h e =
      ap (λ (r : Outcome Unit × State W). r.1.nacos) (sym h) ∙ script-IsResource.at s e

  pub database-IsResource : (m : Nacos) → Keeps IsResource (ensure_database services m)
  database-IsResource m = search (keeps_rules, script-IsResource, job-IsResource) depth 12

-- An operation that keeps every reading keeps the one that was read before.
pub reading_kept :
    {W A B : Type 0} (services : Services W) (read : W → A) (m : Go (State W) B)
    → ((a : A) → Keeps (Reads services read a) m)
    → (s s' : State W) (b : B) → m s ≡ (done b, s')
    → read s'.world ≡ read s.world
reading_kept services read m km s s' b h =
    ap (λ (r : Outcome _ × State _). read r.1.world) (sym h) ∙ (km (read s.world)).at s refl
