-- ===== src/Operator/Deployed/Ended.antt =====
-- The steps of MakeEnsure for a cluster, when they ended, and what the later ones keep.
use nacos_operator.Prelude.{String, ◌≡◌, sym, ap, ◌∙◌, Bool, true, false, ◌+++◌, eq-append}
use nacos_operator.Go.{Outcome, done, when, ◌>>◌}
use nacos_operator.Api.{Nacos}
use nacos_operator.K8s.Laws.{KubeLaws, OtherThan}
use nacos_operator.Kind.{
  compute_config_digest, checks_database, build_service, build_client_service,
  build_headless_service_cluster, generate_client_svc_name, generate_headless_svc_name,
}
use nacos_operator.Operator.Services.{Services, State}
use nacos_operator.Operator.Ensure.{
  ensure_config_map, ensure_stateful_set_cluster, ensure_headless_service_cluster,
  ensure_client_service, ensure_mysql_config_map, ensure_job,
}
use nacos_operator.Operator.Steps.{ensure_cluster, ensure_database}
use nacos_operator.Operator.Inversion.{continue-done}
use nacos_operator.Operator.Owned.{KeepsName}
use nacos_operator.Operator.Configured.{digested}
use nacos_operator.Operator.Deployed.Kept.{
  reading_kept, stateful_set-Reads, headless-Reads, client-Reads, job-Reads, database-Reads,
}
use nacos_operator.Operator.Deployed.Others.{script-reads}
use nacos_operator.Operator.Deployed.Defs.{
  headless_of, client_of, facts, facts_with, stateful_set-facts, digested-facts,
}

module _ {W : Type 0} (services : Services W) where
  -- The steps of a cluster that ended, one after the other.
  pub record Ended (n : Nacos) (s0 s' : State W) : Type 0 where
    pub s1 : State W
    pub s2 : State W
    pub s3 : State W
    pub s4 : State W
    pub configured : ensure_config_map services s0 ≡ (done tt, s1)
    pub stored : ensure_stateful_set_cluster services s1 ≡ (done tt, s2)
    pub served : ensure_headless_service_cluster services s2 ≡ (done tt, s3)
    pub entered : ensure_client_service services s3 ≡ (done tt, s4)
    pub imported : ensure_database services n s4 ≡ (done tt, s')

  pub cluster-Ended :
      (n : Nacos) (s s' : State W) → ensure_cluster services n s ≡ (done tt, s') → Ended n s s'
  cluster-Ended n s s' h =
      let (_, s1, e1, h1) = continue-done (ensure_config_map services s) _ tt s' h in
      let (_, s2, e2, h2) = continue-done (ensure_stateful_set_cluster services s1) _ tt s' h1 in
      let (_, s3, e3, h3) =
        continue-done (ensure_headless_service_cluster services s2) _ tt s' h2 in
      let (_, s4, e4, h4) = continue-done (ensure_client_service services s3) _ tt s' h3 in
      record {
        s1 = s1;
        s2 = s2;
        s3 = s3;
        s4 = s4;
        configured = e1;
        stored = e2;
        served = e3;
        entered = e4;
        imported = h4;
      }

  -- The client's name is not the headless one.
  pub client-OtherThan :
      (n : Nacos) → OtherThan (headless_of services n).meta.name (client_of services n).meta.name
  unfolding build_client_service build_headless_service_cluster build_service
      generate_client_svc_name generate_headless_svc_name
  client-OtherThan n = eq-append n.name "-client" "-headless"

  -- The two services and the digest are the ones of the resource before the stateful set.
  pub same_facts :
      (n : Nacos) (content : String) (s0 s' : State W) (steps : Ended n s0 s')
      → steps.s1.nacos ≡ digested services n content
      → facts services steps.s2.nacos
        ≡ facts_with services (compute_config_digest services.sha256_hex content) n
  same_facts n content s0 s' steps same =
      stateful_set-facts services steps.s1 steps.s2 steps.stored
      ∙ ap (facts services) same
      ∙ digested-facts services n content

  module _ (laws : KubeLaws services.api) (keeps_name : KeepsName services) (ns : String) where
    -- The import of the script leaves a config map of another name.
    imported_file :
        (fin : String) (b : Bool) (s s' : State W)
        → OtherThan fin (s.nacos.name +++ "-mysql-sql-init")
        → when b (do ensure_mysql_config_map services; ensure_job services) s ≡ (done tt, s')
        → services.api.config_maps.get ns fin s'.world ≡ services.api.config_maps.get ns fin s.world
    imported_file fin false s s' other h =
        ap (λ (r : Outcome Unit × State W). services.api.config_maps.get ns fin r.1.world) (sym h)
    imported_file fin true s s' other h =
        let (_, s1, e1, h1) = continue-done (ensure_mysql_config_map services s) _ tt s' h in
        reading_kept services (services.api.config_maps.get ns fin) (ensure_job services)
          (λ a. job-Reads services _ a (laws.config_map_by_jobs ns fin)) s1 s' tt h1
        ∙ script-reads services keeps_name fin (laws.config_map_by_others ns fin) s s1 other e1

    pub file_kept :
        (fin : String) (n : Nacos) (s0 s' : State W) (steps : Ended n s0 s')
        → OtherThan fin (steps.s4.nacos.name +++ "-mysql-sql-init")
        → services.api.config_maps.get ns fin s'.world
          ≡ services.api.config_maps.get ns fin steps.s1.world
    file_kept fin n s0 s' steps other =
        let read = services.api.config_maps.get ns fin in
        imported_file fin (checks_database n.spec) steps.s4 s' other steps.imported
        ∙ reading_kept services read (ensure_client_service services)
            (λ a. client-Reads services read a (laws.config_map_by_services ns fin)) steps.s3
            steps.s4 tt steps.entered
        ∙ reading_kept services read (ensure_headless_service_cluster services)
            (λ a. headless-Reads services read a (laws.config_map_by_services ns fin)) steps.s2
            steps.s3 tt steps.served
        ∙ reading_kept services read (ensure_stateful_set_cluster services)
            (λ a. stateful_set-Reads services read a (laws.config_map_by_stateful_sets ns fin))
            steps.s1 steps.s2 tt steps.stored

    pub service_kept :
        (name : String) (n : Nacos) (s s' : State W)
        → ensure_database services n s ≡ (done tt, s')
        → services.api.services.get ns name s'.world ≡ services.api.services.get ns name s.world
    service_kept name n s s' h =
        reading_kept services (services.api.services.get ns name) (ensure_database services n)
          (λ a.
            database-Reads services _ a (laws.service_by_jobs ns name)
              (laws.service_by_config_maps ns name) n)
          s s' tt h
