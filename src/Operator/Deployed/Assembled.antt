-- ===== src/Operator/Deployed/Assembled.antt =====
-- The objects after the last of these steps, each as it was stored by its own.
use nacos_operator.Prelude.{String, ◌≡◌, refl, sym, ap, subst, ◌∙◌, true, ◌+++◌}
use nacos_operator.Go.{Outcome}
use nacos_operator.Types.{Service}
use nacos_operator.Api.{Nacos}
use nacos_operator.K8s.Stored.{Stores, service_content}
use nacos_operator.K8s.Laws.{KubeLaws, OtherThan}
use nacos_operator.Kind.{manages_config, merged_content, final_config_name, compute_config_digest}
use nacos_operator.Operator.Services.{Services, State}
use nacos_operator.Operator.Owned.{KeepsName}
use nacos_operator.Operator.Configured.{digested, ensure_config_map-IsConfigured}
use nacos_operator.Operator.Served.{
  IsServed, client, headless, built_client, built_headless, ensured-IsServed,
}
use nacos_operator.Operator.Deployed.Kept.{database-IsResource}
use nacos_operator.Operator.Deployed.Others.{client-reads}
use nacos_operator.Operator.Deployed.Defs.{
  IsDeployed, Facts, facts, facts_with, headless_of, client_of,
}
use nacos_operator.Operator.Deployed.Ended.{
  Ended, client-OtherThan, same_facts, file_kept, service_kept,
}

module _ {W : Type 0} (services : Services W) where
  module _ (laws : KubeLaws services.api) (keeps_name : KeepsName services) (s0 s' : State W)
      (steps : Ended services s0.nacos s0 s') where
    abbrev n : Nacos
    n = s0.nacos

    abbrev ServiceAt : (Facts → Service) → W → Facts → Type 0
    ServiceAt which w f =
        Stores services.api.services service_content f.2 (which f).meta.name
          (service_content (which f)) w

    module _ (content : String) (same : steps.s1.nacos ≡ digested services n content) where
      abbrev digest_of : String
      digest_of = compute_config_digest services.sha256_hex content

      facts2 : facts services steps.s2.nacos ≡ facts_with services digest_of n
      facts2 = same_facts services n content s0 s' steps same

      headless-IsServed : IsServed services (built_headless services steps.s2) steps.s2 steps.s3
      headless-IsServed = ensured-IsServed services laws.services keeps_name (headless steps.served)

      facts3 : facts services steps.s3.nacos ≡ facts_with services digest_of n
      facts3 = ap (facts services) headless-IsServed.1 ∙ facts2

      client-IsServed : IsServed services (built_client services steps.s3) steps.s3 steps.s4
      client-IsServed = ensured-IsServed services laws.services keeps_name (client steps.entered)

      facts4 : facts services steps.s4.nacos ≡ facts_with services digest_of n
      facts4 = ap (facts services) client-IsServed.1 ∙ facts3

      headless_stored : ServiceAt (λ f. f.1) s'.world (facts_with services digest_of n)
      headless_stored =
          let (stored, found, content_same) =
            subst (ServiceAt (λ f. f.1) steps.s3.world) facts2 headless-IsServed.0 in
          (
            stored,
            service_kept services laws keeps_name n.namespace (headless_of services n).meta.name n
                  steps.s4 s' steps.imported
                ∙ client-reads services keeps_name (headless_of services n).meta.name
                    (laws.service_by_others n.namespace (headless_of services n).meta.name) steps.s3
                    steps.s4
                    (subst
                      (λ (f : Facts). OtherThan (headless_of services n).meta.name f.0.meta.name)
                      (sym facts3) (client-OtherThan services n))
                    steps.entered
                ∙ found,
            content_same,
          )

      client_stored : ServiceAt (λ f. f.0) s'.world (facts_with services digest_of n)
      client_stored =
          let (stored, found, content_same) =
            subst (ServiceAt (λ f. f.0) steps.s4.world) facts3 client-IsServed.0 in
          (
            stored,
            service_kept services laws keeps_name n.namespace (client_of services n).meta.name n
                  steps.s4 s' steps.imported
                ∙ found,
            content_same,
          )

    pub cluster-IsDeployed :
        manages_config n ≡ true
        → OtherThan (final_config_name n) (n.name +++ "-mysql-sql-init")
        → IsDeployed services n s0.world s'
    cluster-IsDeployed managed other =
        let (internal, user, r1, r2, (stored, found, content_same), same) =
          ensure_config_map-IsConfigured services laws.config_maps keeps_name s0 steps.s1 managed
            steps.configured in
        let content = merged_content internal user in
        record {
          internal = internal;
          user = user;
          reads_internal = r1;
          reads_user = r2;
          file = (
            stored,
            file_kept services laws keeps_name n.namespace (final_config_name n) n s0 s' steps (
                  subst (λ (f : Facts). OtherThan (final_config_name n) (f.3 +++ "-mysql-sql-init"))
                    (sym (facts4 content same)) other)
                ∙ found,
            content_same,
          );
          members = headless_stored content same;
          entry = client_stored content same;
          digest =
              ap (λ (r : Outcome Unit × State W). r.1.nacos.status.config_digest)
                (sym steps.imported)
              ∙ ap (λ (x : Nacos). x.status.config_digest)
                  ((database-IsResource services steps.s4.nacos n).at steps.s4 refl)
              ∙ ap (λ (f : Facts). f.4) (facts4 content same);
        }
