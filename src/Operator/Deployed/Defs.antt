-- ===== src/Operator/Deployed/Defs.antt =====
-- The objects that MakeEnsure stores for a cluster whose configuration is managed, and what of the
-- resource they are built from.
use nacos_operator.Prelude.{String, ◌≡◌, refl, sym, ap, ◌∙◌, [], ◌∷◌}
use nacos_operator.Go.{Outcome, done}
use nacos_operator.Types.{Service}
use nacos_operator.Api.{Nacos}
use nacos_operator.K8s.Stored.{Stores, config_map_contents, service_content}
use nacos_operator.Kind.{
  validation_field, merged_content, final_config_name, compute_config_digest, build_service,
  build_client_service, build_headless_service_cluster,
}
use nacos_operator.Operator.Services.{Services, State}
use nacos_operator.Operator.Ensure.{ensure_stateful_set_cluster}
use nacos_operator.Operator.Building.{ensure_stateful_set_cluster-Keeps}
use nacos_operator.Operator.Configured.{internal_content, user_content, digested}

abbrev pub validated : Nacos → Nacos
validated nacos = record nacos { spec = validation_field nacos.spec }

-- What the later steps take from the resource, but for the stateful set.
abbrev pub Facts : Type 0
Facts = Service × Service × String × String × String

module _ {W : Type 0} (services : Services W) where
  abbrev pub client_of : Nacos → Service
  client_of n = build_client_service services.order n

  abbrev pub headless_of : Nacos → Service
  headless_of n = build_headless_service_cluster (build_service services.order n) n

  -- The namespace holds the merged file and the two services of the resource `n`, and the digest is
  -- the one of that file.
  pub record IsDeployed (n : Nacos) (w : W) (s' : State W) : Type 0 where
    pub internal : String
    pub user : String
    pub reads_internal : internal_content services.api.config_maps n w ≡ (done internal, w)
    pub reads_user : user_content services.api.config_maps n w ≡ (done user, w)
    pub file :
        Stores services.api.config_maps config_map_contents n.namespace
          (final_config_name n)
          (("application.properties", merged_content internal user) ∷ [])
          s'.world
    pub members :
        Stores services.api.services service_content n.namespace
          (headless_of n).meta.name
          (service_content (headless_of n))
          s'.world
    pub entry :
        Stores services.api.services service_content n.namespace
          (client_of n).meta.name
          (service_content (client_of n))
          s'.world
    pub digest :
        s'.nacos.status.config_digest
        ≡ compute_config_digest services.sha256_hex (merged_content internal user)

  abbrev pub facts : Nacos → Facts
  facts n = (client_of n, headless_of n, n.namespace, n.name, n.status.config_digest)

  abbrev pub facts_with : String → Nacos → Facts
  facts_with digest n = (client_of n, headless_of n, n.namespace, n.name, digest)

  pub stateful_set-facts :
      (s s' : State W)
      → ensure_stateful_set_cluster services s ≡ (done tt, s')
      → facts s'.nacos ≡ facts s.nacos
  unfolding build_service build_client_service build_headless_service_cluster
  stateful_set-facts s s' h =
      ap (λ (r : Outcome Unit × State W). facts r.1.nacos) (sym h)
      ∙ (ensure_stateful_set_cluster-Keeps services
            {Q = λ (x : State W). facts x.nacos ≡ facts s.nacos} (λ x e. e) (λ x e. e)
            (λ ns ss x e. e)).at
          s refl

  pub digested-facts :
      (n : Nacos) (content : String)
      → facts (digested services n content)
        ≡ facts_with (compute_config_digest services.sha256_hex content) n
  unfolding build_service build_client_service build_headless_service_cluster
  digested-facts n content = refl
