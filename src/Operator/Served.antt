-- ===== src/Operator/Served.antt =====
-- What the Ensure operations of services leave in the API server.
use nacos_operator.Prelude.{String, ◌≡◌, refl, ap, subst, ◌∙◌, Option}
use nacos_operator.Go.{KubeError, done, ◌>>=◌}
use nacos_operator.Types.{ObjectMeta, Service}
use nacos_operator.K8s.Interface.{ApiLaws}
use nacos_operator.K8s.{create_or_update_service}
use nacos_operator.K8s.Stored.{
  Stores, service_name, service_content, create_or_update_service-Stores,
}
use nacos_operator.Kind.{build_service, build_client_service, build_headless_service_cluster}
use nacos_operator.Operator.Services.{Services, State}
use nacos_operator.Operator.Ensure.{
  ensure_service_cluster, ensure_client_service, ensure_headless_service_cluster, own_service,
  ensured,
}
use nacos_operator.Operator.Owned.{KeepsName, ensured-done, owned_service-done}
use nacos_operator.Operator.Inversion.{continue-done}

module _ {W : Type 0} (services : Services W) where
  -- The service `wanted` is stored under its name, and the resource is as it was.
  abbrev pub IsServed : Service → State W → State W → Type 0
  IsServed wanted s s' =
      Stores services.api.services service_content s.nacos.namespace wanted.meta.name
        (service_content wanted) s'.world
      × (s'.nacos ≡ s.nacos)

  abbrev pub built : State W → Service
  built s = build_service services.order s.nacos

  abbrev pub built_client : State W → Service
  built_client s = build_client_service services.order s.nacos

  abbrev pub built_headless : State W → Service
  built_headless s = build_headless_service_cluster (built s) s.nacos

  -- The three operations that store a service whatever was stored, each with the service it builds.
  pub data ServiceEnsured : Service → State W → State W → Type 0 where
    member :
        {s s' : State W}
        → ensure_service_cluster services s ≡ (done tt, s')
        → ServiceEnsured (built s) s s'
    client :
        {s s' : State W}
        → ensure_client_service services s ≡ (done tt, s')
        → ServiceEnsured (built_client s) s s'
    headless :
        {s s' : State W}
        → ensure_headless_service_cluster services s ≡ (done tt, s')
        → ServiceEnsured (built_headless s) s s'

  module _ (laws : ApiLaws services.api.services service_name service_content)
      (keeps_name : KeepsName services) where
    abbrev store : State W → Service → W → Option KubeError × W
    store s svc = create_or_update_service services.api.services s.nacos.namespace svc

    -- Own the service, change it by `f`, which looks at the content alone, and store it.
    own-IsServed :
        (b wanted : Service) (f : Service → Service) (s s' : State W)
        → ((meta : ObjectMeta)
            → meta.name ≡ b.meta.name
            → (service_name (f (record b { meta = meta })) ≡ service_name wanted)
              × (service_content (f (record b { meta = meta })) ≡ service_content wanted))
        → (own_service services s.nacos b >>= λ svc.
              ensured services
                (create_or_update_service services.api.services s.nacos.namespace (f svc)))
            s
          ≡ (done tt, s')
        → IsServed wanted s s'
    own-IsServed b wanted f s s' same h =
        let (svc, s1, e1, h1) = continue-done (own_service services s.nacos b s) _ tt s' h in
        let (meta, named, e, kept) = owned_service-done services keeps_name s.nacos b svc s s1 e1 in
        let (e_name, e_content) = same meta named in
        let (written, left) = ensured-done services (store s (f svc)) s1 s' tt h1 in
        let found =
          create_or_update_service-Stores services.api.services laws s.nacos.namespace (f svc)
            s1.world s'.world written in
        (
          subst
              (λ (n : String).
                Stores services.api.services service_content s.nacos.namespace n
                  (service_content wanted) s'.world)
              (ap (λ (x : Service). service_name (f x)) e ∙ e_name)
              (
                found.0,
                found.1,
                found.2 ∙ ap (λ (x : Service). service_content (f x)) e ∙ e_content,
              ),
          left ∙ ap (λ (x : State W). x.nacos) kept,
        )

    -- If one of the three operations that store a service ends, the service that it builds is then
    -- stored with the ports, the selector and the type that were built, where an empty type is
    -- `ClusterIP`, under the name that was built, and the resource is as it was. This is for a
    -- server in which a successful create or update stores the ports, the selector and the type as
    -- they are sent, an empty type as `ClusterIP`, and an owner reference that keeps the name of an
    -- object.
    pub ensured-IsServed :
        {wanted : Service} {s s' : State W} → ServiceEnsured wanted s s' → IsServed wanted s s'
    unfolding ensure_service_cluster ensure_client_service ensure_headless_service_cluster
        build_headless_service_cluster
    ensured-IsServed {s = s} {s' = s'} (member h) =
        own-IsServed (built s) (built s) (λ svc. svc) s s' (λ meta e. (e, refl)) h
    ensured-IsServed {s = s} {s' = s'} (client h) =
        own-IsServed (built_client s) (built_client s) (λ svc. svc) s s' (λ meta e. (e, refl)) h
    ensured-IsServed {s = s} {s' = s'} (headless h) =
        own-IsServed (built s) (built_headless s)
          (λ svc. build_headless_service_cluster svc s.nacos) s s' (λ meta e. (refl, refl)) h
