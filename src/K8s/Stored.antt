-- ===== src/K8s/Stored.antt =====
-- What the composite operations leave in the API server.
use nacos_operator.Prelude.{String, ◌≡◌, refl, Option, none, some, List, ◌==◌, if◌then◌else◌}
use nacos_operator.GoMap.{GoMap}
use nacos_operator.Go.{KubeError, not_found, failure, Reply, ok, fail}
use nacos_operator.Types.{ConfigMap, Service, ServicePort, Job}
use nacos_operator.K8s.Interface.{ResourceApi, ApiLaws}
use nacos_operator.K8s.Objects.{
  create_if_not_exists_config_map, create_or_update_config_map, create_if_not_exists_service,
  create_or_update_service, create_if_not_exists_job, create_absent, after_update, after_get,
}

-- The object that is stored under a name afterwards has the wanted content.
abbrev pub Stores : {W R C : Type 0} → ResourceApi W R → (R → C) → String → String → C → W → Type 0
Stores {R = R} api content ns name wanted w =
    (stored : R) × (api.get ns name w ≡ ok stored) × (content stored ≡ wanted)

abbrev pub config_map_name : ConfigMap → String
config_map_name c = c.meta.name

abbrev pub config_map_contents : ConfigMap → GoMap String
config_map_contents c = c.contents

module _ {W R C : Type 0} {api : ResourceApi W R} {name : R → String} {content : R → C}
    (laws : ApiLaws api name content) (ns : String) (r : R) (w' : W) where
  absent-Stores :
      (e : KubeError) (w : W)
      → create_absent (api.create ns r) e w ≡ (none, w')
      → Stores api content ns (name r) (content r) w'
  absent-Stores (not_found _) w h = laws.create_stores ns r w w' h
  absent-Stores (failure text) w h = cc

  after_get-Stores :
      (found : R → W → Option KubeError × W)
      → ((stored : R) (v : W)
          → found stored v ≡ (none, w')
          → Stores api content ns (name r) (content r) w')
      → (answer : Reply R) (w : W) → after_get (api.create ns r) found answer w ≡ (none, w')
      → Stores api content ns (name r) (content r) w'
  after_get-Stores found f (ok stored) w h = f stored w h
  after_get-Stores found f (fail e) w h = absent-Stores e w h

  after_update-Stores :
      (w : W) (answer : Option KubeError × W)
      → api.update ns r w ≡ answer
      → after_update (api.create ns r) answer ≡ (none, w')
      → Stores api content ns (name r) (content r) w'
  after_update-Stores w (none, v) u h = laws.update_stores ns r w w' (cc)
  after_update-Stores w (some e, v) u h = absent-Stores e v h

module _ {W : Type 0} (api : ResourceApi W ConfigMap)
    (laws : ApiLaws api config_map_name config_map_contents) (ns : String) (cm : ConfigMap)
    (w w' : W) where
  -- If the call returns no error, the config map of that name is then stored with the wanted
  -- contents, given a server in which a successful create or update stores what it is sent.
  pub create_or_update_config_map-Stores :
      create_or_update_config_map api ns cm w ≡ (none, w')
      → Stores api config_map_contents ns cm.meta.name cm.contents w'
  unfolding create_or_update_config_map
  create_or_update_config_map-Stores =
      after_get-Stores laws ns cm w' _
        (λ stored v h.
          laws.update_stores ns
            (record cm {
              meta = record cm.meta { resource_version = stored.meta.resource_version };
            })
            v w' h)
        (api.get ns cm.meta.name w) w

  -- If the call returns no error, the config map of that name is then stored with the given
  -- contents, also if it existed before with others, given a server in which a successful create
  -- or update stores what it is sent.
  pub create_if_not_exists_config_map-Stores :
      create_if_not_exists_config_map api ns cm w ≡ (none, w')
      → Stores api config_map_contents ns cm.meta.name cm.contents w'
  unfolding create_if_not_exists_config_map
  create_if_not_exists_config_map-Stores =
      after_update-Stores laws ns cm w' w (api.update ns cm w) refl

-- The type that the API server gives a service: an empty one is `ClusterIP`.
abbrev pub served_type : String → String
served_type type = if type == "" then "ClusterIP" else type

-- What a client decides of a service, but for the cluster IP. An empty type, which the server fills
-- in, is read as the type that it is filled in with.
abbrev pub service_content : Service → List ServicePort × GoMap String × String
service_content s = (s.spec.ports, s.spec.selector, served_type s.spec.type)

abbrev pub service_name : Service → String
service_name s = s.meta.name

module _ {W : Type 0} (api : ResourceApi W Service)
    (laws : ApiLaws api service_name service_content) (ns : String) (s : Service) (w w' : W) where
  -- If the call returns no error, the service of that name is then stored with the wanted ports,
  -- selector and type, where an empty type is `ClusterIP`, given a server in which a successful
  -- create or update stores these as they are sent, and an empty type as `ClusterIP`.
  pub create_or_update_service-Stores :
      create_or_update_service api ns s w ≡ (none, w')
      → Stores api service_content ns s.meta.name (service_content s) w'
  unfolding create_or_update_service
  create_or_update_service-Stores =
      after_get-Stores laws ns s w' _
        (λ stored v h.
          laws.update_stores ns
            (record {
              meta = record s.meta { resource_version = stored.meta.resource_version };
              spec = record s.spec { cluster_ip = stored.spec.cluster_ip };
            })
            v w' h)
        (api.get ns s.meta.name w) w

-- An object that is there already is left as it is.
pub create_if_not_exists-keeps :
    {W : Type 0} (services : ResourceApi W Service) (jobs : ResourceApi W Job) (ns : String)
    (s old : Service) (j old_job : Job) (w : W)
    → services.get ns s.meta.name w ≡ ok old
    → jobs.get ns j.meta.name w ≡ ok old_job
    → (create_if_not_exists_service services ns s w ≡ (none, w))
      × (create_if_not_exists_job jobs ns j w ≡ (none, w))
unfolding create_if_not_exists_service create_if_not_exists_job
create_if_not_exists-keeps services jobs ns s old j old_job w h k = (rw h refl, rw k refl)
