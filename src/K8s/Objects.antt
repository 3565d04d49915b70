-- ===== src/K8s/Objects.antt =====
-- configmap.go, service.go and job.go: the operations that are made of several requests.
use nacos_operator.Prelude.{String, Option, none, some}
use nacos_operator.Go.{KubeError, not_found, failure, Reply, ok, fail}
use nacos_operator.Types.{ConfigMap, Service, Job}
use nacos_operator.K8s.Interface.{ResourceApi}
use nacos_operator.K8s.Requests.{
  get_config_map, create_config_map, update_config_map, get_service, create_service, update_service,
  get_job, create_job,
}

module _ {W : Type 0} where
  -- `if errors.IsNotFound(err) { return create } return err`
  abbrev pub create_absent : (W → Option KubeError × W) → KubeError → W → Option KubeError × W
  create_absent create (not_found _) w = create w
  create_absent create (failure text) w = (some (failure text), w)

  -- The branches on the answer of an update, and of a get.
  abbrev pub after_update : (W → Option KubeError × W) → Option KubeError × W → Option KubeError × W
  after_update create (none, w) = (none, w)
  after_update create (some e, w) = create_absent create e w

  abbrev pub after_get :
      {R : Type 0}
      → (W → Option KubeError × W)
      → (R → W → Option KubeError × W)
      → Reply R
      → W
      → Option KubeError × W
  after_get create found (ok stored) w = found stored w
  after_get create found (fail e) w = create_absent create e w

module _ {W : Type 0} (api : ResourceApi W ConfigMap) (namespace : String)
    (config_map : ConfigMap) where
  -- The update comes first; an object that is not there is created.
  unfoldable pub create_if_not_exists_config_map : W → Option KubeError × W
  create_if_not_exists_config_map w =
      after_update (create_config_map api namespace config_map)
        (update_config_map api namespace config_map w)

  unfoldable pub create_or_update_config_map : W → Option KubeError × W
  create_or_update_config_map w =
      after_get (create_config_map api namespace config_map)
        (λ stored. update_config_map api namespace (record config_map {
          meta = record config_map.meta { resource_version = stored.meta.resource_version };
        }))
        (get_config_map api namespace config_map.meta.name w) w

module _ {W : Type 0} (api : ResourceApi W Service) (namespace : String) (service : Service) where
  unfoldable pub create_if_not_exists_service : W → Option KubeError × W
  create_if_not_exists_service w =
      after_get (create_service api namespace service) (λ stored v. (none, v))
        (get_service api namespace service.meta.name w) w

  -- The resource version and the cluster IP are the stored ones.
  unfoldable pub create_or_update_service : W → Option KubeError × W
  create_or_update_service w =
      after_get (create_service api namespace service)
        (λ stored. update_service api namespace (record {
          meta = record service.meta { resource_version = stored.meta.resource_version };
          spec = record service.spec { cluster_ip = stored.spec.cluster_ip };
        }))
        (get_service api namespace service.meta.name w) w

module _ {W : Type 0} (api : ResourceApi W Job) (namespace : String) (job : Job) where
  unfoldable pub create_if_not_exists_job : W → Option KubeError × W
  create_if_not_exists_job w =
      after_get (create_job api namespace job) (λ stored v. (none, v))
        (get_job api namespace job.meta.name w) w
