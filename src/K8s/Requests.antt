-- ===== src/K8s/Requests.antt =====
-- configmap.go, service.go, statefulset.go and job.go: the requests that pass on what the API
-- answers. The value of a `Create` or an `Update` is dropped; an error is returned as it is.
use nacos_operator.Prelude.{String, Option, List}
use nacos_operator.Go.{KubeError, Reply}
use nacos_operator.Types.{ConfigMap, Service, StatefulSet, Job}
use nacos_operator.K8s.Interface.{ResourceApi}

module _ {W : Type 0} (api : ResourceApi W ConfigMap) (namespace : String) where
  abbrev pub get_config_map : String → W → Reply ConfigMap
  get_config_map name = api.get namespace name

  abbrev pub create_config_map : ConfigMap → W → Option KubeError × W
  create_config_map config_map = api.create namespace config_map

  abbrev pub update_config_map : ConfigMap → W → Option KubeError × W
  update_config_map config_map = api.update namespace config_map

  abbrev pub delete_config_map : String → W → Option KubeError × W
  delete_config_map name = api.delete namespace name

  abbrev pub list_config_maps : W → Reply (List ConfigMap)
  list_config_maps = api.list namespace

module _ {W : Type 0} (api : ResourceApi W Service) (namespace : String) where
  abbrev pub get_service : String → W → Reply Service
  get_service name = api.get namespace name

  abbrev pub create_service : Service → W → Option KubeError × W
  create_service service = api.create namespace service

  abbrev pub update_service : Service → W → Option KubeError × W
  update_service service = api.update namespace service

  abbrev pub delete_service : String → W → Option KubeError × W
  delete_service name = api.delete namespace name

  abbrev pub list_services : W → Reply (List Service)
  list_services = api.list namespace

module _ {W : Type 0} (api : ResourceApi W StatefulSet) (namespace : String) where
  abbrev pub get_stateful_set : String → W → Reply StatefulSet
  get_stateful_set name = api.get namespace name

  abbrev pub create_stateful_set : StatefulSet → W → Option KubeError × W
  create_stateful_set stateful_set = api.create namespace stateful_set

  abbrev pub update_stateful_set : StatefulSet → W → Option KubeError × W
  update_stateful_set stateful_set = api.update namespace stateful_set

  abbrev pub delete_stateful_set : String → W → Option KubeError × W
  delete_stateful_set name = api.delete namespace name

  abbrev pub list_stateful_sets : W → Reply (List StatefulSet)
  list_stateful_sets = api.list namespace

module _ {W : Type 0} (api : ResourceApi W Job) (namespace : String) where
  abbrev pub get_job : String → W → Reply Job
  get_job name = api.get namespace name

  abbrev pub create_job : Job → W → Option KubeError × W
  create_job job = api.create namespace job
