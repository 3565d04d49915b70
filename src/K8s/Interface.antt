-- ===== src/K8s/Interface.antt =====
-- The API server, which the repository only calls: its state is a type `W`, a read answers from
-- the state, and a write answers with an error or none and leaves a new state. `ApiLaws` is what
-- the documented API promises of the requests that succeed and of those that fail.
use nacos_operator.Prelude.{String, ◌≡◌, Option, none, List}
use nacos_operator.Go.{KubeError, Reply, ok}
use nacos_operator.Types.{ConfigMap, Service, StatefulSet, Job, Pod}

pub record ResourceApi (W R : Type 0) : Type 0 where
  -- namespace, then name
  pub get : String → String → W → Reply R
  pub create : String → R → W → Option KubeError × W
  pub update : String → R → W → Option KubeError × W
  pub delete : String → String → W → Option KubeError × W
  -- all of a namespace
  pub list : String → W → Reply (List R)

-- The object's name, and the content that a client decides (not the resource version, say).
pub record ApiLaws {W R C : Type 0} (api : ResourceApi W R) (name : R → String) (content : R → C)
    : Type 0 where
  pub create_stores :
      (ns : String) (r : R) (w w' : W)
      → api.create ns r w ≡ (none, w')
      → (stored : R) × (api.get ns (name r) w' ≡ ok stored) × (content stored ≡ content r)
  pub update_stores :
      (ns : String) (r : R) (w w' : W)
      → api.update ns r w ≡ (none, w')
      → (stored : R) × (api.get ns (name r) w' ≡ ok stored) × (content stored ≡ content r)

-- The four kinds of object, and the pods that a label selector picks, in one server.
pub record KubeApi (W : Type 0) : Type 0 where
  pub config_maps : ResourceApi W ConfigMap
  pub services : ResourceApi W Service
  pub stateful_sets : ResourceApi W StatefulSet
  pub jobs : ResourceApi W Job
  pub list_pods : String → String → W → Reply (List Pod)
