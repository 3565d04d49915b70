-- ===== src/Api/Wrapper.antt =====
-- PodSpecWrapper of api/v1alpha1/nacos_types.go, and the wrappers of pkg/util/merge/api: a value of
-- the Kubernetes API whose JSON stands for that of the field that holds it.
use nacos_operator.Prelude.{String, Option}
use nacos_operator.Go.{KubeError, Reply}
use nacos_operator.Types.{PodSpec, StatefulSetSpec, DeploymentSpec}

-- encoding/json on one type: a value is decoded onto one that is there already.
pub record Json (A : Type 0) : Type 0 where
  pub marshal : A → Reply String
  pub unmarshal : String → A → Option KubeError × A

pub record PodSpecWrapper : Type 0 where
  pub spec : PodSpec

pub record StatefulSetSpecWrapper : Type 0 where
  pub spec : StatefulSetSpec

pub record DeploymentSpecWrapper : Type 0 where
  pub spec : DeploymentSpec

module _ (json : Json PodSpec) (m : PodSpecWrapper) where
  unfoldable pub marshal_pod_spec : Reply String
  marshal_pod_spec = json.marshal m.spec

  unfoldable pub unmarshal_pod_spec : String → Option KubeError × PodSpecWrapper
  unmarshal_pod_spec text =
      let (e, spec) = json.unmarshal text m.spec in (e, record m { spec = spec })

module _ (json : Json StatefulSetSpec) (m : StatefulSetSpecWrapper) where
  unfoldable pub marshal_stateful_set_spec : Reply String
  marshal_stateful_set_spec = json.marshal m.spec

  unfoldable pub unmarshal_stateful_set_spec : String → Option KubeError × StatefulSetSpecWrapper
  unmarshal_stateful_set_spec text =
      let (e, spec) = json.unmarshal text m.spec in (e, record m { spec = spec })

module _ (json : Json DeploymentSpec) (m : DeploymentSpecWrapper) where
  unfoldable pub marshal_deployment_spec : Reply String
  marshal_deployment_spec = json.marshal m.spec

  unfoldable pub unmarshal_deployment_spec : String → Option KubeError × DeploymentSpecWrapper
  unmarshal_deployment_spec text =
      let (e, spec) = json.unmarshal text m.spec in (e, record m { spec = spec })

-- Both copies hold the specification itself, so they share what it points to.
unfoldable pub copy_stateful_set_spec : StatefulSetSpecWrapper → StatefulSetSpecWrapper
copy_stateful_set_spec m = record { spec = m.spec }

unfoldable pub copy_deployment_spec : DeploymentSpecWrapper → DeploymentSpecWrapper
copy_deployment_spec m = record { spec = m.spec }
