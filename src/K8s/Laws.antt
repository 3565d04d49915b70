-- ===== src/K8s/Laws.antt =====
-- What the documentation of the API server promises of the four kinds of object together: a
-- successful write stores, and a request is about one object of one kind.
use nacos_operator.Prelude.{String, ◌≡◌, false, ◌==◌}
use nacos_operator.Types.{StatefulSet, Job}
use nacos_operator.K8s.Interface.{KubeApi, ApiLaws}
use nacos_operator.K8s.Stored.{config_map_name, config_map_contents, service_name, service_content}
use nacos_operator.K8s.Untouched.{Untouched}

abbrev pub stateful_set_name : StatefulSet → String
stateful_set_name ss = ss.meta.name

abbrev pub job_name : Job → String
job_name job = job.meta.name

abbrev pub Anything : String → Type 0
Anything name = Unit {0}

abbrev pub OtherThan : String → String → Type 0
OtherThan n name = (name == n) ≡ false

pub record KubeLaws {W : Type 0} (api : KubeApi W) : Type 0 where
  pub config_maps : ApiLaws api.config_maps config_map_name config_map_contents
  -- An empty type of a service is stored as `ClusterIP`.
  pub services : ApiLaws api.services service_name service_content
  -- A request about another kind, or another name, leaves the config map `n` as it is.
  pub config_map_by_services :
      (ns n : String) → Untouched api.services service_name Anything (api.config_maps.get ns n)
  pub config_map_by_stateful_sets :
      (ns n : String)
      → Untouched api.stateful_sets stateful_set_name Anything (api.config_maps.get ns n)
  pub config_map_by_jobs :
      (ns n : String) → Untouched api.jobs job_name Anything (api.config_maps.get ns n)
  pub config_map_by_others :
      (ns n : String)
      → Untouched api.config_maps config_map_name (OtherThan n) (api.config_maps.get ns n)
  -- The same for a service.
  pub service_by_config_maps :
      (ns n : String) → Untouched api.config_maps config_map_name Anything (api.services.get ns n)
  pub service_by_stateful_sets :
      (ns n : String)
      → Untouched api.stateful_sets stateful_set_name Anything (api.services.get ns n)
  pub service_by_jobs :
      (ns n : String) → Untouched api.jobs job_name Anything (api.services.get ns n)
  pub service_by_others :
      (ns n : String) → Untouched api.services service_name (OtherThan n) (api.services.get ns n)
