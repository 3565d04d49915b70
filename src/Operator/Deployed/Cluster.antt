-- ===== src/Operator/Deployed/Cluster.antt =====
-- MakeEnsure of a cluster whose configuration is managed: what the API server holds afterwards.
use nacos_operator.Prelude.{◌≡◌, refl, sym, ◌∙◌, true, false, ◌==◌, ◌+++◌}
use nacos_operator.Go.{done}
use nacos_operator.K8s.Laws.{KubeLaws}
use nacos_operator.Kind.{manages_config, final_config_name}
use nacos_operator.Operator.Services.{Services, State}
use nacos_operator.Operator.Steps.{make_ensure, ensure_cluster}
use nacos_operator.Operator.Owned.{KeepsName}
use nacos_operator.Operator.Deployed.Defs.{validated, IsDeployed}
use nacos_operator.Operator.Deployed.Ended.{cluster-Ended}
use nacos_operator.Operator.Deployed.Assembled.{cluster-IsDeployed}

module _ {W : Type 0} (services : Services W) where
  make_ensure-cluster :
      (s : State W)
      → (validated s.nacos).spec.type ≡ "cluster"
      → make_ensure services s
        ≡ ensure_cluster services (validated s.nacos) (record s { nacos = validated s.nacos })
  unfolding make_ensure
  make_ensure-cluster s typed = rw typed refl

  -- If the step ends, for a resource that is a cluster once it is validated and that refers to a
  -- configuration, then the server holds, in its namespace, under the final name the one file that
  -- merges the internal and the user's content as they were read before the step, and the headless
  -- service and the client service as they are built from the validated resource, each with its
  -- ports, selector and type, where an empty type is `ClusterIP`; the digest in the status is the one
  -- of that file. This is for a server in which a successful create or update stores the contents of
  -- a config map and the ports, the selector and the type of a service as they are sent, an empty
  -- type as `ClusterIP`, and a request changes no object of another kind or name, an owner reference
  -- that keeps the name of an object, and a final name that is not the name of the config map of the
  -- database script.
  pub make_ensure-IsDeployed :
      KubeLaws services.api
      → KeepsName services
      → (s s' : State W) → (validated s.nacos).spec.type ≡ "cluster"
      → manages_config (validated s.nacos) ≡ true
      → (s.nacos.name +++ "-mysql-sql-init" == final_config_name (validated s.nacos)) ≡ false
      → make_ensure services s ≡ (done tt, s')
      → IsDeployed services (validated s.nacos) s.world s'
  make_ensure-IsDeployed laws keeps_name s s' typed managed other h =
      let s0 = record s { nacos = validated s.nacos } in
      cluster-IsDeployed services laws keeps_name s0 s'
        (cluster-Ended services (validated s.nacos) s0 s' (sym (make_ensure-cluster s typed) ∙ h))
        managed other
