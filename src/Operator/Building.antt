-- ===== src/Operator/Building.antt =====
-- What building and storing the stateful set leaves true, for any predicate on the state.
use nacos_operator.Prelude.{String, ◌≡◌, Option, arith}
use nacos_operator.Go.{Go}
use nacos_operator.Types.{StatefulSet}
use nacos_operator.Api.{Nacos, NacosSpec, Storage}
use nacos_operator.K8s.{create_or_update_stateful_set}
use nacos_operator.Kind.{
  build_env, storage_additions, build_stateful_set, build_stateful_set_cluster, nacos_servers,
}
use nacos_operator.Operator.Services.{Services, State}
use nacos_operator.Operator.Ensure.{
  ensure_stateful_set, ensure_stateful_set_cluster, share_claim, share_empty_dir,
}
use nacos_operator.Operator.Keeps.{Keeps, keeps_rules, Keeps-of_same}

module _ {W : Type 0} where
  storage_additions-same :
      (parse : String → Option String) (v : Storage) (s : State W)
      → (storage_additions parse v s).1 ≡ s
  unfolding storage_additions
  storage_additions-same parse v s = ground arith

module _ {W : Type 0} (services : Services W) {Q : State W → Type 0} where
  build_env-Keeps : (spec : NacosSpec) → Keeps Q (build_env spec)
  unfolding build_env
  build_env-Keeps spec = search keeps_rules

  storage_additions-Keeps :
      (parse : String → Option String) (v : Storage) → Keeps Q (storage_additions parse v)
  storage_additions-Keeps parse v = search (Keeps-of_same, storage_additions-same parse v)

  build_stateful_set-Keeps :
      (own : StatefulSet → Go (State W) StatefulSet) (n : Nacos)
      → ((ss : StatefulSet) → Keeps Q (own ss))
      → Keeps Q (build_stateful_set services.order services.parse_quantity own n)
  unfolding build_stateful_set
  build_stateful_set-Keeps own n ko =
      search (keeps_rules, build_env-Keeps, storage_additions-Keeps, ko) depth 9

  nacos_servers-Keeps : (n : Nacos) → Keeps Q (nacos_servers n)
  unfolding nacos_servers
  nacos_servers-Keeps n = search keeps_rules

  build_stateful_set_cluster-Keeps :
      (n : Nacos) (ss : StatefulSet) → Keeps Q (build_stateful_set_cluster n ss)
  unfolding build_stateful_set_cluster
  build_stateful_set_cluster-Keeps n ss = search (keeps_rules, nacos_servers-Keeps) depth 9

  -- The three writes: the two to the resource, and the stored stateful set.
  module _ (claims : (s : State W) → Q s → Q (record s { nacos = share_claim services s.nacos }))
      (dirs : (s : State W) → Q s → Q (record s { nacos = share_empty_dir services s.nacos }))
      (stores : (ns : String) (ss : StatefulSet) (s : State W)
        → Q s
        → Q (record s {
          world =
              (create_or_update_stateful_set services.marshal services.api.stateful_sets ns ss
                s.world).1;
        })) where
    pub ensure_stateful_set-Keeps : Keeps Q (ensure_stateful_set services)
    unfolding ensure_stateful_set
    ensure_stateful_set-Keeps =
        search (keeps_rules, build_stateful_set-Keeps, claims, dirs, stores) depth 12

    pub ensure_stateful_set_cluster-Keeps : Keeps Q (ensure_stateful_set_cluster services)
    unfolding ensure_stateful_set_cluster
    ensure_stateful_set_cluster-Keeps =
        search
          (
            keeps_rules, build_stateful_set-Keeps, build_stateful_set_cluster-Keeps, claims, dirs,
            stores,
          )
          depth 12
