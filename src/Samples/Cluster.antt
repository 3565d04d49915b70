-- ===== src/Samples/Cluster.antt =====
-- A server that keeps the config maps and the services of one namespace, with a stateful set and its
-- pods, and the laws that hold of it.
use nacos_operator.Prelude.{String, false, Option, none, some, [], ◌∷◌, ◌≡◌, refl, ap, ◌==◌}
use nacos_operator.GoMap.{GoMap, lookup, assign, lookup-assign}
use nacos_operator.Go.{KubeError, Reply, failure}
use nacos_operator.Types.{StatefulSet, ConfigMap, Service}
use nacos_operator.K8s.Interface.{ResourceApi, KubeApi}
use nacos_operator.K8s.Untouched.{Untouched}
use nacos_operator.K8s.Laws.{KubeLaws, Anything, stateful_set_name, job_name}
use nacos_operator.Operator.Services.{Services}
use nacos_operator.Samples.Members.{pod, three}
use nacos_operator.Samples.World.{
  found, created, updated, created-found, updated-found, still_services, still_server, with_type,
  with_type-content,
}

pub record Namespace : Type 0 where
  pub config_maps : GoMap ConfigMap
  pub services : GoMap Service

abbrev config_map_server : ResourceApi Namespace ConfigMap
config_map_server = record {
  get = λ ns n w. found (lookup n w.config_maps);
  create = λ ns r w.
      let (e, m) = created (lookup r.meta.name w.config_maps) r.meta.name r w.config_maps in
      (e, record w { config_maps = m });
  update = λ ns r w.
      let (e, m) = updated (lookup r.meta.name w.config_maps) r.meta.name r w.config_maps in
      (e, record w { config_maps = m });
  delete = λ ns n w. (some (failure "not served"), w);
  list = λ ns w. Reply.fail (failure "not served");
}

-- It fills in the type of a service.
abbrev service_server : ResourceApi Namespace Service
service_server = record {
  get = λ ns n w. found (lookup n w.services);
  create = λ ns r w.
      let (e, m) = created (lookup r.meta.name w.services) r.meta.name (with_type r) w.services in
      (e, record w { services = m });
  update = λ ns r w.
      let (e, m) = updated (lookup r.meta.name w.services) r.meta.name (with_type r) w.services in
      (e, record w { services = m });
  delete = λ ns n w. (some (failure "not served"), w);
  list = λ ns w. Reply.fail (failure "not served");
}

-- The stateful set is there, and changes to it are accepted and forgotten.
abbrev stateful_set_server : ResourceApi Namespace StatefulSet
stateful_set_server = record still_server { get = λ ns n w. Reply.ok three }

abbrev pub cluster_api : KubeApi Namespace
cluster_api = record {
  config_maps = config_map_server;
  services = service_server;
  stateful_sets = stateful_set_server;
  jobs = still_server;
  list_pods =
      λ ns name w. Reply.ok (pod "demo-0" "True" ∷ pod "demo-1" "False" ∷ pod "demo-2" "True" ∷ []);
}

module _ {R : Type 0} where
  found_other :
      (k n : String) (r : R) (m : GoMap R)
      → (k == n) ≡ false
      → found (lookup n (assign k r m)) ≡ found (lookup n m)
  found_other k n r m h = rw (lookup-assign k n r m, h) refl

  created_other :
      (o : Option R) (k n : String) (r : R) (m : GoMap R)
      → (k == n) ≡ false
      → found (lookup n (created o k r m).1) ≡ found (lookup n m)
  created_other none k n r m h = found_other k n r m h
  created_other (some old) k n r m h = refl

  updated_other :
      (o : Option R) (k n : String) (r : R) (m : GoMap R)
      → (k == n) ≡ false
      → found (lookup n (updated o k r m).1) ≡ found (lookup n m)
  updated_other none k n r m h = refl
  updated_other (some old) k n r m h = found_other k n r m h

stateful_set-Untouched :
    {A : Type 0} (read : Namespace → A)
    → Untouched stateful_set_server stateful_set_name Anything read
stateful_set-Untouched read = record {
  creates = λ ns r w h. refl;
  updates = λ ns r w h. refl;
  deletes = λ ns n w h. refl;
}

still-Untouched :
    {R A : Type 0} (name : R → String) (read : Namespace → A)
    → Untouched still_server name Anything read
still-Untouched name read = record {
  creates = λ ns r w h. refl;
  updates = λ ns r w h. refl;
  deletes = λ ns n w h. refl;
}

pub cluster_laws : KubeLaws cluster_api
cluster_laws = record {
  config_maps = record {
    create_stores = λ ns r w w' h. (
      r,
      created-found (lookup r.meta.name w.config_maps) r.meta.name r w.config_maps w'.config_maps
          (ap (λ (x : Option KubeError × Namespace). (x.0, x.1.config_maps)) h),
      refl,
    );
    update_stores = λ ns r w w' h. (
      r,
      updated-found (lookup r.meta.name w.config_maps) r.meta.name r w.config_maps w'.config_maps
          (ap (λ (x : Option KubeError × Namespace). (x.0, x.1.config_maps)) h),
      refl,
    );
  };
  services = record {
    create_stores = λ ns r w w' h. (
      with_type r,
      created-found (lookup r.meta.name w.services) r.meta.name (with_type r) w.services w'.services
          (ap (λ (x : Option KubeError × Namespace). (x.0, x.1.services)) h),
      with_type-content r,
    );
    update_stores = λ ns r w w' h. (
      with_type r,
      updated-found (lookup r.meta.name w.services) r.meta.name (with_type r) w.services w'.services
          (ap (λ (x : Option KubeError × Namespace). (x.0, x.1.services)) h),
      with_type-content r,
    );
  };
  config_map_by_services = λ ns n. record {
    creates = λ ns r w h. refl;
    updates = λ ns r w h. refl;
    deletes = λ ns n w h. refl;
  };
  config_map_by_stateful_sets = λ ns n. stateful_set-Untouched _;
  config_map_by_jobs = λ ns n. still-Untouched job_name _;
  config_map_by_others = λ ns n. record {
    creates = λ ns r w h.
        created_other (lookup r.meta.name w.config_maps) r.meta.name n r w.config_maps h;
    updates = λ ns r w h.
        updated_other (lookup r.meta.name w.config_maps) r.meta.name n r w.config_maps h;
    deletes = λ ns n w h. refl;
  };
  service_by_config_maps = λ ns n. record {
    creates = λ ns r w h. refl;
    updates = λ ns r w h. refl;
    deletes = λ ns n w h. refl;
  };
  service_by_stateful_sets = λ ns n. stateful_set-Untouched _;
  service_by_jobs = λ ns n. still-Untouched job_name _;
  service_by_others = λ ns n. record {
    creates = λ ns r w h.
        created_other (lookup r.meta.name w.services) r.meta.name n (with_type r) w.services h;
    updates = λ ns r w h.
        updated_other (lookup r.meta.name w.services) r.meta.name n (with_type r) w.services h;
    deletes = λ ns n w h. refl;
  };
}

abbrev pub cluster_services : Services Namespace
cluster_services = record still_services {
  api = cluster_api;
  http = record still_services.http {
    decode_servers = λ body. Reply.ok (
        record { state = "UP"; leader = "demo-0.demo:7848"; version = "1.4.1" }
        ∷ record { state = "UP"; leader = "demo-0.demo:7848"; version = "1.4.1" }
        ∷ record { state = "UP"; leader = "demo-0.demo:7848"; version = "1.4.1" }
        ∷ []);
  };
}
