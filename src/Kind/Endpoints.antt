-- ===== src/Kind/Endpoints.antt =====
-- The three services of a Nacos resource.
use nacos_operator.Prelude.{String, true, none, some, [], ◌∷◌, ℤ, pos}
use nacos_operator.GoMap.{RangeOrder}
use nacos_operator.Types.{Service, ServicePort}
use nacos_operator.Api.{Nacos}
use nacos_operator.Kind.Names.{
  object_labels, object_meta, merge_labels, generate_annoation, generate_client_svc_name,
  generate_headless_svc_name,
}

abbrev pub nacos_port : ℤ
nacos_port = pos 8848

abbrev pub raft_port : ℤ
raft_port = pos 7848

abbrev pub new_raft_port : ℤ
new_raft_port = pos 9848

abbrev port : String → ℤ → ServicePort
port name number = record { name = name; port = number; protocol = "TCP" }

unfoldable pub build_service : RangeOrder → Nacos → Service
unfolding object_labels merge_labels
build_service order nacos =
    let labels = object_labels order nacos in
    record {
      meta =
          object_meta nacos nacos.name labels
            (merge_labels order (generate_annoation ∷ nacos.annotations ∷ []));
      spec = record {
        type = "";
        publish_not_ready_addresses = true;
        ports = port "client" nacos_port ∷ port "rpc" raft_port ∷ port "new-rpc" new_raft_port ∷ [];
        selector = labels;
        cluster_ip = "";
        ip_families = [];
        ip_family_policy = none;
      };
    }

unfoldable pub build_client_service : RangeOrder → Nacos → Service
unfolding object_labels merge_labels generate_client_svc_name
build_client_service order nacos =
    let labels = object_labels order nacos in
    record {
      meta =
          object_meta nacos (generate_client_svc_name nacos) labels
            (merge_labels order (generate_annoation ∷ nacos.annotations ∷ []));
      spec = record {
        type = "NodePort";
        publish_not_ready_addresses = true;
        ports = port "client" nacos_port ∷ port "rpc" new_raft_port ∷ [];
        selector = labels;
        cluster_ip = "";
        ip_families = "IPv4" ∷ [];
        ip_family_policy = some "SingleStack";
      };
    }

unfoldable pub build_headless_service_cluster : Service → Nacos → Service
unfolding generate_headless_svc_name
build_headless_service_cluster svc nacos = record {
  meta = record svc.meta { name = generate_headless_svc_name nacos };
  spec = record svc.spec {
    cluster_ip = "None";
    ip_families = "IPv4" ∷ [];
    ip_family_policy = some "SingleStack";
  };
}
