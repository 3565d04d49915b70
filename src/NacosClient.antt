-- ===== src/NacosClient.antt =====
-- pkg/service/nacos/cluster.go: the cluster endpoint of a Nacos server.
use nacos_operator.Prelude.{
  String, not, Option, none, some, List, ◌==◌, ◌+++◌, contains_char, if◌then◌else◌,
}
use nacos_operator.Go.{KubeError, failure, Reply, ok, fail, error_text}

-- Of `ServersInfo`, what the operator reads of each node.
pub record Server : Type 0 where
  pub state : String
  -- ExtendInfo.RaftMetaData.MetaDataMap.NamingPersistentServiceV2.Leader
  pub leader : String
  -- ExtendInfo.Version
  pub version : String

-- net/http and the JSON decoding of the answer.
pub record Http (W : Type 0) : Type 0 where
  pub new_request : String → Option KubeError
  -- the URL and a header: the body
  pub send : String → Option (String × String) → W → Reply String
  pub decode_servers : String → Reply (List Server)

unfoldable pub nodes_url : String → String
nodes_url ip =
    if contains_char b':' ip
    then "http://[" +++ ip +++ "]:8848/nacos/v1/core/cluster/nodes"
    else "http://" +++ ip +++ ":8848/nacos/v1/core/cluster/nodes"

-- `identity` always has two elements: its caller passes a key and a value.
abbrev identity_header : String × String → Option (String × String)
identity_header (key, value) = if not (key == "") then some (key, value) else none

abbrev decoded : String → String → Reply (List Server) → Reply (List Server)
decoded ip body (ok servers) = ok servers
decoded ip body (fail e) =
    fail (failure ("instance: " +++ ip +++ " ; " +++ error_text e +++ " ; body: " +++ body))

abbrev read_body : {W : Type 0} → Http W → String → Reply String → Reply (List Server)
read_body http ip (fail e) = fail e
read_body http ip (ok body) = decoded ip body (http.decode_servers body)

unfoldable pub get_cluster_nodes :
    {W : Type 0} → Http W → String → String × String → W → Reply (List Server)
unfolding nodes_url
get_cluster_nodes http ip identity w = elim (http.new_request (nodes_url ip)) [
  | some e ↦ fail e
  | none ↦ read_body http ip (http.send (nodes_url ip) (identity_header identity) w)
]
