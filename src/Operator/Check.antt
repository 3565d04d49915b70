-- ===== src/Operator/Check.antt =====
-- Check.go: whether the stateful set, its pods and the Nacos cluster on them are as wanted.
use nacos_operator.Prelude.{
  zero, suc, ◌+◌, ◌/◌, String, not, Option, none, some, List, [], ◌∷◌, ◌++◌, ◌==◌, ℤ, pos, negsuc,
  int_eq, int_lt, length, before_char, index_pos, show_nat, itoa, if◌then◌else◌,
}
use nacos_operator.GoMap.{lookup}
use nacos_operator.Errors.{new_err, code_err_unknow, code_cluster_faile}
use nacos_operator.Go.{
  Reply, ok, fail, Go, Outcome, done, my_error, api_error, pure, panic, gets, when, ◌>>=◌, ◌>>◌,
  ensure_equal, ensure_normal_my_error,
}
use nacos_operator.Types.{Pod, Secret, StatefulSet}
use nacos_operator.Api.{Nacos, NacosCondition, IdentitySecretRef}
use nacos_operator.K8s.{dereference, get_stateful_set, get_stateful_set_read_pod}
use nacos_operator.NacosClient.{Server, get_cluster_nodes}
use nacos_operator.Operator.Services.{Services, State, read_world, set_nacos}

-- Go's `(r + 1) / 2`, which rounds towards zero.
abbrev pub half_up : ℤ → ℤ
half_up (pos n) = pos ((n + 1) / 2)
half_up (negsuc zero) = pos 0
half_up (negsuc (suc n)) = elim ((n + 1) / 2) [ zero ↦ pos 0 | suc m ↦ negsuc m ]

-- `value, err := call(); EnsureNormal(err)`
abbrev pub ensure_reply : {S A : Type 0} → Reply A → Go S A
ensure_reply (ok a) = pure a
ensure_reply (fail e) = panic (api_error e)

module _ {W : Type 0} (services : Services W) where
  -- The error of `GetStatefulSetReadPod` is not looked at: the list is empty then.
  abbrev pub pods_of : State W → Outcome (Reply (List Pod)) × W → Outcome (List Pod) × State W
  pods_of s (done (ok pods), w) = (done pods, record s { world = w })
  pods_of s (done (fail _), w) = (done [], record s { world = w })
  pods_of s (Outcome.panics p, w) = (Outcome.panics p, record s { world = w })

  abbrev pub read_pods : Nacos → Go (State W) (List Pod)
  read_pods nacos s =
      pods_of s
        (get_stateful_set_read_pod services.order services.api nacos.namespace nacos.name s.world)

  abbrev pub enough_pods : ℤ → List Pod → Go (State W) (List Pod)
  enough_pods replicas pods = do
    when (int_lt (pos (length pods)) (half_up replicas))
        (panic (my_error (new_err code_err_unknow "The number of ready pods is too less" [])))
    pure pods

  abbrev pub same_replicas : Nacos → ℤ → ℤ → Go (State W) (List Pod)
  same_replicas nacos ss_replicas cr_replicas = do
    when (not (int_eq ss_replicas cr_replicas))
        (panic (my_error (new_err code_err_unknow "cr replicas is not equal ss replicas" [])))
    pods ← read_pods nacos
    enough_pods cr_replicas pods

  -- Both replica counts are read through a pointer.
  abbrev pub check_stored : Nacos → StatefulSet → Go (State W) (List Pod)
  check_stored nacos ss = do
    ss_replicas ← dereference ss.spec.replicas
    cr_replicas ← dereference nacos.spec.replicas
    same_replicas nacos ss_replicas cr_replicas

  unfoldable pub check_kind : Go (State W) (List Pod)
  check_kind = do
    nacos ← gets (λ s. s.nacos)
    reply ← read_world (get_stateful_set services.api.stateful_sets nacos.namespace nacos.name)
    ss ← ensure_reply reply
    check_stored nacos ss

  abbrev key_or : String → String → String
  key_or key default = if key == "" then default else key

  abbrev both : Option String → Option String → String × String
  both (some key) (some value) = (key, value)
  both _ _ = ("", "")

  abbrev identity_of : IdentitySecretRef → Reply Secret → String × String
  identity_of ref (fail _) = ("", "")
  identity_of ref (ok sec) =
      both (lookup (key_or ref.key_key "identity_key") sec.contents)
        (lookup (key_or ref.value_key "identity_value") sec.contents)

  -- The client is never nil: `NewCheckClient` is given the manager's.
  unfoldable pub resolve_identity_header : Nacos → W → String × String
  resolve_identity_header nacos w = elim nacos.spec.identity_secret_ref [
    | none ↦ ("", "")
    | some ref ↦
        if ref.name == ""
        then ("", "")
        else identity_of ref (services.get_secret nacos.namespace ref.name w)
  ]

  -- The inner loop of `CheckNacos`, over the servers that one pod answers with.
  unfoldable pub check_servers : List Server → String → Go (State W) String
  check_servers [] leader = pure leader
  check_servers (svc ∷ servers) leader = do
    ensure_equal (svc.state == "UP") svc.state "UP" code_cluster_faile "node is not up"
    when (not (leader == "")) (
        ensure_equal (leader == svc.leader) leader svc.leader code_cluster_faile "leader not equal")
    set_nacos (λ nacos. record nacos { status = record nacos.status { version = svc.version } })
    check_servers servers (if leader == "" then svc.leader else leader)

  -- The first part of the leader's address is the name of its pod.
  abbrev leader_pod : String → String
  leader_pod leader =
      if index_pos b'.' leader then before_char b'.' leader else before_char b':' leader

  abbrev pub condition_of : String → Pod → NacosCondition
  condition_of leader pod = record {
    type = if leader_pod leader == pod.name then "leader" else "follower";
    status = "true";
    instance_ip = pod.pod_ip;
    pod_name = pod.name;
    node_name = pod.node_name;
  }

  abbrev add_condition : NacosCondition → Go (State W) (Unit {0})
  add_condition condition = set_nacos (λ nacos. record nacos {
    status = record nacos.status { conditions = nacos.status.conditions ++ condition ∷ [] };
  })

  -- `err` as a *errors.Err with the cluster's code.
  abbrev pub ensure_servers : Reply (List Server) → Go (State W) (List Server)
  ensure_servers (ok servers) = pure servers
  ensure_servers (fail e) = do ensure_normal_my_error (some e) code_cluster_faile; pure []

  abbrev pub finish_pod : Pod → String → Go (State W) String
  finish_pod pod found = do add_condition (condition_of found pod); pure found

  -- The number of servers, and then each of them.
  abbrev pub check_members : Pod → String → List Server → ℤ → Go (State W) String
  check_members pod leader servers replicas = do
    ensure_equal (int_eq (pos (length servers)) replicas) (show_nat (length servers))
        (itoa replicas) code_cluster_faile "server num is not equal"
    found ← check_servers servers leader
    finish_pod pod found

  abbrev pub check_answer : Pod → String → List Server → Go (State W) String
  check_answer pod leader servers = do
    nacos ← gets (λ s. s.nacos)
    replicas ← dereference nacos.spec.replicas
    check_members pod leader servers replicas

  unfoldable pub check_pod : String × String → Pod → String → Go (State W) String
  unfolding check_servers
  check_pod identity pod leader = do
    reply ← read_world (get_cluster_nodes services.http pod.pod_ip identity)
    servers ← ensure_servers reply
    check_answer pod leader servers

  -- The loop over the pods; the leader is a variable of the whole loop.
  unfoldable pub check_pods : String × String → List Pod → String → Go (State W) (Unit {0})
  unfolding check_pod
  check_pods identity [] leader = pure tt
  check_pods identity (pod ∷ pods) leader = do
    found ← check_pod identity pod leader
    check_pods identity pods found

  unfoldable pub check_nacos : List Pod → Go (State W) (Unit {0})
  unfolding check_pods resolve_identity_header
  check_nacos pods = do
    set_nacos (λ nacos. record nacos { status = record nacos.status { conditions = [] } })
    identity ← (λ s. (done (resolve_identity_header s.nacos s.world), s))
    check_pods identity pods ""
