-- ===== src/Samples/Working.antt =====
-- The theorems on the operator and the reconciler at one resource and a world that keeps the time.
use nacos_operator.Prelude.{
  String, ◌+++◌, ℕ, some, ◌≡◌, ◌≤◌, refl, true, false, List, [], ◌∷◌, pos, length, arith,
}
use nacos_operator.Errors.{Err}
use nacos_operator.Go.{done, ok, ensure_equal}
use nacos_operator.NacosClient.{Server, get_cluster_nodes, nodes_url}
use nacos_operator.Kind.{nacos_servers, member_address}
use nacos_operator.Kind.Members.{spaced, nacos_servers-spaced}
use nacos_operator.Api.{Nacos, Event, phase_creating, phase_failed}
use nacos_operator.Operator.{
  update_last_event, update_exception_status, check_servers, check_pod, check_pods, check_nacos,
  resolve_identity_header,
}
use nacos_operator.Operator.Sent.{Sends, update_exception_status-Sends}
use nacos_operator.Operator.Events.{
  Records, StuckAt, report, update_last_event-Records, update_last_event-bounded,
  report-status_lost,
}
use nacos_operator.Controller.{steps, reconcile_work}
use nacos_operator.Operator.Members.{AllAnswer, condition_pods, pod_names, check_nacos-AllAnswer}
use nacos_operator.Types.{Pod}
use nacos_operator.Controller.Watch.{find_nacos_for_config_map}
use nacos_operator.Controller.Woken.{is_requested, some_refers, find_nacos_for_config_map-exact}
use nacos_operator.Controller.Outcomes.{EndsAs, reconcile_work-EndsAs, reconcile_work-creates}
use nacos_operator.Samples.Values.{new_nacos}
use nacos_operator.Operator.Services.{Services, State}
use nacos_operator.Samples.World.{clock_services, start}

reconcile_work-EndsAs_example : EndsAs clock_services start (steps clock_services start)
reconcile_work-EndsAs_example = reconcile_work-EndsAs clock_services start

reconcile_work-creates_example :
    (sent : Nacos) × Sends clock_services start (reconcile_work clock_services start).1 sent 120
    × (sent.status.phase ≡ phase_creating)
    × (sent.status.healthy ≡ false)
    × ((reconcile_work clock_services start).0 ≡ done false)
reconcile_work-creates_example = reconcile_work-creates clock_services start refl

abbrev cluster_err : Err
cluster_err = record { code = pos 1003; msg = "node is not up" }

update_exception_status-Sends_example :
    ((update_exception_status clock_services cluster_err start).0 ≡ done tt)
    × ((sent : Nacos) × Sends clock_services start
          (update_exception_status clock_services cluster_err start).1
          sent
          (update_last_event clock_services (pos 1003) "node is not up" false start).1.world
        × (sent.status.phase ≡ phase_failed)
        × (sent.status.event
            ≡ (update_last_event clock_services
                (pos 1003)
                "node is not up"
                false
                start).1.nacos.status.event))
update_exception_status-Sends_example =
    update_exception_status-Sends clock_services cluster_err start

update_last_event-Records_example :
    (e : Event) × Records
      (update_last_event clock_services (pos 200) "" true start).1.nacos.status.event
      (pos 200)
      ""
      e
update_last_event-Records_example = update_last_event-Records clock_services (pos 200) "" true start

update_last_event-bounded_example :
    length (update_last_event clock_services (pos 200) "" true start).1.nacos.status.event ≤ 11
update_last_event-bounded_example =
    update_last_event-bounded clock_services (pos 200) "" true start (omega arith)

report-status_lost_example :
    StuckAt clock_services (pos 200) (report clock_services 3 (pos 200) "" start).nacos.status.event
report-status_lost_example = report-status_lost clock_services 2 (pos 200) "" start refl

abbrev servers : List Server
servers =
    record { state = "UP"; leader = ""; version = "1.4.1" }
    ∷ record { state = "UP"; leader = "demo-0.demo:7848"; version = "1.4.1" }
    ∷ []

find_nacos_for_config_map-exact_example :
    is_requested "default" "demo" (find_nacos_for_config_map "user-config" (ok (new_nacos ∷ [])))
    ≡ some_refers "user-config" "default" "demo" (new_nacos ∷ [])
find_nacos_for_config_map-exact_example =
    find_nacos_for_config_map-exact "user-config" "default" "demo" (new_nacos ∷ [])

abbrev pod : String → Pod
pod name = record { name = name; pod_ip = "10.1.0.1"; node_name = "node"; conditions = [] }

-- Each server answers with itself, and one replica is wanted.
abbrev member_services : Services ℕ
member_services = record clock_services {
  http = record clock_services.http {
    decode_servers =
        λ body. ok (record { state = "UP"; leader = "demo-0.demo:7848"; version = "1.4.1" } ∷ []);
  };
}

abbrev single : State ℕ
single = record start {
  nacos = record start.nacos { spec = record start.nacos.spec { replicas = some (pos 1) } };
}

check_nacos-AllAnswer_example :
    (leader : String) × AllAnswer member_services
      (resolve_identity_header member_services single.nacos single.world)
      (some (pos 1))
      120
      leader
      (pod "demo-0" ∷ [])
    × (condition_pods
          (check_nacos member_services (pod "demo-0" ∷ []) single).1.nacos.status.conditions
        ≡ pod_names (pod "demo-0" ∷ []))
check_nacos-AllAnswer_example =
    check_nacos-AllAnswer member_services (pod "demo-0" ∷ []) single
      (check_nacos member_services (pod "demo-0" ∷ []) single).1
      (unfold check_nacos check_pods check_pod check_servers ensure_equal get_cluster_nodes
          nodes_url resolve_identity_header in
        refl)

nacos_servers-spaced_example :
    nacos_servers {W = ℕ} new_nacos 5
    ≡ (done (member_address new_nacos 0 +++ spaced new_nacos 2 1), 5)
nacos_servers-spaced_example = nacos_servers-spaced {W = ℕ} new_nacos 2 5 refl
