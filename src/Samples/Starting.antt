-- ===== src/Samples/Starting.antt =====
-- A manager that starts and stops without an error.
use nacos_operator.Prelude.{
  ℕ, suc, String, ◌≡◌, ◌↔◌, ◌⊎◌, inl, inr, false, some, none, ◌==◌, if◌then◌else◌,
}
use nacos_operator.Go.{ok}
use nacos_operator.Manager.{Runtime, returned, exited, main}
use nacos_operator.Manager.Served.{Serves, main-Serves}
use nacos_operator.Samples.World.{clock_services}

abbrev quiet_runtime : Runtime ℕ String String
quiet_runtime = record {
  parse_flags = λ flags w. inr flags;
  getenv = λ name w. if name == "WATCH_NAMESPACE" then "default" else "";
  get_config = λ w. some "in cluster";
  new_manager = λ config options w. (ok options.namespace, suc w);
  services_of = λ manager config. clock_services;
  complete = λ manager registration w. (none, suc w);
  start = λ manager w. (none, suc w);
}

main-Serves_example :
    ((main quiet_runtime 7 ≡ (returned, 10)) ↔ Serves quiet_runtime 7 10)
    × ((code : ℕ)
        → main quiet_runtime 7 ≡ (exited code, 10)
        → (quiet_runtime.parse_flags
              (record { metrics_addr = ":8080"; enable_leader_election = false })
              7
            ≡ inl code)
          ⊎ (code ≡ 1))
main-Serves_example = main-Serves quiet_runtime 7 10
