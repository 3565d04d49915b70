-- ===== src/Operator/Steps.antt =====
-- operaror.go: the steps of a reconcile.
use nacos_operator.Prelude.{false, not, ◌&&◌, [], ◌∷◌, ◌==◌, if◌then◌else◌}
use nacos_operator.Errors.{new_err, code_normal, code_parameter_error}
use nacos_operator.Go.{Go, my_error, pure, panic, gets, when, ◌>>=◌, ◌>>◌}
use nacos_operator.Api.{Nacos, phase_none, phase_failed, phase_creating}
use nacos_operator.Kind.{validation_field, checks_database}
use nacos_operator.Operator.Services.{Services, State, set_nacos}
use nacos_operator.Operator.Status.{update_status_running}
use nacos_operator.Operator.Check.{check_kind, check_nacos}
use nacos_operator.Operator.Pg.{ping_and_init, rotate_admin_password}
use nacos_operator.Operator.Ensure.{
  ensure_config_map, ensure_stateful_set, ensure_stateful_set_cluster, ensure_service,
  ensure_client_service, ensure_headless_service_cluster, ensure_mysql_config_map, ensure_job,
}

module _ {W : Type 0} (services : Services W) where
  -- HealClient.MakeHeal has an empty body.
  abbrev make_heal : Go (State W) (Unit {0})
  make_heal = pure tt

  -- A new resource becomes `Creating`; the panic of the normal code ends the reconcile.
  abbrev pub start_creating : Nacos → Nacos
  start_creating nacos = record nacos {
    status = record nacos.status { phase = phase_creating; healthy = false };
  }

  unfoldable pub pre_check : Go (State W) (Unit {0})
  pre_check = do
    phase ← gets (λ s. s.nacos.status.phase)
    if phase == phase_failed
        then make_heal
        else when (phase == phase_none)
            (do set_nacos start_creating; panic (my_error (new_err code_normal "" [])))

  unfoldable pub pg_ensure : Go (State W) (Unit {0})
  pg_ensure = do
    nacos ← gets (λ s. s.nacos)
    when (not (nacos.spec.postgres.host == "") && nacos.spec.pg_init.enabled)
        (ping_and_init services)

  -- The client is never nil: `NewOperatorClient` builds it.
  unfoldable pub rotate_admin : Go (State W) (Unit {0})
  rotate_admin = do
    nacos ← gets (λ s. s.nacos)
    when
        (not (nacos.spec.postgres.host == "")
          && not (nacos.spec.admin_credentials_secret_ref.name == ""))
        (rotate_admin_password services)

  abbrev pub ensure_database : Nacos → Go (State W) (Unit {0})
  ensure_database nacos =
      when (checks_database nacos.spec) (do ensure_mysql_config_map services; ensure_job services)

  abbrev ensure_standalone : Nacos → Go (State W) (Unit {0})
  ensure_standalone nacos = do
    ensure_config_map services
    ensure_stateful_set services
    ensure_service services
    ensure_client_service services
    ensure_database nacos

  abbrev pub ensure_cluster : Nacos → Go (State W) (Unit {0})
  ensure_cluster nacos = do
    ensure_config_map services
    ensure_stateful_set_cluster services
    ensure_headless_service_cluster services
    ensure_client_service services
    ensure_database nacos

  unfoldable pub make_ensure : Go (State W) (Unit {0})
  make_ensure = do
    set_nacos (λ nacos. record nacos { spec = validation_field nacos.spec })
    nacos ← gets (λ s. s.nacos)
    if nacos.spec.type == "standalone"
        then ensure_standalone nacos
        else if nacos.spec.type == "cluster"
        then ensure_cluster nacos
        else panic (
            my_error (
              new_err code_parameter_error "parameter error %v is %v"
                ("nacos.Spec.Type" ∷ nacos.spec.type ∷ [])))

  unfoldable pub check_and_make_heal : Go (State W) (Unit {0})
  check_and_make_heal = do pods ← check_kind services; check_nacos services pods

  unfoldable pub operator_update_status : Go (State W) (Unit {0})
  operator_update_status = update_status_running services
