-- ===== src/Samples/Reconciling.antt =====
-- The theorems on the phases at a new resource, and at one that waits for too long.
use nacos_operator.Prelude.{ℕ, ◌⊎◌, refl, arith}
use nacos_operator.Errors.{new_err}
use nacos_operator.Api.{phase_creating, phase_running, phase_failed}
use nacos_operator.Operator.Services.{State}
use nacos_operator.Operator.{pre_check, pg_ensure, rotate_admin, make_ensure}
use nacos_operator.Operator.Unmoved.{KeepsStatus}
use nacos_operator.Kind.{validation_field}
use nacos_operator.Controller.{steps, reconcile_work}
use nacos_operator.Controller.Handled.{Reports}
use nacos_operator.Controller.Phases.{PhaseMove, reconcile_work-PhaseMove}
use nacos_operator.Controller.Reached.{first, IsReported, reconciled, Reached-IsReported}
use nacos_operator.Controller.Settled.{reconcile_work-settles}
use nacos_operator.Samples.Values.{new_nacos}
use nacos_operator.Samples.World.{clock_services, still_services, start}

answers : KeepsStatus clock_services
answers n w = refl

reconcile_work-PhaseMove_example :
    PhaseMove start.nacos.status
      (reconcile_work clock_services start).1.nacos.status
      (reconcile_work clock_services start).0
reconcile_work-PhaseMove_example =
    reconcile_work-PhaseMove clock_services answers start (refl, omega arith)

Reached-IsReported_example : IsReported (reconciled clock_services new_nacos 120)
Reached-IsReported_example =
    Reached-IsReported clock_services answers
      (first new_nacos 120 (record { phase = refl; healthy = refl; event = refl }) refl)

-- Of a type that is not known, and created long ago.
abbrev waiting : State ℕ
waiting = record {
  nacos = record new_nacos {
    spec = record new_nacos.spec {
      type = "other";
      postgres = record new_nacos.spec.postgres { host = "" };
    };
    status = record new_nacos.status { phase = phase_creating };
  };
  world = 0;
}

reconcile_work-settles_example :
    Reports phase_running (reconcile_work still_services waiting).1.nacos.status
    ⊎ Reports phase_failed (reconcile_work still_services waiting).1.nacos.status
reconcile_work-settles_example =
    reconcile_work-settles still_services (λ n w. refl) waiting (refl, omega arith) (λ e. cc)
      (unfold steps pre_check pg_ensure rotate_admin make_ensure validation_field new_err in refl)
      (unfold steps pre_check pg_ensure rotate_admin make_ensure validation_field in (λ w. refl))
