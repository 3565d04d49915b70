-- ===== src/Operator/Unmoved/Database.antt =====
-- The work on the database leaves it alone, if the server answers with the status it was sent.
use nacos_operator.Prelude.{String, sym, subst, Bool, List}
use nacos_operator.Api.{NacosStatus, Event}
use nacos_operator.Operator.Services.{Services, State}
use nacos_operator.Operator.Status.{call_status_update}
use nacos_operator.Operator.Steps.{pg_ensure, rotate_admin}
use nacos_operator.Operator.Keeps.{Keeps}
use nacos_operator.Operator.Session.Written as Written
use nacos_operator.Operator.Unmoved.Defs.{Has, Status, KeepsStatus}

module _ {W : Type 0} (services : Services W) (p : String) (b : Bool) (es : List Event)
    (law : KeepsStatus services) where
  abbrev Q : State W → Type 0
  Q s = Has p b es s.nacos

  call_status_update-Keeps : Keeps Q (call_status_update services)
  call_status_update-Keeps = record {
    at = λ s h. subst (λ (x : NacosStatus). Status p b es x) (sym (law s.nacos s.world)) h;
  }

  pub pg_ensure-Keeps : Keeps Q (pg_ensure services)
  pg_ensure-Keeps =
      Written.pg_ensure-Keeps services (λ s w h. h) call_status_update-Keeps
        (λ v t. record { at = λ s h. h }) (λ v c t. record { at = λ s h. h })

  pub rotate_admin-Keeps : Keeps Q (rotate_admin services)
  rotate_admin-Keeps =
      Written.rotate_admin-Keeps services (λ s w h. h) call_status_update-Keeps
        (λ v t. record { at = λ s h. h }) (λ v c t. record { at = λ s h. h })
