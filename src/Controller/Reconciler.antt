-- ===== src/Controller/Reconciler.antt =====
-- Reconcile, ReconcileWork and the handling of what they recover from.
use nacos_operator.Prelude.{
  ℕ, ◌+◌, String, Bool, true, false, not, List, [], ◌∷◌, ◌==◌, int_eq, ltb, if◌then◌else◌,
}
use nacos_operator.Errors.{Err, code_normal}
use nacos_operator.Go.{
  KubeError, not_found, failure, Reply, ok, fail, Go, Outcome, done, panics, Panic, my_error,
  api_error, runtime_error, pure, gets, when, recovered, ◌>>=◌, ◌>>◌,
}
use nacos_operator.Api.{Nacos, phase_creating}
use nacos_operator.Operator.Services.{Services, State, on_world}
use nacos_operator.Operator.{
  update_status, update_exception_status, pre_check, pg_ensure, rotate_admin, make_ensure,
  check_and_make_heal, operator_update_status,
}

-- The seconds after which the request is queued again, or an error that the queue backs off on.
pub data Result : Type 0 where
  finished : Result
  requeue_after : ℕ → Result
  failed : KubeError → Result

module _ {W : Type 0} (services : Services W) where
  abbrev pub run_all : List (Go (State W) (Unit {0})) → Go (State W) (Unit {0})
  run_all [] = pure tt
  run_all (f ∷ fs) = f >> run_all fs

  -- The six steps, in order.
  unfoldable pub steps : Go (State W) (Unit {0})
  steps = run_all (
      pre_check services
      ∷ pg_ensure services
      ∷ rotate_admin services
      ∷ make_ensure services
      ∷ check_and_make_heal services
      ∷ operator_update_status services
      ∷ [])

  -- Three minutes; `||` reads the clock only in the phase `Creating`.
  abbrev pub timed_out : Go (State W) Bool
  timed_out = do
    nacos ← gets (λ s. s.nacos)
    if not (nacos.status.phase == phase_creating)
        then pure true
        else (do time ← on_world services.now; pure (ltb (nacos.creation_timestamp + 180) time))

  abbrev pub handle_err : Err → Go (State W) (Unit {0})
  handle_err err =
      if int_eq err.code code_normal
      then update_status services
      else (do late ← timed_out; when late (update_exception_status services err))

  -- Errors of other types are only logged; all that is thrown is an `error`.
  unfoldable pub global_except_handle : Panic → Go (State W) (Unit {0})
  global_except_handle (my_error err) = handle_err err
  global_except_handle (api_error e) = pure tt
  global_except_handle (runtime_error text) = pure tt

  -- The work, the first handler on what it panicked with, and the second handler, which only logs,
  -- on what the first one panicked with. After a recovery the result is Go's zero value.
  unfoldable pub reconcile_work : Go (State W) Bool
  unfolding steps global_except_handle
  reconcile_work =
      recovered (recovered (steps >> pure true) (λ p. global_except_handle p >> pure false))
        (λ p. pure false)

  abbrev result_of : Outcome Bool → Outcome Result
  result_of (done true) = done finished
  result_of (done false) = done (requeue_after 5)
  result_of (panics p) = panics p

  abbrev on_instance : Reply Nacos → W → Outcome Result × W
  on_instance (ok instance_read) w =
      let (r, s) = reconcile_work (record { nacos = instance_read; world = w }) in
      (result_of r, s.world)
  on_instance (fail (not_found _)) w = (done finished, w)
  on_instance (fail (failure text)) w = (done (failed (failure text)), w)

  unfoldable pub reconcile : String → String → Go W Result
  unfolding reconcile_work
  reconcile namespace name w = on_instance (services.get_nacos namespace name w) w
