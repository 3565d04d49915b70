-- ===== src/Controller/Handled.antt =====
-- What the handler of panics does to the reported status.
use nacos_operator.Prelude.{
  ◌+◌, ◌≤◌, String, ◌≡◌, refl, sym, ap, ◌∙◌, subst, Bool, true, false, ◌⊎◌, inl, inr, Bool-cases,
  List, ◌==◌, int_eq, ltb, length, pos,
}
use nacos_operator.Errors.{Err, code_normal}
use nacos_operator.Go.{Panic, my_error, api_error, runtime_error, Go, ◌>>=◌, when}
use nacos_operator.Api.{Nacos, NacosStatus, Event, phase_creating, phase_running, phase_failed}
use nacos_operator.Operator.Services.{Services, State}
use nacos_operator.Operator.{update_status, update_exception_status, update_status_running}
use nacos_operator.Operator.Sent.{
  answered, update_status-Sends, update_exception_status-Sends, update_status_running-Sends,
}
use nacos_operator.Operator.Events.{update_last_event-bounded}
use nacos_operator.Operator.Unmoved.{Status, KeepsStatus}
use nacos_operator.Controller.Reconciler.{timed_out, handle_err, global_except_handle}

-- The health is the phase `Running`, and the events are at most 11.
abbrev pub IsConsistent : NacosStatus → Type 0
IsConsistent s = (s.healthy ≡ (s.phase == phase_running)) × (length s.event ≤ 11)

-- Another phase has been reported.
abbrev pub Reports : String → NacosStatus → Type 0
Reports phase s = (s.phase ≡ phase) × IsConsistent s

abbrev pub Same : NacosStatus → NacosStatus → Type 0
Same s = Status s.phase s.healthy s.event

module _ {W : Type 0} (services : Services W) (law : KeepsStatus services) where
  -- The status after a call of Status().Update.
  status-answered :
      (s : State W) (sent : Nacos) (w : W)
      → s ≡ answered services sent w
      → s.nacos.status ≡ sent.status
  status-answered s sent w e = ap (λ (x : State W). x.nacos.status) e ∙ law sent w

  pub exception-Reports :
      (err : Err) (s : State W)
      → length s.nacos.status.event ≤ 11
      → Reports phase_failed (update_exception_status services err s).1.nacos.status
  exception-Reports err s h =
      let (ends, (sent, (e, a, b), c, d)) = update_exception_status-Sends services err s in
      subst (Reports phase_failed) (sym (status-answered _ sent _ e)) (
        c,
        (
          b,
          subst (λ (es : List Event). length es ≤ 11) (sym d)
              (update_last_event-bounded services err.code err.msg false s h),
        ),
      )

  pub running-Reports :
      (s : State W)
      → length s.nacos.status.event ≤ 11
      → Reports phase_running (update_status_running services s).1.nacos.status
  running-Reports s h =
      let (sent, (e, a, b), c, d) = update_status_running-Sends services s in
      subst (Reports phase_running) (sym (status-answered _ sent _ e)) (
        c,
        (
          b,
          subst (λ (es : List Event). length es ≤ 11) (sym d)
              (update_last_event-bounded services (pos 200) "" true s h),
        ),
      )

  pub update_status-Same :
      (s : State W)
      → IsConsistent s.nacos.status
      → Same s.nacos.status (update_status services s).1.nacos.status
  update_status-Same s h =
      let (sent, (e, a, b), c, d) = update_status-Sends services s in
      subst (Same s.nacos.status) (sym (status-answered _ sent _ e))
        (c, b ∙ ap (λ (p : String). p == phase_running) c ∙ sym h.0, d)

  -- What the handler of panics may do to a status.
  abbrev pub Handled : NacosStatus → NacosStatus → Type 0
  Handled s s' = Same s s' ⊎ Reports phase_failed s'

  -- The handler once it has decided.
  when-Handled :
      (late : Bool) (err : Err) (s : State W)
      → IsConsistent s.nacos.status
      → Handled s.nacos.status (when late (update_exception_status services err) s).1.nacos.status
  when-Handled true err s h = inr (exception-Reports err s h.1)
  when-Handled false err s h = inl (refl, refl, refl)

  abbrev report_late : Err → Go (State W) (Unit {0})
  report_late err = timed_out services >>= λ late. when late (update_exception_status services err)

  late-Handled :
      (err : Err) (s : State W)
      → IsConsistent s.nacos.status
      → Handled s.nacos.status (report_late err s).1.nacos.status
  late-Handled err s h = elim (Bool-cases (s.nacos.status.phase == phase_creating)) [
    | inl creating ↦ rw creating (
        when-Handled (ltb (s.nacos.creation_timestamp + 180) (services.now s.world).0) err
          (record s { world = (services.now s.world).1 }) h)
    | inr other ↦ rw other (when-Handled true err s h)
  ]

  handle_err-Handled :
      (err : Err) (s : State W)
      → IsConsistent s.nacos.status
      → Handled s.nacos.status (handle_err services err s).1.nacos.status
  handle_err-Handled err s h = elim (Bool-cases (int_eq err.code code_normal)) [
    | inl normal ↦ rw normal (inl (update_status-Same s h))
    | inr other ↦ rw other (late-Handled err s h)
  ]

  pub global_except_handle-Handled :
      (p : Panic) (s : State W)
      → IsConsistent s.nacos.status
      → Handled s.nacos.status (global_except_handle services p s).1.nacos.status
  unfolding global_except_handle
  global_except_handle-Handled (my_error err) s h = handle_err-Handled err s h
  global_except_handle-Handled (api_error e) s h = inl (refl, refl, refl)
  global_except_handle-Handled (runtime_error text) s h = inl (refl, refl, refl)
