-- ===== src/Controller/Settled.antt =====
-- What a reconcile reports once the three minutes of creation are over.
use nacos_operator.Prelude.{
  ◌+◌, ◌≡◌, ◌≢◌, refl, true, false, ◌⊎◌, inl, inr, Bool-cases, ◌==◌, eq_iff, ltb, int_eq,
}
use nacos_operator.Errors.{code_normal}
use nacos_operator.Go.{Outcome, done, panics, Panic, my_error, api_error, runtime_error}
use nacos_operator.Api.{Nacos, phase_none, phase_creating, phase_running, phase_failed}
use nacos_operator.Operator.Services.{Services, State}
use nacos_operator.Operator.Unmoved.{KeepsStatus}
use nacos_operator.Controller.Reconciler.{steps, global_except_handle, reconcile_work}
use nacos_operator.Controller.Outcomes.{ends_as}
use nacos_operator.Controller.Handled.{IsConsistent, Reports, exception-Reports}
use nacos_operator.Controller.Ended.{Ended, steps-Ended}
use nacos_operator.Controller.Phases.{ended-IsConsistent}

-- The code of an `*errors.Err` that is not `CODE_NORMAL`: the panics that are reported.
abbrev pub IsReportable : Panic → Type 0
IsReportable (my_error err) = int_eq err.code code_normal ≡ false
IsReportable (api_error e) = ⊥
IsReportable (runtime_error text) = ⊥

abbrev pub EndsReportably : Outcome (Unit {0}) → Type 0
EndsReportably (done _) = Unit
EndsReportably (panics p) = IsReportable p

module _ {W : Type 0} (services : Services W) where
  -- Whatever the clock says from now on, it is more than three minutes after the creation.
  abbrev pub IsLate : Nacos → Type 0
  IsLate nacos = (w : W) → ltb (nacos.creation_timestamp + 180) (services.now w).0 ≡ true

  module _ (law : KeepsStatus services) where
    other_phase :
        (s : State W)
        → s.nacos.status.phase ≢ phase_none
        → (s.nacos.status.phase == phase_none) ≡ false
    other_phase s ne = elim (Bool-cases (s.nacos.status.phase == phase_none)) [
      | inl e ↦ absurd (ne ((eq_iff s.nacos.status.phase phase_none).0 e))
      | inr e ↦ e
    ]

    late-Reports :
        (p : Panic) (s : State W)
        → IsReportable p
        → IsLate s.nacos
        → IsConsistent s.nacos.status
        → Reports phase_failed (global_except_handle services p s).1.nacos.status
    unfolding global_except_handle
    late-Reports (my_error err) s code late h =
        rw code (elim (Bool-cases (s.nacos.status.phase == phase_creating)) [
          | inl creating ↦ rw (creating, late s.world) (exception-Reports services law err _ h.1)
          | inr other ↦ rw other (exception-Reports services law err s h.1)
        ])
    late-Reports (api_error e) s impossible late h = elim impossible [ ]
    late-Reports (runtime_error text) s impossible late h = elim impossible [ ]

    Ended-settles :
        (s : State W) (r : Outcome (Unit {0}) × State W)
        → IsConsistent s.nacos.status
        → EndsReportably r.0
        → IsLate r.1.nacos
        → steps services s ≡ r
        → Ended services law s.nacos.status r
        → Reports phase_running (reconcile_work services s).1.nacos.status
          ⊎ Reports phase_failed (reconcile_work services s).1.nacos.status
    Ended-settles s (done tt, s') h reportable late e ended =
        rw (ends_as services s (done tt, s') e) (inl ended)
    Ended-settles s (panics p, s') h reportable late e ended =
        rw (ends_as services s (panics p, s') e)
          (inr (late-Reports p s' reportable late (ended-IsConsistent services law s s' h ended)))

    -- A resource that has a phase is settled by one reconcile once the three minutes are over: its
    -- phase is then `Running` or `Failed`, never `Creating` any more, it is healthy exactly when it
    -- is `Running`, and it has at most 11 events. This is for a consistent status, a server that
    -- answers a status update with the status it was sent, a clock that stays past the three
    -- minutes, and steps that end or panic with an `*errors.Err` whose code is not `CODE_NORMAL`.
    pub reconcile_work-settles :
        (s : State W)
        → IsConsistent s.nacos.status
        → s.nacos.status.phase ≢ phase_none
        → EndsReportably (steps services s).0
        → IsLate (steps services s).1.nacos
        → Reports phase_running (reconcile_work services s).1.nacos.status
          ⊎ Reports phase_failed (reconcile_work services s).1.nacos.status
    reconcile_work-settles s h ne reportable late =
        Ended-settles s (steps services s) h reportable late refl
          (steps-Ended services law s (other_phase s ne) h.1)
