-- ===== src/Controller/Ended.antt =====
-- How the six steps leave the reported status.
use nacos_operator.Prelude.{
  ◌≤◌, ◌≡◌, refl, sym, subst, false, ◌⊎◌, inl, inr, List, ◌==◌, length, arith,
}
use nacos_operator.Go.{Outcome, done, panics, Go, continue, ◌>>◌, pure}
use nacos_operator.Api.{NacosStatus, Event, phase_none, phase_running}
use nacos_operator.Operator.Services.{Services, State}
use nacos_operator.Operator.{
  update_status_running, pre_check, pg_ensure, rotate_admin, make_ensure, check_and_make_heal,
  operator_update_status,
}
use nacos_operator.Operator.Unmoved.{
  KeepsStatus, pg_ensure-Keeps, rotate_admin-Keeps, make_ensure-Keeps, check_and_make_heal-Keeps,
}
use nacos_operator.Controller.Reconciler.{steps}
use nacos_operator.Controller.Handled.{Reports, Same, running-Reports}

module _ {W : Type 0} (services : Services W) (law : KeepsStatus services) where
  -- How the six steps end on a resource with a phase, whose status was `before`.
  abbrev pub Ended : NacosStatus → Outcome (Unit {0}) × State W → Type 0
  Ended before (done _, s) = Reports phase_running s.nacos.status
  Ended before (panics _, s) = Same before s.nacos.status ⊎ Reports phase_running s.nacos.status

  continue-Ended :
      (before : NacosStatus) (r : Outcome (Unit {0}) × State W)
      (f : Unit {0} → Go (State W) (Unit {0}))
      → Same before r.1.nacos.status
      → ((s : State W) → Same before s.nacos.status → Ended before (f tt s))
      → Ended before (continue r f)
  continue-Ended before (done tt, s) f same next = next s same
  continue-Ended before (panics p, s) f same next = inl same

  last-Ended :
      (before : NacosStatus) (r : Outcome (Unit {0}) × State W)
      → Reports phase_running r.1.nacos.status
      → Ended before (continue r (λ _. pure tt))
  last-Ended before (done tt, s) h = h
  last-Ended before (panics p, s) h = inr h

  report-Ended :
      (before : NacosStatus) (s : State W)
      → length before.event ≤ 11
      → Same before s.nacos.status
      → Ended before ((operator_update_status services >> pure tt) s)
  unfolding operator_update_status
  report-Ended before s bound same = last-Ended before (update_status_running services s) (
      running-Reports services law s
        (subst (λ (es : List Event). length es ≤ 11) (sym same.2) bound))

  pre_check-skips :
      (s : State W)
      → (s.nacos.status.phase == phase_none) ≡ false
      → pre_check services s ≡ (done tt, s)
  unfolding pre_check
  pre_check-skips s h = ground arith

  pub steps-Ended :
      (s : State W)
      → (s.nacos.status.phase == phase_none) ≡ false
      → length s.nacos.status.event ≤ 11
      → Ended s.nacos.status (steps services s)
  unfolding steps
  steps-Ended s h bound =
      let b : NacosStatus = s.nacos.status in
      rw (pre_check-skips s h) (
        continue-Ended b (pg_ensure services s) _
          ((pg_ensure-Keeps services b.phase b.healthy b.event law).at s (refl, refl, refl))
          λ s1 e1.
            continue-Ended b (rotate_admin services s1) _
              ((rotate_admin-Keeps services b.phase b.healthy b.event law).at s1 e1)
              λ s2 e2.
                continue-Ended b (make_ensure services s2) _
                  ((make_ensure-Keeps services b.phase b.healthy b.event).at s2 e2)
                  λ s3 e3.
                    continue-Ended b (check_and_make_heal services s3) _
                      ((check_and_make_heal-Keeps services b.phase b.healthy b.event).at s3 e3)
                      λ s4 e4. report-Ended b s4 bound e4)
