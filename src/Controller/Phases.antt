-- ===== src/Controller/Phases.antt =====
-- The machine of phases that a reconcile refines, and the statuses that are reached through it.
use nacos_operator.Prelude.{
  ◌≤◌, String, ◌≡◌, ◌≢◌, refl, sym, ap, ◌∙◌, subst, Bool, true, false, ◌⊎◌, inl, inr, Bool-cases,
  List, ◌==◌, eq_iff, length,
}
use nacos_operator.Go.{Outcome, done, panics}
use nacos_operator.Api.{NacosStatus, Event, phase_none, phase_creating, phase_running, phase_failed}
use nacos_operator.Operator.Services.{Services, State}
use nacos_operator.Operator.{update_status}
use nacos_operator.Operator.Unmoved.{KeepsStatus}
use nacos_operator.Controller.Reconciler.{steps, global_except_handle, reconcile_work}
use nacos_operator.Controller.Outcomes.{ends_as, created, steps-creates, handle_normal}
use nacos_operator.Controller.Handled.{
  IsConsistent, Reports, Same, Handled, update_status-Same, global_except_handle-Handled,
}
use nacos_operator.Controller.Ended.{Ended, steps-Ended}

-- The moves of the machine, from the status `before` a reconcile to the one `after` it.
pub data PhaseMove (before after : NacosStatus) (r : Outcome Bool) : Type 0 where
  -- no phase yet
  starts :
      before.phase ≡ phase_none
      → r ≡ done false
      → Reports phase_creating after
      → after.event ≡ before.event
      → PhaseMove before after r
  -- all six steps ended
  runs :
      before.phase ≢ phase_none
      → r ≡ done true
      → Reports phase_running after
      → PhaseMove before after r
  -- the report itself failed
  unsaved :
      before.phase ≢ phase_none
      → r ≡ done false
      → Reports phase_running after
      → PhaseMove before after r
  -- a step panicked, and that is not reported
  waits : before.phase ≢ phase_none → r ≡ done false → Same before after → PhaseMove before after r
  -- a step panicked, and that is reported
  fails :
      before.phase ≢ phase_none
      → r ≡ done false
      → Reports phase_failed after
      → PhaseMove before after r

Same-trans : (a b c : NacosStatus) → Same a b → Same b c → Same a c
Same-trans a b c (p, q, r) (p', q', r') = (p' ∙ p, q' ∙ q, r' ∙ r)

pub Same-IsConsistent : (a b : NacosStatus) → Same a b → IsConsistent a → IsConsistent b
Same-IsConsistent a b (p, q, r) (h, l) = (
  q ∙ h ∙ ap (λ (x : String). x == phase_running) (sym p),
  subst (λ (es : List Event). length es ≤ 11) (sym r) l,
)

Same-Reports : (phase : String) (a b : NacosStatus) → Same a b → Reports phase a → Reports phase b
Same-Reports phase a b (p, q, r) (e, h) = (p ∙ e, Same-IsConsistent a b (p, q, r) h)

module _ {W : Type 0} (services : Services W) (law : KeepsStatus services) where
  -- The move that the end of a reconcile `x` makes.
  abbrev Moves : State W → Outcome Bool × State W → Type 0
  Moves s x = PhaseMove s.nacos.status x.1.nacos.status x.0

  Handled-Moves :
      (s s' s'' : State W)
      → s.nacos.status.phase ≢ phase_none
      → Same s.nacos.status s'.nacos.status ⊎ Reports phase_running s'.nacos.status
      → Handled services law s'.nacos.status s''.nacos.status
      → Moves s (done false, s'')
  Handled-Moves s s' s'' ne (inl same) (inl kept) =
      waits ne refl (Same-trans s.nacos.status s'.nacos.status s''.nacos.status same kept)
  Handled-Moves s s' s'' ne (inr ran) (inl kept) =
      unsaved ne refl (Same-Reports phase_running s'.nacos.status s''.nacos.status kept ran)
  Handled-Moves s s' s'' ne h (inr failed) = fails ne refl failed

  pub ended-IsConsistent :
      (s s' : State W)
      → IsConsistent s.nacos.status
      → Same s.nacos.status s'.nacos.status ⊎ Reports phase_running s'.nacos.status
      → IsConsistent s'.nacos.status
  ended-IsConsistent s s' h (inl same) = Same-IsConsistent s.nacos.status s'.nacos.status same h
  ended-IsConsistent s s' h (inr ran) = ran.1

  Ended-Moves :
      (s : State W) (r : Outcome (Unit {0}) × State W)
      → s.nacos.status.phase ≢ phase_none
      → IsConsistent s.nacos.status
      → steps services s ≡ r
      → Ended services law s.nacos.status r
      → Moves s (reconcile_work services s)
  Ended-Moves s (done tt, s') ne h e ended =
      subst (Moves s) (sym (ends_as services s (done tt, s') e)) (runs ne refl ended)
  Ended-Moves s (panics p, s') ne h e ended =
      subst (Moves s) (sym (ends_as services s (panics p, s') e)) (
        Handled-Moves s s' (global_except_handle services p s').1 ne ended
          (global_except_handle-Handled services law p s' (ended-IsConsistent s s' h ended)))

  starts-Moves :
      (s : State W)
      → s.nacos.status.phase ≡ phase_none
      → IsConsistent s.nacos.status
      → Moves s (reconcile_work services s)
  starts-Moves s none_yet h =
      let s1 : State W = created services s in
      let kept : Same s1.nacos.status (update_status services s1).1.nacos.status =
        update_status-Same services law s1 (refl, h.1) in
      let e : reconcile_work services s ≡ (done false, (update_status services s1).1) =
        ends_as services s _ (steps-creates services s none_yet)
        ∙ ap (λ (x : Outcome (Unit {0}) × State W). (done false, x.1))
            (handle_normal services s1) in
      subst (Moves s) (sym e) (
        starts none_yet refl
          (Same-Reports phase_creating s1.nacos.status (update_status services s1).1.nacos.status
            kept (refl, (refl, h.1)))
          kept.2)

  -- Every reconcile is a move of the machine of phases, and its result is the one of that move: a
  -- resource without a phase becomes `Creating`, with its events as they were; any other becomes
  -- `Running` or `Failed`, or keeps phase, health and events. After each move but the last one the
  -- resource is healthy exactly when it is `Running` and has at most 11 events, and the last one
  -- keeps that. This is for a consistent status, and a server that answers a status update with
  -- the status it was sent.
  pub reconcile_work-PhaseMove :
      (s : State W)
      → IsConsistent s.nacos.status
      → PhaseMove s.nacos.status
          (reconcile_work services s).1.nacos.status
          (reconcile_work services s).0
  reconcile_work-PhaseMove s h = elim (Bool-cases (s.nacos.status.phase == phase_none)) [
    | inl none_yet ↦ starts-Moves s ((eq_iff s.nacos.status.phase phase_none).0 none_yet) h
    | inr other ↦
        Ended-Moves s (steps services s) (λ e. cc ((eq_iff s.nacos.status.phase phase_none).1 e)) h
          refl (steps-Ended services law s other h.1)
  ]
