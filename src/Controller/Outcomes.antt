-- ===== src/Controller/Outcomes.antt =====
-- How a reconcile ends, and what it has written by then.
use nacos_operator.Prelude.{String, ◌≡◌, refl, ap, ◌∙◌, true, false, [], ◌==◌, arith}
use nacos_operator.Errors.{code_normal, new_err}
use nacos_operator.Go.{Outcome, done, panics, my_error}
use nacos_operator.Api.{Nacos, phase_none, phase_creating, phase_running}
use nacos_operator.Operator.Services.{Services, State}
use nacos_operator.Operator.{update_status, pre_check, start_creating}
use nacos_operator.Operator.Sent.{update_status-Sends, Sends}
use nacos_operator.Controller.Reconciler.{steps, global_except_handle, reconcile_work}

module _ {W : Type 0} (services : Services W) where
  -- The end of the work, from the end of the six steps.
  abbrev pub EndsAs : State W → Outcome (Unit {0}) × State W → Type 0
  EndsAs s (done _, s') = reconcile_work services s ≡ (done true, s')
  EndsAs s (panics p, s') =
      reconcile_work services s ≡ (done false, (global_except_handle services p s').1)

  pub ends_as : (s : State W) (r : Outcome (Unit {0}) × State W) → steps services s ≡ r → EndsAs s r
  unfolding reconcile_work
  ends_as s (done tt, s') e = ground arith
  ends_as s (panics p, s') e = ground arith

  -- When the six steps end, the work ends with `true` in the state that they leave. When a step
  -- panics, the work ends with `false` in the state that the handler of panics leaves after it. So
  -- the work itself never panics.
  pub reconcile_work-EndsAs : (s : State W) → EndsAs s (steps services s)
  reconcile_work-EndsAs s = ends_as s (steps services s) refl

  abbrev pub created : State W → State W
  created s = record s { nacos = start_creating services s.nacos }

  pre_check-creates :
      (s : State W)
      → s.nacos.status.phase ≡ phase_none
      → pre_check services s ≡ (panics (my_error (new_err code_normal "" [])), created s)
  unfolding pre_check
  pre_check-creates s h = rw h refl

  pub steps-creates :
      (s : State W)
      → s.nacos.status.phase ≡ phase_none
      → steps services s ≡ (panics (my_error (new_err code_normal "" [])), created s)
  unfolding steps
  steps-creates s h = rw (pre_check-creates s h) refl

  pub handle_normal :
      (s : State W)
      → global_except_handle services (my_error (new_err code_normal "" [])) s
        ≡ update_status services s
  unfolding global_except_handle new_err
  handle_normal s = refl

  -- A reconcile of a resource without a phase ends with `false` after one status update, of the
  -- same specification, with the phase `Creating` and not healthy; nothing else reaches the world.
  pub reconcile_work-creates :
      (s : State W)
      → s.nacos.status.phase ≡ phase_none
      → (sent : Nacos) × Sends services s (reconcile_work services s).1 sent s.world
        × (sent.status.phase ≡ phase_creating)
        × (sent.status.healthy ≡ false)
        × ((reconcile_work services s).0 ≡ done false)
  reconcile_work-creates s h =
      let s' : State W = created s in
      let (sent, (e, a, b), c, d) = update_status-Sends services s' in
      let ends = ends_as s _ (steps-creates s h) in
      (
        sent,
        (ap (λ r. r.1) ends ∙ ap (λ r. r.1) (handle_normal s') ∙ e, a, b),
        c,
        b ∙ ap (λ (p : String). p == phase_running) c,
        ap (λ r. r.0) ends,
      )
