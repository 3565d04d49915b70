-- ===== src/Controller/Reached.antt =====
-- The statuses that a resource has after one reconcile or more, whatever its owner and the rest of
-- the world do in between.
use nacos_operator.Prelude.{
  String, ◌≡◌, refl, sym, ap, ◌∙◌, subst, Bool, true, false, ◌||◌, ◌⊎◌, inl, inr, [], ◌==◌, arith,
}
use nacos_operator.Go.{Outcome}
use nacos_operator.Api.{Nacos, NacosStatus, phase_none, phase_creating, phase_running, phase_failed}
use nacos_operator.Operator.Services.{Services}
use nacos_operator.Operator.Unmoved.{KeepsStatus}
use nacos_operator.Controller.Reconciler.{reconcile_work}
use nacos_operator.Controller.Handled.{IsConsistent, Reports}
use nacos_operator.Controller.Phases.{
  PhaseMove, starts, runs, unsaved, waits, fails, reconcile_work-PhaseMove, Same-IsConsistent,
}

-- A resource that no reconcile has seen.
pub record IsNew (s : NacosStatus) : Type 0 where
  pub phase : s.phase ≡ phase_none
  pub healthy : s.healthy ≡ false
  pub event : s.event ≡ []

-- One of the three phases that are reported.
abbrev pub is_reported : String → Bool
is_reported p = p == phase_creating || p == phase_running || p == phase_failed

module _ {W : Type 0} (services : Services W) where
  -- The status that a reconcile leaves.
  abbrev pub reconciled : Nacos → W → NacosStatus
  reconciled nacos w =
      (reconcile_work services (record { nacos = nacos; world = w })).1.nacos.status

  -- Between two reconciles all but the status may change.
  pub data Reached : NacosStatus → Type 0 where
    first :
        {after : NacosStatus} (nacos : Nacos) (w : W)
        → IsNew nacos.status
        → after ≡ reconciled nacos w
        → Reached after
    again :
        {before after : NacosStatus}
        → Reached before
        → (nacos : Nacos) (w : W) → nacos.status ≡ before
        → after ≡ reconciled nacos w
        → Reached after

IsNew-IsConsistent : (s : NacosStatus) → IsNew s → IsConsistent s
IsNew-IsConsistent s n =
    (n.healthy ∙ ap (λ (p : String). p == phase_running) (sym n.phase), ground arith)

-- What holds of a reached status.
abbrev pub IsReported : NacosStatus → Type 0
IsReported s = IsConsistent s × (is_reported s.phase ≡ true)

Reports-IsReported :
    (phase : String) (s : NacosStatus) → is_reported phase ≡ true → Reports phase s → IsReported s
Reports-IsReported phase s h (e, c) = (c, ap is_reported e ∙ h)

PhaseMove-IsReported :
    (before after : NacosStatus) (r : Outcome Bool)
    → IsConsistent before
    → (before.phase ≡ phase_none) ⊎ (is_reported before.phase ≡ true)
    → PhaseMove before after r
    → IsReported after
PhaseMove-IsReported b a r h k (starts e q h' es) = Reports-IsReported phase_creating a refl h'
PhaseMove-IsReported b a r h k (runs ne q h') = Reports-IsReported phase_running a refl h'
PhaseMove-IsReported b a r h k (unsaved ne q h') = Reports-IsReported phase_running a refl h'
PhaseMove-IsReported b a r h k (fails ne q h') = Reports-IsReported phase_failed a refl h'
PhaseMove-IsReported b a r h (inl e) (waits ne q same) = absurd (ne e)
PhaseMove-IsReported b a r h (inr known) (waits ne q same) =
    (Same-IsConsistent b a same h, ap is_reported same.0 ∙ known)

module _ {W : Type 0} (services : Services W) (law : KeepsStatus services) where
  -- Every status that is reached has one of the phases `Creating`, `Running` and `Failed`, is healthy
  -- exactly when it is `Running`, and has at most 11 events, if the server answers a status update
  -- with the status it was sent.
  pub Reached-IsReported : {s : NacosStatus} → Reached services s → IsReported s
  Reached-IsReported (first nacos w new e) = subst IsReported (sym e) (
      PhaseMove-IsReported nacos.status (reconciled services nacos w) _
        (IsNew-IsConsistent nacos.status new) (inl new.phase)
        (reconcile_work-PhaseMove services law (record { nacos = nacos; world = w })
          (IsNew-IsConsistent nacos.status new)))
  Reached-IsReported (again before nacos w same e) =
      let h : IsReported nacos.status = subst IsReported (sym same) (Reached-IsReported before) in
      subst IsReported (sym e) (
        PhaseMove-IsReported nacos.status (reconciled services nacos w) _ h.0 (inr h.1)
          (reconcile_work-PhaseMove services law (record { nacos = nacos; world = w }) h.0))
