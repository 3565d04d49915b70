-- ===== src/Operator/Sent.antt =====
-- What the status operations send to the API server.
use nacos_operator.Prelude.{
  String, ◌≡◌, refl, sym, ap, ◌∙◌, Bool, true, false, Option, none, some, List, ◌==◌, ℤ, pos,
  int_eq, inl, inr, Bool-cases, arith,
}
use nacos_operator.Errors.{Err}
use nacos_operator.Go.{done, KubeError, ensure_normal}
use nacos_operator.Api.{Nacos, Event, phase_running, phase_failed}
use nacos_operator.Operator.Services.{Services, State}
use nacos_operator.Operator.Status.{
  update_last_event, update_status_running, update_status, update_exception_status, trim, last,
  add_event, sync_healthy, sync_version_digest, set_phase, synced,
}

module _ {W : Type 0} (services : Services W) where
  -- The state that Status().Update leaves when it is called on `sent`.
  abbrev pub answered : Nacos → W → State W
  answered sent w =
      let ((err, nacos), w') = services.status_update sent w in record { nacos = nacos; world = w' }

  -- The operation ends in one call of Status().Update, in the world `w`, on an object of the same
  -- specification whose health is its phase.
  abbrev pub Sends : State W → State W → Nacos → W → Type 0
  Sends before after sent w =
      (after ≡ answered sent w)
      × (sent.spec ≡ before.nacos.spec)
      × (sent.status.healthy ≡ (sent.status.phase == phase_running))

  ensure_normal-state : (err : Option KubeError) (s : State W) → (ensure_normal err s).1 ≡ s
  unfolding ensure_normal
  ensure_normal-state none s = refl
  ensure_normal-state (some e) s = refl

  synced_lem :
      (n : Nacos)
      → ((synced services n).spec ≡ n.spec)
        × ((synced services n).status.phase ≡ n.status.phase)
        × ((synced services n).status.event ≡ n.status.event)
        × ((synced services n).status.healthy ≡ (n.status.phase == phase_running))
  unfolding sync_healthy sync_version_digest
  synced_lem n = ground arith

  add_event-keeps :
      (es : List Event) (code : ℤ) (msg : String) (status : Bool) (o : Option Event) (s : State W)
      → ((add_event services es code msg status o s).0 ≡ done tt)
        × ((add_event services es code msg status o s).1.nacos.spec ≡ s.nacos.spec)
        × ((add_event services es code msg status o s).1.nacos.status.phase ≡ s.nacos.status.phase)
  add_event-keeps es code msg status none s = (refl, refl, refl)
  add_event-keeps es code msg status (some d) s = elim (Bool-cases (int_eq d.code code)) [
    | inl same ↦ rw same (refl, refl, refl)
    | inr other ↦ rw other (refl, refl, refl)
  ]

  update_last_event-keeps :
      (code : ℤ) (msg : String) (status : Bool) (s : State W)
      → ((update_last_event services code msg status s).0 ≡ done tt)
        × ((update_last_event services code msg status s).1.nacos.spec ≡ s.nacos.spec)
        × ((update_last_event services code msg status s).1.nacos.status.phase
            ≡ s.nacos.status.phase)
  unfolding update_last_event
  update_last_event-keeps code msg status s =
      add_event-keeps (trim s.nacos.status.event) code msg status (last (trim s.nacos.status.event))
        s

  -- The state on which `update_status_running` and `update_exception_status` call Status().Update.
  abbrev reported : String → ℤ → String → Bool → State W → State W
  reported phase code msg status s =
      let s' = (update_last_event services code msg status s).1 in
      record s' { nacos = synced services (set_phase services phase s'.nacos) }

  finish_reported :
      (phase : String) (code : ℤ) (msg : String) (status : Bool) (s : State W)
      → let r = reported phase code msg status s in
        (r.nacos.spec ≡ s.nacos.spec)
        × (r.nacos.status.phase ≡ phase)
        × (r.nacos.status.healthy ≡ (r.nacos.status.phase == phase_running))
        × (r.nacos.status.event
            ≡ (update_last_event services code msg status s).1.nacos.status.event)
  finish_reported phase code msg status s =
      let s' : State W = (update_last_event services code msg status s).1 in
      let n : Nacos = set_phase services phase s'.nacos in
      let (a, b, c, d) = synced_lem n in
      let (e, f, g) = update_last_event-keeps code msg status s in
      (a ∙ f, b, d ∙ ap (λ (p : String). p == phase_running) (sym b), c)

  -- The end that both operations share.
  send_reported :
      (phase : String) (code : ℤ) (msg : String) (status : Bool) (s after : State W)
      → after
        ≡ answered (reported phase code msg status s).nacos (reported phase code msg status s).world
      → (sent : Nacos) × Sends s after sent (update_last_event services code msg status s).1.world
        × (sent.status.phase ≡ phase)
        × (sent.status.event ≡ (update_last_event services code msg status s).1.nacos.status.event)
  send_reported phase code msg status s after e =
      let r : State W = reported phase code msg status s in
      let (a, b, c, d) = finish_reported phase code msg status s in (r.nacos, (e, a, c), b, d)

  -- The operation ends in one status update, in the world that `update_last_event`
  -- leaves, of an object of the same specification, in the phase
  -- `Running`, healthy, with the events that `update_last_event` makes of the code 200.
  pub update_status_running-Sends :
      (s : State W)
      → (sent : Nacos) × Sends s
          (update_status_running services s).1
          sent
          (update_last_event services (pos 200) "" true s).1.world
        × (sent.status.phase ≡ phase_running)
        × (sent.status.event
            ≡ (update_last_event services (pos 200) "" true s).1.nacos.status.event)
  unfolding update_status_running
  update_status_running-Sends s = send_reported phase_running (pos 200) "" true s _ (
      ground (
        arith,
        (update_last_event-keeps (pos 200) "" true s).0,
        ensure_normal-state
            (services.status_update (reported phase_running (pos 200) "" true s).nacos
              (reported phase_running (pos 200) "" true s).world).0.0
            (answered (reported phase_running (pos 200) "" true s).nacos
              (reported phase_running (pos 200) "" true s).world),
      ))

  -- Whatever the error, the operation does not panic, and ends in one status update, in the world that `update_last_event`
  -- leaves, of an object
  -- of the same specification, in the phase `Failed`, not healthy, with the events that
  -- `update_last_event` makes of the error.
  pub update_exception_status-Sends :
      (err : Err) (s : State W)
      → ((update_exception_status services err s).0 ≡ done tt)
        × ((sent : Nacos) × Sends s
              (update_exception_status services err s).1
              sent
              (update_last_event services err.code err.msg false s).1.world
            × (sent.status.phase ≡ phase_failed)
            × (sent.status.event
                ≡ (update_last_event services err.code err.msg false s).1.nacos.status.event))
  unfolding update_exception_status
  update_exception_status-Sends err s = (
    ground (arith, (update_last_event-keeps err.code err.msg false s).0),
    send_reported phase_failed err.code err.msg false s _
        (ground (arith, (update_last_event-keeps err.code err.msg false s).0)),
  )

  pub update_status-Sends :
      (s : State W)
      → (sent : Nacos) × Sends s (update_status services s).1 sent s.world
        × (sent.status.phase ≡ s.nacos.status.phase)
        × (sent.status.event ≡ s.nacos.status.event)
  unfolding update_status
  update_status-Sends s =
      let (a, b, c, d) = synced_lem s.nacos in
      (
        synced services s.nacos,
        (
          ensure_normal-state (services.status_update (synced services s.nacos) s.world).0.0
              (answered (synced services s.nacos) s.world),
          a,
          d ∙ ap (λ (p : String). p == phase_running) (sym b),
        ),
        b,
        c,
      )
