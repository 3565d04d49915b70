-- ===== src/Operator/Status.antt =====
-- Status.go: the events, the phase and the digests of a Nacos resource.
use nacos_operator.Prelude.{
  ℕ, String, Bool, true, false, Option, none, some, List, [], ◌∷◌, ◌++◌, ◌==◌, ℤ, pos, int_eq, ltb,
  length, take_chars, if◌then◌else◌,
}
use nacos_operator.Errors.{Err}
use nacos_operator.Go.{KubeError, ok, fail, Go, done, pure, ◌>>=◌, ◌>>◌, ensure_normal}
use nacos_operator.Api.{Nacos, Event, phase_running, phase_failed}
use nacos_operator.Operator.Services.{Services, State, on_world, set_nacos}

abbrev pub event_max_size : ℕ
event_max_size = 10

-- `events[1:]`
abbrev pub drop_first : List Event → List Event
drop_first [] = []
drop_first (e ∷ es) = es

abbrev pub trim : List Event → List Event
trim events = if ltb event_max_size (length events) then drop_first events else events

-- `events[len(events)-1]`
abbrev pub last : List Event → Option Event
last [] = none
last (e ∷ es) = elim (last es) [ none ↦ some e | some f ↦ some f ]

abbrev pub set_last : List Event → Event → List Event
set_last [] f = []
set_last (e ∷ []) f = f ∷ []
set_last (e ∷ d ∷ es) f = e ∷ set_last (d ∷ es) f

module _ {W : Type 0} (services : Services W) where
  abbrev pub now : Go (State W) ℕ
  now = on_world services.now

  abbrev pub set_events : List Event → Go (State W) (Unit {0})
  set_events events =
      set_nacos (λ nacos. record nacos { status = record nacos.status { event = events } })

  -- The list was empty: its first event has no status.
  abbrev pub first_event : ℤ → String → Go (State W) (Unit {0})
  first_event code msg = do
    first ← now
    transition ← now
    set_events (
        record {
          status = false;
          first_appear_time = first;
          last_transition_time = transition;
          message = msg;
          code = code;
        }
        ∷ [])

  abbrev pub after_event : List Event → ℤ → String → Bool → Event → Go (State W) (Unit {0})
  after_event events code msg status event =
      if int_eq event.code code
      then (do
        transition ← now
        set_events
            (set_last events (record event { last_transition_time = transition; message = msg })))
      else (do
        transition ← now
        first ← now
        set_events (
            events
            ++ record {
              status = status;
              first_appear_time = first;
              last_transition_time = transition;
              message = msg;
              code = code;
            }
              ∷ []))

  abbrev pub add_event : List Event → ℤ → String → Bool → Option Event → Go (State W) (Unit {0})
  add_event events code msg status none = first_event code msg
  add_event events code msg status (some event) = after_event events code msg status event

  unfoldable pub update_last_event : ℤ → String → Bool → Go (State W) (Unit {0})
  update_last_event code msg status s =
      let events = trim s.nacos.status.event in add_event events code msg status (last events) s

  unfoldable pub sync_healthy : Nacos → Nacos
  sync_healthy nacos = record nacos {
    status = record nacos.status { healthy = nacos.status.phase == phase_running };
  }

  unfoldable pub sync_version_digest : Nacos → Nacos
  sync_version_digest nacos = elim (services.marshal_spec nacos.spec) [
    | fail _ ↦ nacos
    | ok json ↦ record nacos {
      status = record nacos.status { version_digest = take_chars 10 (services.sha256_hex json) };
    }
  ]

  abbrev pub set_phase : String → Nacos → Nacos
  set_phase phase nacos = record nacos { status = record nacos.status { phase = phase } }

  -- Status().Update, which also writes the answer into the object.
  abbrev pub call_status_update : Go (State W) (Option KubeError)
  call_status_update s =
      let ((err, nacos), w) = services.status_update s.nacos s.world in
      (done err, record { nacos = nacos; world = w })

  abbrev pub synced : Nacos → Nacos
  synced nacos = sync_version_digest (sync_healthy nacos)

  unfoldable pub update_status_running : Go (State W) (Unit {0})
  unfolding update_last_event sync_healthy sync_version_digest
  update_status_running = do
    update_last_event (pos 200) "" true
    set_nacos (set_phase phase_running)
    set_nacos synced
    err ← call_status_update
    ensure_normal err

  unfoldable pub update_status : Go (State W) (Unit {0})
  unfolding sync_healthy sync_version_digest
  update_status = do set_nacos synced; err ← call_status_update; ensure_normal err

  -- An error of the update is only logged.
  unfoldable pub update_exception_status : Err → Go (State W) (Unit {0})
  unfolding update_last_event sync_healthy sync_version_digest
  update_exception_status err = do
    update_last_event err.code err.msg false
    set_nacos (set_phase phase_failed)
    set_nacos synced
    logged ← call_status_update
    pure tt
