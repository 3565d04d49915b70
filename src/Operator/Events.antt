-- ===== src/Operator/Events.antt =====
-- The event list of a resource, and the status that is sent to the API server.
use nacos_operator.Prelude.{
  ℕ, zero, suc, ◌≤◌, String, ◌≡◌, refl, Bool, true, false, Option, none, some, List, [], ◌∷◌, ◌++◌,
  ℤ, int_eq, length, length-append, arith, inl, inr, Bool-cases,
}
use nacos_operator.Api.{Event}
use nacos_operator.Operator.Services.{Services, State}
use nacos_operator.Operator.Status.{update_last_event, trim, last, set_last, add_event}

last-append : (es : List Event) (e : Event) → last (es ++ e ∷ []) ≡ some e
last-append [] e = refl
last-append (d ∷ es) e = ground (arith, last-append es e)

last-some : (b : Event) (es : List Event) → (f : Event) × (last (b ∷ es) ≡ some f)
last-some b [] = (b, refl)
last-some b (c ∷ es) = let (f, h) = last-some c es in (f, rw h refl)

last-set_last : (es : List Event) (d e : Event) → last es ≡ some d → last (set_last es e) ≡ some e
last-set_last [] d e h = cc
last-set_last (a ∷ []) d e h = refl
last-set_last (a ∷ b ∷ es) d e h =
    ground (arith, last-some b es, last-set_last (b ∷ es) (last-some b es).0 e (last-some b es).1)

length-set_last : (es : List Event) (e : Event) → length (set_last es e) ≡ length es
length-set_last [] e = refl
length-set_last (a ∷ []) e = refl
length-set_last (a ∷ b ∷ es) e = omega (arith, length-set_last (b ∷ es) e)

length-trim : (es : List Event) → length es ≤ 11 → length (trim es) ≤ 10
length-trim [] h = omega arith
length-trim (e ∷ es) h = ground arith

int_eq_refl : (z : ℤ) → int_eq z z ≡ true
int_eq_refl z = ground arith

-- `e` is the last of the events, and records the code and the message.
abbrev pub Records : List Event → ℤ → String → Event → Type 0
Records es code msg e = (last es ≡ some e) × (int_eq e.code code ≡ true) × (e.message ≡ msg)

module _ {W : Type 0} (services : Services W) where
  add_event-Records :
      (es : List Event) (code : ℤ) (msg : String) (status : Bool) (o : Option Event) (s : State W)
      → last es ≡ o
      → (e : Event) × Records
          (add_event services es code msg status o s).1.nacos.status.event
          code
          msg
          e
  add_event-Records es code msg status none s h = (_, (refl, int_eq_refl code, refl))
  add_event-Records es code msg status (some d) s h = elim (Bool-cases (int_eq d.code code)) [
    | inl same ↦ rw same (_, (last-set_last es d _ h, same, refl))
    | inr other ↦ rw other (_, (last-append es _, int_eq_refl code, refl))
  ]

  -- Whatever the list was, its last event then has the code and the message of the call.
  pub update_last_event-Records :
      (code : ℤ) (msg : String) (status : Bool) (s : State W)
      → (e : Event) × Records
          (update_last_event services code msg status s).1.nacos.status.event
          code
          msg
          e
  unfolding update_last_event
  update_last_event-Records code msg status s =
      add_event-Records (trim s.nacos.status.event) code msg status
        (last (trim s.nacos.status.event)) s refl

  add_event-length :
      (es : List Event) (code : ℤ) (msg : String) (status : Bool) (o : Option Event) (s : State W)
      → length es ≤ 10
      → length (add_event services es code msg status o s).1.nacos.status.event ≤ 11
  add_event-length es code msg status none s h = omega arith
  add_event-length es code msg status (some d) s h = elim (Bool-cases (int_eq d.code code)) [
    | inl same ↦ rw same (rw length-set_last (omega arith))
    | inr other ↦ rw other (rw length-append (omega arith))
  ]

  -- A list of at most 11 events, one above `event_max_size`, has at most 11 after the call.
  pub update_last_event-bounded :
      (code : ℤ) (msg : String) (status : Bool) (s : State W)
      → length s.nacos.status.event ≤ 11
      → length (update_last_event services code msg status s).1.nacos.status.event ≤ 11
  unfolding update_last_event
  update_last_event-bounded code msg status s h =
      add_event-length (trim s.nacos.status.event) code msg status
        (last (trim s.nacos.status.event)) s (length-trim s.nacos.status.event h)

  -- The last event, if there is one, has the code and the status `false`.
  abbrev pub StuckAt : ℤ → List Event → Type 0
  StuckAt code es =
      (e : Event) × (last es ≡ some e) × (int_eq e.code code ≡ true) × (e.status ≡ false)

  trim-last : (es : List Event) (e : Event) → last es ≡ some e → last (trim es) ≡ some e
  trim-last [] e h = h
  trim-last (d ∷ []) e h = h
  trim-last (d ∷ f ∷ es) e h = ground (arith, last-some f es)

  -- `n` reports of one outcome, one after the other.
  abbrev pub report : ℕ → ℤ → String → State W → State W
  report zero code msg s = s
  report (suc n) code msg s = report n code msg (update_last_event services code msg true s).1

  report-StuckAt :
      (n : ℕ) (code : ℤ) (msg : String) (s : State W)
      → StuckAt code s.nacos.status.event
      → StuckAt code (report n code msg s).nacos.status.event
  unfolding update_last_event
  report-StuckAt zero code msg s h = h
  report-StuckAt (suc n) code msg s (e, found, same, stuck) = report-StuckAt n code msg _ (
      unfold update_last_event in
      rw (trim-last s.nacos.status.event e found, same)
        (
          _,
          last-set_last (trim s.nacos.status.event) e _ (trim-last s.nacos.status.event e found),
          same,
          stuck,
        ))

  -- From an empty list, one or more reports of one code with the status `true` leave a last event
  -- with that code and the status `false`.
  pub report-status_lost :
      (n : ℕ) (code : ℤ) (msg : String) (s : State W)
      → s.nacos.status.event ≡ []
      → StuckAt code (report (suc n) code msg s).nacos.status.event
  unfolding update_last_event
  report-status_lost n code msg s h =
      report-StuckAt n code msg _ (rw h (_, refl, int_eq_refl code, refl))
