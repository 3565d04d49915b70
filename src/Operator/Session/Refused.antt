-- ===== src/Operator/Session/Refused.antt =====
-- An operation on the database that panics leaves the resource as it was.
use nacos_operator.Prelude.{ℕ, String, ◌≡◌, refl, ap, subst, ◌⊎◌, inl, inr, Bool, true, false}
use nacos_operator.Go.{Panic, Go, Outcome, done, panics, continue, pure, when, ◌>>=◌, ◌>>◌}
use nacos_operator.Api.{Nacos}
use nacos_operator.Operator.Services.{Services, State, set_nacos}
use nacos_operator.Operator.Status.{call_status_update, now}
use nacos_operator.Operator.Pg.{
  open_connection, check_writable, initialize, initialize_if_needed, ping_and_init, rotate,
  rotate_admin_password, with_connection, closing,
}
use nacos_operator.Operator.Keeps.{Keeps}
use nacos_operator.Operator.Session.Opened.{
  pg_rules, read_admin_secret-Keeps, open_connection-Keeps, check_writable-Keeps,
}

-- `Q` holds of the resource that `m` leaves by a panic, if it holds before.
pub record Refuses {W A : Type 0} (Q : Nacos → Type 0) (m : Go (State W) A) : Type 0 where
  pub at : (s s' : State W) (p : Panic) → Q s.nacos → m s ≡ (panics p, s') → Q s'.nacos

module _ {W : Type 0} {Q : Nacos → Type 0} where
  continue-Refuses :
      {A B : Type 0} (r : Outcome A × State W) (f : A → Go (State W) B) (s' : State W) (p : Panic)
      → Q r.1.nacos
      → ((a : A) → Refuses Q (f a))
      → continue r f ≡ (panics p, s')
      → Q s'.nacos
  continue-Refuses (done a, s) f s' p h kf e = (kf a).at s s' p h e
  continue-Refuses (panics q, s) f s' p h kf e =
      subst (λ (r : Outcome _ × State W). Q r.1.nacos) e h

  Refuses-bind :
      {A B : Type 0} (m : Go (State W) A) (f : A → Go (State W) B)
      → Keeps (λ (s : State W). Q s.nacos) m
      → ((a : A) → Refuses Q (f a))
      → Refuses Q (m >>= f)
  Refuses-bind m f km kf = record {
    at = λ s s' p h e. continue-Refuses (m s) f s' p (km.at s h) kf e;
  }

  Refuses-when : (b : Bool) (m : Go (State W) (Unit {0})) → Refuses Q m → Refuses Q (when b m)
  Refuses-when true m km = km
  Refuses-when false m km = record { at = λ s s' p h e. cc }

  ruleset refuse_rules = (Refuses-bind, Refuses-when, pg_rules)

  module _ (services : Services W) where
    -- The end of both operations, where an error of the status update is ignored.
    recorded-Refuses :
        (f : ℕ → Nacos → Nacos)
        → Refuses Q (do
          time ← now services
          set_nacos (f time)
          logged ← call_status_update services
          pure tt)
    recorded-Refuses f = record { at = λ s s' p h e. cc }

    closing-Refuses : (m : Go (State W) (Unit {0})) → Refuses Q m → Refuses Q (closing services m)
    closing-Refuses m km = record {
      at = λ s s' p h e.
          subst Q (ap (λ (r : Outcome Unit × State W). r.1.nacos) e)
            (km.at s (m s).1 p h (ap (λ (r : Outcome Unit × State W). (r.0, (m s).1)) e));
    }

    with_connection-Refuses :
        (work : Go (State W) (Unit {0}))
        → Refuses Q work
        → Refuses Q (with_connection services work)
    unfolding with_connection
    with_connection-Refuses work kw =
        Refuses-bind (open_connection services) _ (open_connection-Keeps services λ s w h. h)
          λ opened. closing-Refuses (check_writable services >> work) (
            Refuses-bind (check_writable services) _ (check_writable-Keeps services λ s w h. h)
              λ ready. kw)

    initialize-Refuses : Refuses Q (initialize services)
    unfolding initialize
    initialize-Refuses = search (refuse_rules, recorded-Refuses) depth 30

    rotate-Refuses :
        (user hash version sum : String) → Refuses Q (rotate services user hash version sum)
    unfolding rotate
    rotate-Refuses user hash version sum = search (refuse_rules, recorded-Refuses) depth 30

    ping_and_init-Refuses : Refuses Q (ping_and_init services)
    unfolding ping_and_init initialize_if_needed
    ping_and_init-Refuses =
        search (refuse_rules, with_connection-Refuses, initialize-Refuses) depth 9

    rotate_admin_password-Refuses : Refuses Q (rotate_admin_password services)
    unfolding rotate_admin_password
    rotate_admin_password-Refuses =
        search (refuse_rules, read_admin_secret-Keeps, with_connection-Refuses, rotate-Refuses)
          depth 12

module _ {W : Type 0} (services : Services W) where
  -- If one of the two operations on the database panics, the resource is as it was: no
  -- initialisation and no rotation is recorded.
  pub failed_session-records_nothing :
      (s s' : State W) (p : Panic)
      → (ping_and_init services s ≡ (panics p, s'))
        ⊎ (rotate_admin_password services s ≡ (panics p, s'))
      → s'.nacos ≡ s.nacos
  failed_session-records_nothing s s' p (inl e) =
      (ping_and_init-Refuses {Q = λ n. n ≡ s.nacos} services).at s s' p refl e
  failed_session-records_nothing s s' p (inr e) =
      (rotate_admin_password-Refuses {Q = λ n. n ≡ s.nacos} services).at s s' p refl e
