-- ===== src/Operator/Standby.antt =====
-- What is asked of a Postgres server that cannot be written.
use nacos_operator.Prelude.{String, ◌≡◌, refl, Bool, true, false, [], ◌⊎◌, inl, inr}
use nacos_operator.Go.{
  Panic, Reply, ok, fail, Go, Outcome, done, panics, panic, continue, ◌>>=◌, ◌>>◌,
}
use nacos_operator.Operator.Services.{Services, State, on_world}
use nacos_operator.Operator.Pg.{
  check_writable, with_connection, open_connection, statement_or, closing, check_read_only,
  check_recovery, refuse_read_only,
}

module _ {W : Type 0} (services : Services W) where
  -- A server that is in recovery, or whose transactions are read-only.
  abbrev pub IsStandby : Type 0
  IsStandby =
      ((w : W) → (services.postgres.query_in_recovery w).0 ≡ ok true)
      ⊎ ((w : W) → (services.postgres.query_read_only w).0 ≡ ok "on")

  -- `m` panics in every state.
  record Stops {A : Type 0} (m : Go (State W) A) : Type 0 where
    at : (s : State W) → (p : Panic) × (s' : State W) × (m s ≡ (panics p, s'))

  Stops-panic : {A : Type 0} (p : Panic) → Stops {A = A} (panic p)
  Stops-panic p = record { at = λ s. (p, s, refl) }

  continue-Stops :
      {A B : Type 0} (r : Outcome A × State W) (f : A → Go (State W) B)
      → ((a : A) → Stops (f a))
      → (p : Panic) × (s : State W) × (continue r f ≡ (panics p, s))
  continue-Stops (done a, s) f kf = (kf a).at s
  continue-Stops (panics p, s) f kf = (p, s, refl)

  Stops-bind :
      {A B : Type 0} (m : Go (State W) A) (f : A → Go (State W) B)
      → ((a : A) → Stops (f a))
      → Stops (m >>= f)
  Stops-bind m f kf = record { at = λ s. continue-Stops (m s) f kf }

  -- `value` is the answer, whatever the world is.
  Stops-answer :
      {A B : Type 0} (call : W → A × W) (value : A) (f : A → Go (State W) B)
      → ((w : W) → (call w).0 ≡ value)
      → Stops (f value)
      → Stops (on_world call >>= f)
  Stops-answer call value f answers kf = record { at = λ s. rw (answers s.world) (kf.at _) }

  refuse_read_only-Stops : (in_recovery : Bool) → Stops (refuse_read_only services in_recovery "on")
  refuse_read_only-Stops true = Stops-panic _
  refuse_read_only-Stops false = Stops-panic _

  check_read_only-Stops : (reply : Reply String) → Stops (check_read_only services true reply)
  check_read_only-Stops (ok ro) = Stops-panic _
  check_read_only-Stops (fail e) = Stops-panic _

  check_recovery-Stops :
      ((w : W) → (services.postgres.query_read_only w).0 ≡ ok "on")
      → (reply : Reply Bool) → Stops (check_recovery services reply)
  check_recovery-Stops h (ok in_recovery) =
      Stops-answer services.postgres.query_read_only (ok "on")
        (check_read_only services in_recovery) h (refuse_read_only-Stops in_recovery)
  check_recovery-Stops h (fail e) = Stops-panic _

  recovery_asked-Stops :
      IsStandby → Stops (on_world services.postgres.query_in_recovery >>= check_recovery services)
  recovery_asked-Stops (inl h) =
      Stops-answer services.postgres.query_in_recovery (ok true) (check_recovery services) h (
        Stops-bind (on_world services.postgres.query_read_only) (check_read_only services true)
          check_read_only-Stops)
  recovery_asked-Stops (inr h) =
      Stops-bind (on_world services.postgres.query_in_recovery) (check_recovery services)
        (check_recovery-Stops h)

  check_writable-Stops : IsStandby → Stops (check_writable services)
  unfolding check_writable
  check_writable-Stops standby =
      Stops-bind (statement_or services "postgres ping failed: %v" "select 1" []) _
        λ pinged. recovery_asked-Stops standby

  closed :
      (work : Go (State W) (Unit {0})) (s s' : State W) (p : Panic)
      → check_writable services s ≡ (panics p, s')
      → closing services (check_writable services >> work) s
        ≡ (panics p, record s' { world = services.postgres.close s'.world })
  closed work s s' p e = rw e refl

  -- On a connection that is open, or could not be opened.
  refused :
      (r : Outcome Unit × State W)
      → IsStandby
      → (p : Panic) × (s' : State W) × ((work : Go (State W) (Unit {0}))
          → continue r (λ opened. closing services (check_writable services >> work))
            ≡ (panics p, s'))
  refused (done a, s) standby =
      let (p, s', e) = (check_writable-Stops standby).at s in
      (p, record s' { world = services.postgres.close s'.world }, λ work. closed work s s' p e)
  refused (panics p, s) standby = (p, s, λ work. refl)

  -- If the server always answers that it is in recovery, or always that transactions are read-only,
  -- a connection ends in a panic that is the same, with the same state, whatever work it was opened
  -- for: the initialisation and the change of a password are never begun.
  pub with_connection-standby :
      IsStandby
      → (s : State W)
      → (p : Panic) × (s' : State W) × ((work : Go (State W) (Unit {0}))
          → with_connection services work s ≡ (panics p, s'))
  unfolding with_connection
  with_connection-standby standby s = refused (open_connection services s) standby
