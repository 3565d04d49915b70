-- ===== src/Operator/Session/Ran.antt =====
-- The statements of a session, and what is known of the parts of an operation that ended.
use nacos_operator.Prelude.{
  ℕ, String, ◌≡◌, refl, sym, ap, ◌∙◌, Bool, true, false, List, [], ◌∷◌, ◌++◌, ◌==◌,
}
use nacos_operator.Go.{Panic, Reply, ok, fail, Go, Outcome, done, panic, continue, when}
use nacos_operator.Api.{Nacos}
use nacos_operator.Operator.Services.{Services, State}
use nacos_operator.Operator.Pg.{
  or_system_error, statement_or, check_writable, check_recovery, check_read_only, refuse_read_only,
}

-- A statement, its arguments and the rows that it affected.
pub record Statement : Type 0 where
  pub sql : String
  pub args : List String
  pub affected : ℕ

module _ {W : Type 0} (services : Services W) where
  -- The statements ran one after the other, none of them with an error.
  pub data Ran : List Statement → W → W → Type 0 where
    nothing : {w : W} → Ran [] w w
    then :
        {st : Statement} {rest : List Statement} {w w1 w2 : W}
        → services.postgres.exec st.sql st.args w ≡ (ok st.affected, w1)
        → Ran rest w1 w2
        → Ran (st ∷ rest) w w2

  pub Ran-append :
      {sts more : List Statement} {w w1 w2 : W}
      → Ran sts w w1
      → Ran more w1 w2
      → Ran (sts ++ more) w w2
  Ran-append Ran.nothing rest = rest
  Ran-append (Ran.then e ran) rest = Ran.then e (Ran-append ran rest)

  -- The status update that a finished operation sends after `f` has recorded the time.
  abbrev pub recorded : (ℕ → Nacos → Nacos) → Nacos → W → State W
  recorded f nacos w =
      let (time, w1) = services.now w in
      let ((err, answer), w2) = services.status_update (f time nacos) w1 in
      record { nacos = answer; world = w2 }

  -- The server answered the ping, and then that it is neither in recovery nor read-only.
  pub record IsWritable (w w' : W) : Type 0 where
    pub pinged : W
    pub rows : ℕ
    pub recovered : W
    pub mode : String
    pub ping : services.postgres.exec "select 1" [] w ≡ (ok rows, pinged)
    pub primary : services.postgres.query_in_recovery pinged ≡ (ok false, recovered)
    pub transactions : services.postgres.query_read_only recovered ≡ (ok mode, w')
    pub writes : (mode == "on") ≡ false

  module _ {A B : Type 0} where
    pub or_system_error-done :
        (format : String) (args : List String) (r : Reply A) (f : A → Go (State W) B) (b : B)
        (s s' : State W)
        → continue (or_system_error services format args r s) f ≡ (done b, s')
        → (a : A) × (r ≡ ok a) × (f a s ≡ (done b, s'))
    or_system_error-done format args (ok a) f b s s' h = (a, refl, h)
    or_system_error-done format args (fail e) f b s s' h = cc

  module _ {B : Type 0} where
    answered :
        (format : String) (answer : Reply ℕ × W) (f : ℕ → Go (State W) B) (b : B) (s s' : State W)
        → continue (or_system_error services format [] answer.0 (record s { world = answer.1 })) f
          ≡ (done b, s')
        → (n : ℕ) × (w : W) × (answer ≡ (ok n, w)) × (f n (record s { world = w }) ≡ (done b, s'))
    answered format (ok n, w) f b s s' h = (n, w, refl, h)
    answered format (fail e, w) f b s s' h = cc

    pub statement_or-done :
        (format sql : String) (args : List String) (f : ℕ → Go (State W) B) (b : B) (s s' : State W)
        → continue (statement_or services format sql args s) f ≡ (done b, s')
        → (n : ℕ) × (w : W) × (services.postgres.exec sql args s.world ≡ (ok n, w))
          × (f n (record s { world = w }) ≡ (done b, s'))
    statement_or-done format sql args f b s s' h =
        answered format (services.postgres.exec sql args s.world) f b s s' h

  refused :
      (test : Bool) (p : Panic) (s s' : State W)
      → when test (panic p) s ≡ (done tt, s')
      → (test ≡ false) × (s' ≡ s)
  refused true p s s' h = cc
  refused false p s s' h = (refl, ap (λ (r : Outcome Unit × State W). r.1) (sym h))

  -- The answers of `check_writable`, one after the other.
  reads_write :
      (in_recovery : Bool) (mode : String) (s s' : State W)
      → refuse_read_only services in_recovery mode s ≡ (done tt, s')
      → (in_recovery ≡ false) × ((mode == "on") ≡ false) × (s' ≡ s)
  reads_write true mode s s' h = cc
  reads_write false mode s s' h =
      let (writes, same) = refused (mode == "on") _ s s' h in (refl, writes, same)

  modes :
      (in_recovery : Bool) (answer : Reply String × W) (s s' : State W)
      → check_read_only services in_recovery answer.0 (record s { world = answer.1 })
        ≡ (done tt, s')
      → (mode : String) × (w : W) × (answer ≡ (ok mode, w))
        × (in_recovery ≡ false)
        × ((mode == "on") ≡ false)
        × (s' ≡ record s { world = w })
  modes in_recovery (fail e, w) s s' h = cc
  modes in_recovery (ok mode, w) s s' h =
      let (primary, writes, same) = reads_write in_recovery mode (record s { world = w }) s' h in
      (mode, w, refl, primary, writes, same)

  recoveries :
      (answer : Reply Bool × W) (s s' : State W)
      → check_recovery services answer.0 (record s { world = answer.1 }) ≡ (done tt, s')
      → (w1 : W) × (mode : String) × (w2 : W) × (answer ≡ (ok false, w1))
        × (services.postgres.query_read_only w1 ≡ (ok mode, w2))
        × ((mode == "on") ≡ false)
        × (s' ≡ record s { world = w2 })
  recoveries (fail e, w) s s' h = cc
  recoveries (ok in_recovery, w) s s' h =
      let (mode, w2, answer, primary, writes, same) =
        modes in_recovery (services.postgres.query_read_only w) (record s { world = w }) s' h in
      (w, mode, w2, ap (λ b. (ok b, w)) primary, answer, writes, same)

  pub check_writable-done :
      (s s' : State W)
      → check_writable services s ≡ (done tt, s')
      → IsWritable s.world s'.world × (s'.nacos ≡ s.nacos)
  unfolding check_writable
  check_writable-done s s' h =
      let (n, w, pinged, h1) =
        statement_or-done "postgres ping failed: %v" "select 1" [] _ tt s s' h in
      let (w1, mode, w2, primary, read, writes, same) =
        recoveries (services.postgres.query_in_recovery w) (record s { world = w }) s' h1 in
      (
        record {
          pinged = w;
          rows = n;
          recovered = w1;
          mode = mode;
          ping = pinged;
          primary = primary;
          transactions = read ∙ ap (λ (x : State W). (ok mode, x.world)) (sym same);
          writes = writes;
        },
        ap (λ (x : State W). x.nacos) same,
      )
