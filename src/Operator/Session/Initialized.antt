-- ===== src/Operator/Session/Initialized.antt =====
-- What has happened when an initialisation of the database ends.
use nacos_operator.Prelude.{
  ℕ, String, ◌≡◌, refl, sym, ap, ◌∙◌, Bool, true, false, List, [], ◌∷◌, ◌==◌, ◌+++◌, ℤ, itoa, not,
  ◌&&◌,
}
use nacos_operator.Go.{ok, Outcome, done, when}
use nacos_operator.Api.{Nacos}
use nacos_operator.Operator.Services.{Services, State}
use nacos_operator.Operator.Pg.{
  initialize, initialize_if_needed, ping_and_init, init_sql_path, desired_version, pg_initialized,
}
use nacos_operator.Operator.Inversion.{when-panic-done}
use nacos_operator.Operator.Session.Ran.{
  Statement, Ran, recorded, or_system_error-done, statement_or-done,
}
use nacos_operator.Operator.Session.Worked.{Worked, with_connection-Worked}

abbrev statement : String → ℕ → Statement
statement sql affected = record { sql = sql; args = []; affected = affected }

-- The script and the three statements on the table of the version.
abbrev pub initial_statements : String → ℤ → (script table cleared written : ℕ) → List Statement
initial_statements sql version script table cleared written =
    statement sql script
    ∷ statement
        "CREATE TABLE IF NOT EXISTS \"nacos_schema_version\" (version int NOT NULL PRIMARY KEY, updated_at timestamptz NOT NULL DEFAULT now())"
        table
    ∷ statement "DELETE FROM \"nacos_schema_version\";" cleared
    ∷ statement ("INSERT INTO \"nacos_schema_version\"(version) VALUES (" +++ itoa version +++ ")")
        written
    ∷ []

module _ {W : Type 0} (services : Services W) where
  -- The script of the release was read and is not empty; it and the three statements ran without an
  -- error, in this order; then the success was recorded.
  pub record IsInitialized (s s' : State W) : Type 0 where
    pub sql : String
    pub script : ℕ
    pub table : ℕ
    pub cleared : ℕ
    pub written : ℕ
    pub ended : W
    pub reads : services.read_file (init_sql_path services) s.world ≡ ok sql
    pub fills : (sql == "") ≡ false
    pub ran :
        Ran services
          (initial_statements sql
            (desired_version services s.nacos.spec.pg_init.schema_version)
            script
            table
            cleared
            written)
          s.world
          ended
    pub records :
        s'
        ≡ recorded services
            (pg_initialized services (desired_version services s.nacos.spec.pg_init.schema_version))
            s.nacos
            ended

  initialize-done : (s s' : State W) → initialize services s ≡ (done tt, s') → IsInitialized s s'
  unfolding initialize
  initialize-done s s' h =
      let (sql, reads, h1) =
        or_system_error-done services "read init sql failed from %s: %v"
          (init_sql_path services ∷ []) (services.read_file (init_sql_path services) s.world) _ tt s
          s' h in
      let (fills, h2) = when-panic-done (sql == "") _ _ tt s s' h1 in
      let (n1, w1, e1, h3) = statement_or-done services _ sql [] _ tt s s' h2 in
      let (n2, w2, e2, h4) =
        statement_or-done services _ _ [] _ tt (record s { world = w1 }) s' h3 in
      let (n3, w3, e3, h5) =
        statement_or-done services _ _ [] _ tt (record s { world = w2 }) s' h4 in
      let (n4, w4, e4, h6) =
        statement_or-done services _ _ [] _ tt (record s { world = w3 }) s' h5 in
      record {
        sql = sql;
        script = n1;
        table = n2;
        cleared = n3;
        written = n4;
        ended = w4;
        reads = reads;
        fills = fills;
        ran = Ran.then e1 (Ran.then e2 (Ran.then e3 (Ran.then e4 Ran.nothing)));
        records = ap (λ (r : Outcome Unit × State W). r.1) (sym h6);
      }

  needed :
      (b : Bool) (s s' : State W)
      → b ≡ true
      → when b (initialize services) s ≡ (done tt, s')
      → IsInitialized s s'
  needed true s s' e h = initialize-done s s' h
  needed false s s' e h = cc

  if_needed :
      (s s' : State W)
      → s.nacos.spec.pg_init.enabled ≡ true
      → s.nacos.status.pg.initialized ≡ false
      → initialize_if_needed services s ≡ (done tt, s')
      → IsInitialized s s'
  unfolding initialize_if_needed
  if_needed s s' enabled fresh h =
      needed (s.nacos.spec.pg_init.enabled && not s.nacos.status.pg.initialized) s s'
        (rw (enabled, fresh) refl) h

  -- If the operation ends, for a resource whose initialisation is enabled and not recorded, whatever
  -- the policy of its initialisation, then it opened a connection, the server had just answered that
  -- it is neither in recovery nor read-only, the script that was read, which is not empty, and the
  -- statements that create the table of versions, clear it and insert the version ran one after the
  -- other without an error, and only then the success was recorded and sent, and the connection
  -- closed.
  pub ping_and_init-IsInitialized :
      (s s' : State W)
      → s.nacos.spec.pg_init.enabled ≡ true
      → s.nacos.status.pg.initialized ≡ false
      → ping_and_init services s ≡ (done tt, s')
      → (left : State W) × (session : Worked services (initialize_if_needed services) s left s')
        × IsInitialized session.ready left
  unfolding ping_and_init
  ping_and_init-IsInitialized s s' enabled fresh h =
      let (left, session) =
        with_connection-Worked services (initialize_if_needed services) s s' h in
      (
        left,
        session,
        if_needed session.ready left
            (ap (λ (n : Nacos). n.spec.pg_init.enabled) session.same ∙ enabled)
            (ap (λ (n : Nacos). n.status.pg.initialized) session.same ∙ fresh) session.works,
      )
