-- ===== src/Operator/Pg/Initialize.antt =====
-- PGClient.go: PingAndInit.
use nacos_operator.Prelude.{
  ℕ, String, true, not, ◌&&◌, [], ◌∷◌, ◌==◌, ◌+++◌, ℤ, pos, int_eq, itoa, if◌then◌else◌,
}
use nacos_operator.Go.{Go, pure, gets, when, ◌>>=◌, ◌>>◌}
use nacos_operator.Api.{Nacos}
use nacos_operator.Operator.Services.{Services, State, read_world, set_nacos}
use nacos_operator.Operator.Status.{call_status_update, now}
use nacos_operator.Operator.Pg.Connection.{
  system_error, or_system_error, statement_or, with_connection,
}

module _ {W : Type 0} (services : Services W) where
  abbrev pub init_sql_path : String
  init_sql_path = "config/sql/nacos-pg.sql"

  abbrev pub desired_version : ℤ → ℤ
  desired_version version = if int_eq version (pos 0) then pos 1 else version

  -- The status that a finished initialisation writes.
  abbrev pub pg_initialized : ℤ → ℕ → Nacos → Nacos
  pg_initialized version time nacos = record nacos {
    status = record nacos.status {
      pg = record {
        initialized = true;
        init_version = version;
        last_init_time = time;
        last_result = "Success";
        last_message = "";
      };
    };
  }

  -- From the reading of the script to the end: the script, then the sentinel table. An error of
  -- the status update is only logged.
  unfoldable pub initialize : Go (State W) (Unit {0})
  initialize = do
    reply ← read_world (services.read_file init_sql_path)
    sql ← or_system_error services "read init sql failed from %s: %v" (init_sql_path ∷ []) reply
    when (sql == "") (system_error services "init sql at %s is empty" (init_sql_path ∷ []))
    script ← statement_or services "execute init sql failed: %v" sql []
    nacos ← gets (λ s. s.nacos)
    let version = desired_version nacos.spec.pg_init.schema_version
    table ←
        statement_or services "create sentinel table failed: %v"
          "CREATE TABLE IF NOT EXISTS \"nacos_schema_version\" (version int NOT NULL PRIMARY KEY, updated_at timestamptz NOT NULL DEFAULT now())"
          []
    cleared ←
        statement_or services "clear sentinel version failed: %v"
          "DELETE FROM \"nacos_schema_version\";" []
    written ←
        statement_or services "write sentinel version failed: %v"
          ("INSERT INTO \"nacos_schema_version\"(version) VALUES (" +++ itoa version +++ ")") []
    time ← now services
    set_nacos (pg_initialized version time)
    logged ← call_status_update services
    pure tt

  -- The two early returns of `PingAndInit`, before the initialisation.
  unfoldable pub initialize_if_needed : Go (State W) (Unit {0})
  unfolding initialize
  initialize_if_needed = do
    nacos ← gets (λ s. s.nacos)
    when (nacos.spec.pg_init.enabled && not nacos.status.pg.initialized) initialize

  unfoldable pub ping_and_init : Go (State W) (Unit {0})
  unfolding with_connection initialize_if_needed
  ping_and_init = with_connection services initialize_if_needed
