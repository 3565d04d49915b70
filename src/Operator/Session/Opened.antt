-- ===== src/Operator/Session/Opened.antt =====
-- What a session with Postgres leaves true of the resource before its own work begins: no part
-- writes the resource, and `blind` says that `Q` does not look at the world.
use nacos_operator.Prelude.{String, Option, none, some, List}
use nacos_operator.Go.{KubeError, Go, Reply, ok, fail}
use nacos_operator.Operator.Services.{Services, State}
use nacos_operator.Operator.Pg.{
  or_system_error, none_or_system_error, require_key, read_db_credentials, read_admin_secret,
  open_connection, with_connection, check_writable, closing,
}
use nacos_operator.Operator.Keeps.{Keeps, keeps_rules}

module _ {W : Type 0} (services : Services W) {Q : State W → Type 0} where
  pub or_system_error-Keeps :
      {A : Type 0} (format : String) (args : List String) (r : Reply A)
      → Keeps Q (or_system_error services format args r)
  or_system_error-Keeps format args (ok a) = search keeps_rules
  or_system_error-Keeps format args (fail e) = search keeps_rules

  pub none_or_system_error-Keeps :
      (format : String) (o : Option KubeError) → Keeps Q (none_or_system_error services format o)
  none_or_system_error-Keeps format none = search keeps_rules
  none_or_system_error-Keeps format (some e) = search keeps_rules

  pub require_key-Keeps :
      (format : String) (args : List String) (o : Option String)
      → Keeps Q (require_key services format args o)
  require_key-Keeps format args none = search keeps_rules
  require_key-Keeps format args (some v) = search keeps_rules

pub ruleset pg_rules =
    (keeps_rules, or_system_error-Keeps, none_or_system_error-Keeps, require_key-Keeps)

module _ {W : Type 0} (services : Services W) {Q : State W → Type 0} where
  pub read_db_credentials-Keeps : Keeps Q (read_db_credentials services)
  unfolding read_db_credentials
  read_db_credentials-Keeps = search pg_rules depth 20

  pub read_admin_secret-Keeps : Keeps Q (read_admin_secret services)
  unfolding read_admin_secret
  read_admin_secret-Keeps = search pg_rules depth 20

module _ {W : Type 0} (services : Services W) {Q : State W → Type 0}
    (blind : (s : State W) (w : W) → Q s → Q (record s { world = w })) where
  pub check_writable-Keeps : Keeps Q (check_writable services)
  unfolding check_writable
  check_writable-Keeps = search (pg_rules, blind) depth 20

  pub closing-Keeps : (m : Go (State W) (Unit {0})) → Keeps Q m → Keeps Q (closing services m)
  closing-Keeps m km = record { at = λ s h. blind _ _ (km.at s h) }

  pub open_connection-Keeps : Keeps Q (open_connection services)
  unfolding open_connection
  open_connection-Keeps = search (pg_rules, blind, read_db_credentials-Keeps) depth 20

  pub with_connection-Keeps :
      (work : Go (State W) (Unit {0})) → Keeps Q work → Keeps Q (with_connection services work)
  unfolding with_connection
  with_connection-Keeps work kw =
      search (pg_rules, open_connection-Keeps, check_writable-Keeps, closing-Keeps) depth 20
