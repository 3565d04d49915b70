-- ===== src/Operator/Pg/Connection.antt =====
-- PGClient.go: the credentials, the connection and the checks on it.
use nacos_operator.Prelude.{
  ℕ, String, Bool, ◌||◌, Option, none, some, List, [], ◌∷◌, ◌++◌, ◌==◌, pos, int_lt, if◌then◌else◌,
}
use nacos_operator.GoMap.{lookup}
use nacos_operator.Errors.{new_err, code_parameter_error, code_err_system}
use nacos_operator.Go.{
  KubeError, Reply, ok, fail, Go, my_error, error_text, pure, panic, gets, when, ◌>>=◌, ◌>>◌,
}
use nacos_operator.Api.{Nacos}
use nacos_operator.Operator.Services.{Services, State, on_world, read_world}
use nacos_operator.Operator.Pg.Dsn.{or_default, data_source_name}

module _ {W : Type 0} (services : Services W) where
  abbrev pub system_error : {A : Type 0} → String → List String → Go (State W) A
  system_error format args = panic (my_error (new_err code_err_system format args))

  abbrev pub parameter_error : {A : Type 0} → String → List String → Go (State W) A
  parameter_error format args = panic (my_error (new_err code_parameter_error format args))

  abbrev pub or_system_error : {A : Type 0} → String → List String → Reply A → Go (State W) A
  or_system_error format args (ok a) = pure a
  or_system_error format args (fail e) = system_error format (args ++ error_text e ∷ [])

  abbrev pub none_or_system_error : String → Option KubeError → Go (State W) (Unit {0})
  none_or_system_error format none = pure tt
  none_or_system_error format (some e) = system_error format (error_text e ∷ [])

  abbrev pub require_key : String → List String → Option String → Go (State W) String
  require_key format args (some v) = pure v
  require_key format args none = parameter_error format args

  -- The user and the password.
  unfoldable pub read_db_credentials : Go (State W) (String × String)
  read_db_credentials = do
    nacos ← gets (λ s. s.nacos)
    let ref = nacos.spec.postgres.credentials_secret_ref
    when (ref.name == "") (parameter_error "postgres.credentialsSecretRef.name is required" [])
    let user_key = or_default ref.username_key "username"
    let pass_key = or_default ref.password_key "password"
    reply ← read_world (services.get_secret nacos.namespace ref.name)
    sec ← or_system_error "get secret %s/%s failed: %v" (nacos.namespace ∷ ref.name ∷ []) reply
    user ←
        require_key "secret %s missing key %s" (ref.name ∷ user_key ∷ [])
          (lookup user_key sec.contents)
    pass ←
        require_key "secret %s missing key %s" (ref.name ∷ pass_key ∷ [])
          (lookup pass_key sec.contents)
    pure (user, pass)

  -- The resource version of the credentials, empty where they cannot be read.
  unfoldable pub read_db_secret_rv : Nacos → W → String
  read_db_secret_rv nacos w =
      if nacos.spec.postgres.credentials_secret_ref.name == ""
      then ""
      else elim (services.get_secret nacos.namespace nacos.spec.postgres.credentials_secret_ref.name
          w) [ ok sec ↦ sec.resource_version | fail e ↦ "" ]

  abbrev pub statement_or : String → String → List String → Go (State W) ℕ
  statement_or format sql args = do
    reply ← on_world (services.postgres.exec sql args)
    or_system_error format [] reply

  abbrev pub refuse_read_only : Bool → String → Go (State W) (Unit {0})
  refuse_read_only in_recovery ro = when (in_recovery || ro == "on") (
      system_error "postgres is read-only (pg_is_in_recovery=%v, transaction_read_only=%s)"
        ((if in_recovery then "true" else "false") ∷ ro ∷ []))

  abbrev pub check_read_only : Bool → Reply String → Go (State W) (Unit {0})
  check_read_only in_recovery read_only = do
    ro ← or_system_error "check transaction_read_only failed: %v" [] read_only
    refuse_read_only in_recovery ro

  abbrev pub check_recovery : Reply Bool → Go (State W) (Unit {0})
  check_recovery recovery = do
    in_recovery ← or_system_error "check pg_is_in_recovery failed: %v" [] recovery
    read_only ← on_world services.postgres.query_read_only
    check_read_only in_recovery read_only

  -- From the ping to the check that the database can be written.
  unfoldable pub check_writable : Go (State W) (Unit {0})
  check_writable = do
    pinged ← statement_or "postgres ping failed: %v" "select 1" []
    recovery ← on_world services.postgres.query_in_recovery
    check_recovery recovery

  -- `defer conn.Close`: also after a panic.
  abbrev pub closing : Go (State W) (Unit {0}) → Go (State W) (Unit {0})
  closing m s = let (r, s') = m s in (r, record s' { world = services.postgres.close s'.world })

  -- The DSN and the connection, which both operations begin with.
  unfoldable pub open_connection : Go (State W) (Unit {0})
  unfolding read_db_credentials data_source_name
  open_connection = do
    (user, pass) ← read_db_credentials
    nacos ← gets (λ s. s.nacos)
    let pg = nacos.spec.postgres
    let port = or_default pg.port "5432"
    when (pg.host == "" || pg.database == "" || user == "")
        (parameter_error "postgres config invalid: host/user/database must be set" [])
    let dsn = data_source_name user pass pg.host port pg.database
    none_or_system_error "pgx parse dsn failed: %v" (services.postgres.parse_config dsn)
    let timeout = nacos.spec.pg_init.timeout_seconds
    failed ←
        on_world
          (services.postgres.connect dsn (if int_lt (pos 0) timeout then timeout else pos 10))
    none_or_system_error "postgres connect failed: %v" failed

  -- The checks on an open connection, and then `work`.
  unfoldable pub with_connection : Go (State W) (Unit {0}) → Go (State W) (Unit {0})
  unfolding open_connection check_writable
  with_connection work = open_connection >> closing (check_writable >> work)
