-- ===== src/Operator/Pg/Rotation.antt =====
-- PGClient.go: RotateAdminPassword.
use nacos_operator.Prelude.{
  ℕ, String, Bool, not, ◌||◌, ◌&&◌, [], ◌∷◌, ◌==◌, ◌+++◌, nat_eq, take_chars, if◌then◌else◌,
}
use nacos_operator.GoMap.{lookup}
use nacos_operator.Go.{Go, pure, gets, when, ◌>>=◌, ◌>>◌}
use nacos_operator.Api.{Nacos}
use nacos_operator.Operator.Services.{Services, State, read_world, set_nacos}
use nacos_operator.Operator.Status.{call_status_update, now}
use nacos_operator.Operator.Pg.Dsn.{or_default}
use nacos_operator.Operator.Pg.Connection.{
  or_system_error, require_key, statement_or, with_connection,
}

module _ {W : Type 0} (services : Services W) where
  -- The user name, the hash, the resource version and the checksum.
  unfoldable pub read_admin_secret : Go (State W) (String × String × String × String)
  read_admin_secret = do
    nacos ← gets (λ s. s.nacos)
    let ref = nacos.spec.admin_credentials_secret_ref
    let user_key = or_default ref.username_key "username"
    let hash_key = or_default ref.password_hash_key "passwordHash"
    reply ← read_world (services.get_secret nacos.namespace ref.name)
    sec ←
        or_system_error services "get admin secret %s/%s failed: %v"
          (nacos.namespace ∷ ref.name ∷ []) reply
    user ←
        require_key services "admin secret missing key %s" (user_key ∷ [])
          (lookup user_key sec.contents)
    hash ←
        require_key services "admin secret missing key %s" (hash_key ∷ [])
          (lookup hash_key sec.contents)
    pure (
      user,
      hash,
      sec.resource_version,
      take_chars 16 (services.sha256_hex (user +++ ":" +++ hash)),
    )

  -- The three tests that decide whether anything has changed.
  unfoldable pub rotation_needed : Nacos → String → String → Bool
  rotation_needed nacos resource_version checksum =
      if nacos.spec.admin_secret_checksum == ""
      then not (
          (nacos.status.admin.last_secret_resource_version == resource_version
            || nacos.status.admin.last_secret_checksum == checksum)
          && nacos.status.admin.last_result == "Success")
      else not (nacos.spec.admin_secret_checksum == nacos.status.admin.last_secret_checksum)

  abbrev pub admin_rotated : String → String → ℕ → Nacos → Nacos
  admin_rotated resource_version checksum time nacos = record nacos {
    status = record nacos.status {
      admin = record {
        last_rotate_time = time;
        last_result = "Success";
        last_message = "";
        last_secret_resource_version = resource_version;
        last_secret_checksum =
            if nacos.spec.admin_secret_checksum == ""
            then checksum
            else nacos.spec.admin_secret_checksum;
      };
    };
  }

  -- The statements that set the password, and the status that records it.
  unfoldable pub rotate : String → String → String → String → Go (State W) (Unit {0})
  rotate admin_user password_hash resource_version checksum = do
    affected ←
        statement_or services "update users failed: %v"
          "UPDATE \"users\" SET \"password\"=$1, \"enabled\"=TRUE WHERE \"username\"=$2"
          (password_hash ∷ admin_user ∷ [])
    when (nat_eq affected 0) (do
      inserted ←
          statement_or services "insert users failed: %v"
            "INSERT INTO \"users\"(\"username\",\"password\",\"enabled\") VALUES ($1,$2,TRUE)"
            (admin_user ∷ password_hash ∷ [])
      pure tt)
    role ←
        statement_or services "ensure role failed: %v"
          "INSERT INTO \"roles\"(\"username\",\"role\") SELECT $1,'ROLE_ADMIN' WHERE NOT EXISTS (SELECT 1 FROM \"roles\" WHERE \"username\"=$1 AND \"role\"='ROLE_ADMIN')"
          (admin_user ∷ [])
    time ← now services
    set_nacos (admin_rotated resource_version checksum time)
    ignored ← call_status_update services
    pure tt

  unfoldable pub rotate_admin_password : Go (State W) (Unit {0})
  unfolding read_admin_secret rotation_needed with_connection rotate
  rotate_admin_password = do
    nacos ← gets (λ s. s.nacos)
    when (not (nacos.spec.admin_credentials_secret_ref.name == "")) (do
      (user, hash, resource_version, checksum) ← read_admin_secret
      when (rotation_needed nacos resource_version checksum)
          (with_connection services (rotate user hash resource_version checksum)))
