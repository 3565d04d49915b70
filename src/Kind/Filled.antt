-- ===== src/Kind/Filled.antt =====
-- The defaults of `validation_field`, field by field.
use nacos_operator.Prelude.{String, Bool, true, not, ◌==◌, ℤ, pos, if◌then◌else◌, int_eq}
use nacos_operator.Api.{NacosSpec, Database, PgInitSpec}

-- A text, or what it is by default.
abbrev or_else : String → String → String
or_else default value = if value == "" then default else value

abbrev or_number : ℤ → ℤ → ℤ
or_number default value = if int_eq value (pos 0) then default else value

-- A table of the fields of a validated resource. The fields of MySQL are filled in only where the
-- database is of that type, those of the certification only where it is enabled, and those of the
-- initialisation only where Postgres has a host.
abbrev filled_database : String → Database → Database
filled_database type d =
    if type == "mysql"
    then record d {
      type_database = type;
      mysql_host = or_else "127.0.0.1" d.mysql_host;
      mysql_port = or_else "3306" d.mysql_port;
      mysql_db = or_else "nacos" d.mysql_db;
      mysql_user = or_else "root" d.mysql_user;
      mysql_password = or_else "123456" d.mysql_password;
    }
    else record d { type_database = type }

abbrev filled_pg_init : Bool → PgInitSpec → PgInitSpec
filled_pg_init has_host i =
    if has_host
    then record {
      timeout_seconds = or_number (pos 20) i.timeout_seconds;
      enabled = true;
      schema_version = or_number (pos 1) i.schema_version;
      policy = or_else "IfNotPresent" i.policy;
    }
    else i

abbrev pub filled : NacosSpec → NacosSpec
filled spec = record spec {
  type = or_else "standalone" spec.type;
  database = filled_database (or_else "embedded" spec.database.type_database) spec.database;
  certification =
      if spec.certification.enabled
      then record spec.certification {
        token =
            or_else "SecretKey012345678901234567890123456789012345678901234567890123456789"
              spec.certification.token;
        token_expire_seconds = or_else "18000" spec.certification.token_expire_seconds;
      }
      else spec.certification;
  postgres = record spec.postgres {
    port = or_else "5432" spec.postgres.port;
    credentials_secret_ref = record spec.postgres.credentials_secret_ref {
      username_key = or_else "username" spec.postgres.credentials_secret_ref.username_key;
      password_key = or_else "password" spec.postgres.credentials_secret_ref.password_key;
    };
  };
  pg_init = filled_pg_init (not (spec.postgres.host == "")) spec.pg_init;
  admin_credentials_secret_ref = record spec.admin_credentials_secret_ref {
    username_key = or_else "username" spec.admin_credentials_secret_ref.username_key;
    password_hash_key = or_else "passwordHash" spec.admin_credentials_secret_ref.password_hash_key;
  };
}
