-- ===== src/Kind/Defaults.antt =====
-- ValidationField: the defaults that are written into the resource in memory.
use nacos_operator.Prelude.{String, true, ◌==◌, ℤ, pos, int_eq, if◌then◌else◌}
use nacos_operator.Api.{NacosSpec, Database, PgInitSpec}

-- `if x == "" { x = default }`
abbrev pub default_str : String → String → String
default_str value default = if value == "" then default else value

abbrev pub default_int : ℤ → ℤ → ℤ
default_int value default = if int_eq value (pos 0) then default else value

unfoldable pub set_default_nacos_type : NacosSpec → NacosSpec
set_default_nacos_type spec = record spec { type = default_str spec.type "standalone" }

abbrev pub mysql_defaults : Database → Database
mysql_defaults d =
    if d.type_database == "mysql"
    then record d {
      mysql_host = default_str d.mysql_host "127.0.0.1";
      mysql_user = default_str d.mysql_user "root";
      mysql_db = default_str d.mysql_db "nacos";
      mysql_password = default_str d.mysql_password "123456";
      mysql_port = default_str d.mysql_port "3306";
    }
    else d

unfoldable pub set_default_mysql : NacosSpec → NacosSpec
set_default_mysql spec = record spec {
  database =
      mysql_defaults (record spec.database {
        type_database = default_str spec.database.type_database "embedded";
      });
}

abbrev pub default_token : String
default_token = "SecretKey012345678901234567890123456789012345678901234567890123456789"

unfoldable pub set_default_certification : NacosSpec → NacosSpec
set_default_certification spec =
    let c = spec.certification in
    if c.enabled
    then record spec {
      certification = record c {
        token = default_str c.token default_token;
        token_expire_seconds = default_str c.token_expire_seconds "18000";
      };
    }
    else spec

-- `Enabled` becomes true whatever it was.
abbrev pub pg_init_defaults : PgInitSpec → PgInitSpec
pg_init_defaults i = record {
  timeout_seconds = default_int i.timeout_seconds (pos 20);
  enabled = true;
  schema_version = default_int i.schema_version (pos 1);
  policy = default_str i.policy "IfNotPresent";
}

unfoldable pub set_default_postgres : NacosSpec → NacosSpec
set_default_postgres spec =
    let p = spec.postgres in
    record spec {
      postgres = record p {
        port = default_str p.port "5432";
        credentials_secret_ref = record p.credentials_secret_ref {
          username_key = default_str p.credentials_secret_ref.username_key "username";
          password_key = default_str p.credentials_secret_ref.password_key "password";
        };
      };
      pg_init = if p.host == "" then spec.pg_init else pg_init_defaults spec.pg_init;
    }

unfoldable pub set_default_admin_secret : NacosSpec → NacosSpec
set_default_admin_secret spec =
    let a = spec.admin_credentials_secret_ref in
    record spec {
      admin_credentials_secret_ref = record a {
        username_key = default_str a.username_key "username";
        password_hash_key = default_str a.password_hash_key "passwordHash";
      };
    }

unfoldable pub validation_field : NacosSpec → NacosSpec
unfolding set_default_nacos_type set_default_mysql set_default_certification set_default_postgres
    set_default_admin_secret
validation_field spec = set_default_admin_secret (
    set_default_postgres
      (set_default_certification (set_default_mysql (set_default_nacos_type spec))))
