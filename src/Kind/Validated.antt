-- ===== src/Kind/Validated.antt =====
-- What `validation_field` leaves in a resource.
use nacos_operator.Prelude.{
  String, ◌≡◌, refl, ap, sym, ◌∙◌, Bool, true, false, ◌==◌, ℤ, pos, if◌then◌else◌, inl, inr,
  Bool-cases, arith,
}
use nacos_operator.Api.{NacosSpec, Database, PgInitSpec, Certification, NacosPostgresSpec}
use nacos_operator.Kind.Defaults.{
  validation_field, default_str, default_int, mysql_defaults, pg_init_defaults, default_token,
  set_default_nacos_type, set_default_mysql, set_default_certification, set_default_postgres,
  set_default_admin_secret,
}

str_again : (v d : String) → default_str (default_str v d) d ≡ default_str v d
str_again v d = ground arith

int_again : (v d : ℤ) → default_int (default_int v d) d ≡ default_int v d
int_again v d = ground arith

abbrev database_defaults : Database → Database
database_defaults d =
    mysql_defaults (record d { type_database = default_str d.type_database "embedded" })

database_again : (d : Database) → database_defaults (database_defaults d) ≡ database_defaults d
database_again d = elim (Bool-cases (default_str d.type_database "embedded" == "mysql")) [
  | inl e ↦
      rw (e, str_again d.type_database "embedded", e)
        (λ i. record {
          type_database = default_str d.type_database "embedded";
          mysql_host = str_again d.mysql_host "127.0.0.1" i;
          mysql_port = str_again d.mysql_port "3306" i;
          mysql_db = str_again d.mysql_db "nacos" i;
          mysql_user = str_again d.mysql_user "root" i;
          mysql_password = str_again d.mysql_password "123456" i;
        })
  | inr e ↦ rw (e, str_again d.type_database "embedded", e) refl
]

pg_init_again : (i : PgInitSpec) → pg_init_defaults (pg_init_defaults i) ≡ pg_init_defaults i
pg_init_again i = λ j. record {
  timeout_seconds = int_again i.timeout_seconds (pos 20) j;
  enabled = true;
  schema_version = int_again i.schema_version (pos 1) j;
  policy = str_again i.policy "IfNotPresent" j;
}

pg_again :
    (b : Bool) (i : PgInitSpec)
    → (if b
        then (if b then i else pg_init_defaults i)
        else pg_init_defaults (if b then i else pg_init_defaults i))
      ≡ (if b then i else pg_init_defaults i)
pg_again true i = refl
pg_again false i = pg_init_again i

abbrev certification_defaults : Certification → Certification
certification_defaults c =
    if c.enabled
    then record c {
      token = default_str c.token default_token;
      token_expire_seconds = default_str c.token_expire_seconds "18000";
    }
    else c

certification_again :
    (c : Certification)
    → certification_defaults (certification_defaults c) ≡ certification_defaults c
certification_again c = go c.enabled
  where
    go :
        (b : Bool)
        → certification_defaults (certification_defaults (record c { enabled = b }))
          ≡ certification_defaults (record c { enabled = b })
    go true = λ i. record c {
      enabled = true;
      token = str_again c.token default_token i;
      token_expire_seconds = str_again c.token_expire_seconds "18000" i;
    }
    go false = refl

abbrev postgres_defaults : NacosPostgresSpec → NacosPostgresSpec
postgres_defaults p = record p {
  port = default_str p.port "5432";
  credentials_secret_ref = record p.credentials_secret_ref {
    username_key = default_str p.credentials_secret_ref.username_key "username";
    password_key = default_str p.credentials_secret_ref.password_key "password";
  };
}

postgres_again :
    (p : NacosPostgresSpec) → postgres_defaults (postgres_defaults p) ≡ postgres_defaults p
postgres_again p = λ i. record p {
  port = str_again p.port "5432" i;
  credentials_secret_ref = record p.credentials_secret_ref {
    username_key = str_again p.credentials_secret_ref.username_key "username" i;
    password_key = str_again p.credentials_secret_ref.password_key "password" i;
  };
}

-- All the parts at once.
abbrev by_parts : NacosSpec → NacosSpec
by_parts spec = record spec {
  type = default_str spec.type "standalone";
  database = database_defaults spec.database;
  certification = certification_defaults spec.certification;
  postgres = postgres_defaults spec.postgres;
  pg_init = if spec.postgres.host == "" then spec.pg_init else pg_init_defaults spec.pg_init;
  admin_credentials_secret_ref = record spec.admin_credentials_secret_ref {
    username_key = default_str spec.admin_credentials_secret_ref.username_key "username";
    password_hash_key =
        default_str spec.admin_credentials_secret_ref.password_hash_key "passwordHash";
  };
}

validation_field-parts : (spec : NacosSpec) → validation_field spec ≡ by_parts spec
unfolding validation_field set_default_nacos_type set_default_mysql set_default_certification
    set_default_postgres set_default_admin_secret
validation_field-parts spec = elim (Bool-cases spec.certification.enabled) [
  | inl e ↦ rw e refl
  | inr e ↦ rw e refl
]

parts_again : (spec : NacosSpec) → by_parts (by_parts spec) ≡ by_parts spec
parts_again spec = λ i. record spec {
  type = str_again spec.type "standalone" i;
  database = database_again spec.database i;
  certification = certification_again spec.certification i;
  postgres = postgres_again spec.postgres i;
  pg_init = pg_again (spec.postgres.host == "") spec.pg_init i;
  admin_credentials_secret_ref = record spec.admin_credentials_secret_ref {
    username_key = str_again spec.admin_credentials_secret_ref.username_key "username" i;
    password_hash_key =
        str_again spec.admin_credentials_secret_ref.password_hash_key "passwordHash" i;
  };
}

-- Validating a second time changes nothing.
pub validation_field-again :
    (spec : NacosSpec) → validation_field (validation_field spec) ≡ validation_field spec
validation_field-again spec =
    ap validation_field (validation_field-parts spec)
    ∙ validation_field-parts (by_parts spec)
    ∙ parts_again spec
    ∙ sym (validation_field-parts spec)

pub validation_field-replicas :
    (spec : NacosSpec) → (validation_field spec).replicas ≡ spec.replicas
validation_field-replicas spec = ap (λ (x : NacosSpec). x.replicas) (validation_field-parts spec)
