-- ===== src/Samples/Connecting.antt =====
-- The theorems on sessions with Postgres, at a database that answers, and at a standby.
use nacos_operator.Prelude.{ℕ, String, ◌≡◌, refl, true, inl, [], ◌∷◌, ◌+++◌, take_chars}
use nacos_operator.Errors.{new_err, code_err_system}
use nacos_operator.Go.{my_error, ok, done}
use nacos_operator.Operator.Services.{Services, State}
use nacos_operator.Operator.{
  ping_and_init, rotate_admin_password, initialize_if_needed, rotate, with_connection,
  open_connection, check_writable, initialize, read_admin_secret, read_db_credentials,
  data_source_name, url_query_escape, rotation_needed,
}
use nacos_operator.Operator.Session.Worked.{Worked}
use nacos_operator.Operator.Session.Refused.{failed_session-records_nothing}
use nacos_operator.Operator.Session.Initialized.{IsInitialized, ping_and_init-IsInitialized}
use nacos_operator.Operator.Session.Administered.{
  IsAdministered, rotate_admin_password-IsAdministered,
}
use nacos_operator.Operator.Rotated.{Reads, rotate_admin_password-again}
use nacos_operator.Types.{Secret}
use nacos_operator.Samples.Values.{new_nacos}
use nacos_operator.Samples.World.{clock_services, start}

abbrev initializing : State ℕ
initializing = record start {
  nacos = record new_nacos {
    spec = record new_nacos.spec { pg_init = record new_nacos.spec.pg_init { enabled = true } };
  };
}

ping_and_init-IsInitialized_example :
    (left : State ℕ) × (session : Worked clock_services
      (initialize_if_needed clock_services)
      initializing
      left
      (ping_and_init clock_services initializing).1)
    × IsInitialized clock_services session.ready left
ping_and_init-IsInitialized_example =
    ping_and_init-IsInitialized clock_services initializing
      (ping_and_init clock_services initializing).1 refl refl
      (unfold ping_and_init with_connection open_connection check_writable initialize_if_needed
          initialize read_db_credentials data_source_name url_query_escape in
        refl)

abbrev admin_checksum : String
admin_checksum = take_chars 16 (clock_services.sha256_hex ("nacos" +++ ":" +++ "hash"))

rotate_admin_password-IsAdministered_example :
    (left : State ℕ) × (session : Worked clock_services
      (rotate clock_services "nacos" "hash" "7" admin_checksum)
      start
      left
      (rotate_admin_password clock_services start).1)
    × IsAdministered clock_services "nacos" "hash" "7" admin_checksum session.ready left
rotate_admin_password-IsAdministered_example =
    rotate_admin_password-IsAdministered clock_services "nacos" "hash" "7" admin_checksum start
      (rotate_admin_password clock_services start).1 refl (unfold read_admin_secret in refl)
      (unfold rotation_needed take_chars in refl)
      (unfold rotate_admin_password with_connection open_connection check_writable rotate
          read_admin_secret rotation_needed take_chars read_db_credentials data_source_name
          url_query_escape in
        refl)

abbrev admin_secret : Secret
admin_secret = record {
  contents = ("username", "nacos") ∷ ("password", "p@ss") ∷ ("passwordHash", "hash") ∷ [];
  resource_version = "7";
}

admin_secret_read : (w : ℕ) → Reads clock_services admin_secret "nacos" "hash" new_nacos w
admin_secret_read w = record { stored = refl; has_user = refl; has_hash = refl }

rotate_admin_password-again_example :
    rotate_admin_password clock_services (rotate_admin_password clock_services start).1
    ≡ (done tt, (rotate_admin_password clock_services start).1)
rotate_admin_password-again_example =
    rotate_admin_password-again clock_services admin_secret "nacos" "hash" (λ n w. refl) start
      (rotate_admin_password clock_services start).1 (λ t w. refl) (admin_secret_read start.world)
      (admin_secret_read (rotate_admin_password clock_services start).1.world)
      (unfold rotate_admin_password with_connection open_connection check_writable rotate
          read_admin_secret rotation_needed take_chars read_db_credentials data_source_name
          url_query_escape in
        refl)

abbrev recovering : Services ℕ
recovering = record clock_services {
  postgres = record clock_services.postgres { query_in_recovery = λ w. (ok true, w) };
}

failed_session-records_nothing_example : (ping_and_init recovering start).1.nacos ≡ new_nacos
failed_session-records_nothing_example =
    failed_session-records_nothing recovering start (ping_and_init recovering start).1
      (my_error (
        new_err code_err_system
          "postgres is read-only (pg_is_in_recovery=%v, transaction_read_only=%s)"
          ("true" ∷ "off" ∷ [])))
      (inl (
        unfold ping_and_init with_connection open_connection check_writable read_db_credentials
          data_source_name url_query_escape in
        refl))
