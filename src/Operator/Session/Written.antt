-- ===== src/Operator/Session/Written.antt =====
-- What the steps on the database leave true, for any predicate that does not look at the world and
-- that the three writes to the resource keep.
use nacos_operator.Prelude.{ℕ, String, ℤ}
use nacos_operator.Operator.Services.{Services, State, set_nacos}
use nacos_operator.Operator.Status.{call_status_update}
use nacos_operator.Operator.Steps.{pg_ensure, rotate_admin}
use nacos_operator.Operator.Pg.{
  initialize, rotate, ping_and_init, rotate_admin_password, initialize_if_needed, pg_initialized,
  admin_rotated,
}
use nacos_operator.Operator.Keeps.{Keeps, keeps_rules}
use nacos_operator.Operator.Session.Opened.{
  pg_rules, read_admin_secret-Keeps, with_connection-Keeps,
}

module _ {W : Type 0} (services : Services W) {Q : State W → Type 0}
    (blind : (s : State W) (w : W) → Q s → Q (record s { world = w }))
    (sends : Keeps Q (call_status_update services))
    (initializes : (version : ℤ) (time : ℕ)
      → Keeps Q (set_nacos (pg_initialized services version time)))
    (rotates : (version sum : String) (time : ℕ)
      → Keeps Q (set_nacos (admin_rotated services version sum time))) where
  initialize-Keeps : Keeps Q (initialize services)
  unfolding initialize
  initialize-Keeps = search (pg_rules, blind, initializes) depth 30

  ping_and_init-Keeps : Keeps Q (ping_and_init services)
  unfolding ping_and_init initialize_if_needed
  ping_and_init-Keeps = search (keeps_rules, blind, with_connection-Keeps, initialize-Keeps) depth 9

  rotate-Keeps : (user hash version sum : String) → Keeps Q (rotate services user hash version sum)
  unfolding rotate
  rotate-Keeps user hash version sum = search (pg_rules, blind, rotates) depth 30

  rotate_admin_password-Keeps : Keeps Q (rotate_admin_password services)
  unfolding rotate_admin_password
  rotate_admin_password-Keeps =
      search (keeps_rules, blind, read_admin_secret-Keeps, with_connection-Keeps, rotate-Keeps)
        depth 12

  pub pg_ensure-Keeps : Keeps Q (pg_ensure services)
  unfolding pg_ensure
  pg_ensure-Keeps = search (keeps_rules, ping_and_init-Keeps)

  pub rotate_admin-Keeps : Keeps Q (rotate_admin services)
  unfolding rotate_admin
  rotate_admin-Keeps = search (keeps_rules, rotate_admin_password-Keeps)
