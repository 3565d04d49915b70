-- ===== src/Operator/Session/Administered.antt =====
-- What has happened when a rotation of the administrator's password ends.
use nacos_operator.Prelude.{
  ℕ, String, ◌≡◌, refl, sym, ap, ◌∙◌, Bool, true, false, List, [], ◌∷◌, ◌++◌, ◌==◌, nat_eq,
}
use nacos_operator.Go.{Go, Outcome, done, continue, pure, when, ◌>>=◌}
use nacos_operator.Operator.Services.{Services, State}
use nacos_operator.Operator.Pg.{
  statement_or, read_admin_secret, rotation_needed, rotate, rotate_admin_password, admin_rotated,
  with_connection,
}
use nacos_operator.Operator.Inversion.{continue-done}
use nacos_operator.Operator.Session.Ran.{Statement, Ran, Ran-append, recorded, statement_or-done}
use nacos_operator.Operator.Session.Worked.{Worked, with_connection-Worked}

-- The user is inserted where the update has found none.
abbrev insertion : Bool → String → String → ℕ → List Statement
insertion false user hash inserted = []
insertion true user hash inserted =
    record {
      sql = "INSERT INTO \"users\"(\"username\",\"password\",\"enabled\") VALUES ($1,$2,TRUE)";
      args = user ∷ hash ∷ [];
      affected = inserted;
    }
    ∷ []

-- The password, the user if need be, and the role.
abbrev pub admin_statements : String → String → (updated inserted granted : ℕ) → List Statement
admin_statements user hash updated inserted granted =
    record {
      sql = "UPDATE \"users\" SET \"password\"=$1, \"enabled\"=TRUE WHERE \"username\"=$2";
      args = hash ∷ user ∷ [];
      affected = updated;
    }
    ∷ (insertion (nat_eq updated 0) user hash inserted
        ++ record {
          sql =
              "INSERT INTO \"roles\"(\"username\",\"role\") SELECT $1,'ROLE_ADMIN' WHERE NOT EXISTS (SELECT 1 FROM \"roles\" WHERE \"username\"=$1 AND \"role\"='ROLE_ADMIN')";
          args = user ∷ [];
          affected = granted;
        }
          ∷ [])

module _ {W : Type 0} (services : Services W) (user hash version checksum : String) where
  -- The statements ran without an error, in this order; then the success was recorded.
  pub record IsAdministered (s s' : State W) : Type 0 where
    pub updated : ℕ
    pub inserted : ℕ
    pub granted : ℕ
    pub ended : W
    pub ran : Ran services (admin_statements user hash updated inserted granted) s.world ended
    pub records : s' ≡ recorded services (admin_rotated services version checksum) s.nacos ended

  insertion-done :
      (b : Bool) (format : String) (f : Unit → Go (State W) (Unit {0})) (s s' : State W)
      → continue
          (when b
            (statement_or services format
                "INSERT INTO \"users\"(\"username\",\"password\",\"enabled\") VALUES ($1,$2,TRUE)"
                (user ∷ hash ∷ [])
              >>= λ n. pure tt)
            s)
          f
        ≡ (done tt, s')
      → (inserted : ℕ) × (w : W) × Ran services (insertion b user hash inserted) s.world w
        × (f tt (record s { world = w }) ≡ (done tt, s'))
  insertion-done false format f s s' h = (0, s.world, Ran.nothing, h)
  insertion-done true format f s s' h =
      let (t, s1, e1, h1) = continue-done _ f tt s' h in
      let (n, w, e, h2) = statement_or-done services format _ (user ∷ hash ∷ []) _ t s s1 e1 in
      (n, w, Ran.then e Ran.nothing, ap (λ (r : Outcome Unit × State W). f tt r.1) h2 ∙ h1)

  rotate-done :
      (s s' : State W)
      → rotate services user hash version checksum s ≡ (done tt, s')
      → IsAdministered s s'
  unfolding rotate
  rotate-done s s' h =
      let (n1, w1, e1, h1) = statement_or-done services _ _ (hash ∷ user ∷ []) _ tt s s' h in
      let (n2, w2, ran, h2) = insertion-done (nat_eq n1 0) _ _ (record s { world = w1 }) s' h1 in
      let (n3, w3, e3, h3) =
        statement_or-done services _ _ (user ∷ []) _ tt (record s { world = w2 }) s' h2 in
      record {
        updated = n1;
        inserted = n2;
        granted = n3;
        ended = w3;
        ran = Ran.then e1 (Ran-append services ran (Ran.then e3 Ran.nothing));
        records = ap (λ (r : Outcome Unit × State W). r.1) (sym h3);
      }

  rotates :
      (s : State W)
      → (s.nacos.spec.admin_credentials_secret_ref.name == "") ≡ false
      → read_admin_secret services s ≡ (done (user, hash, version, checksum), s)
      → rotation_needed services s.nacos version checksum ≡ true
      → rotate_admin_password services s
        ≡ with_connection services (rotate services user hash version checksum) s
  unfolding rotate_admin_password
  rotates s named read needed = rw (named, read, needed) refl

  -- If the operation ends, for a resource that names a secret, and the secret that is read gives a
  -- user and a hash for which a rotation is needed, then it opened a connection, the server had just
  -- answered that it is neither in recovery nor read-only, and then ran without an error: the update of
  -- that user's password to that hash, if it affected no row the insertion of the user, and the
  -- grant of the role; only then the success was recorded and sent, and the connection closed.
  pub rotate_admin_password-IsAdministered :
      (s s' : State W)
      → (s.nacos.spec.admin_credentials_secret_ref.name == "") ≡ false
      → read_admin_secret services s ≡ (done (user, hash, version, checksum), s)
      → rotation_needed services s.nacos version checksum ≡ true
      → rotate_admin_password services s ≡ (done tt, s')
      → (left : State W) × (session : Worked services
          (rotate services user hash version checksum)
          s
          left
          s')
        × IsAdministered session.ready left
  rotate_admin_password-IsAdministered s s' named read needed h =
      let (left, session) =
        with_connection-Worked services (rotate services user hash version checksum) s s'
          (sym (rotates s named read needed) ∙ h) in
      (left, session, rotate-done session.ready left session.works)
