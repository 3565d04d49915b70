-- ===== src/Operator/Rotated.antt =====
-- What a finished rotation of the administrator's password means for the next one.
use nacos_operator.Prelude.{
  ℕ, String, ◌≡◌, refl, sym, ap, subst, ◌∙◌, true, false, inl, inr, Bool-cases, ◌==◌, eq_refl,
  ◌+++◌, take_chars, some,
}
use nacos_operator.GoMap.{lookup}
use nacos_operator.Go.{ok, Outcome, done}
use nacos_operator.Types.{Secret}
use nacos_operator.Api.{Nacos, NacosStatus}
use nacos_operator.Operator.Services.{Services, State}
use nacos_operator.Operator.Pg.{
  rotation_needed, admin_rotated, rotate_admin_password, read_admin_secret, or_default,
}
use nacos_operator.Operator.Unmoved.{KeepsStatus, KeepsRest, with_status}
use nacos_operator.Operator.Session.Administered.{rotate_admin_password-IsAdministered}

module _ {W : Type 0} (services : Services W) where
  -- With the status that a finished rotation writes, and the same secret, no rotation is needed,
  -- whether the checksum comes from the specification or from the secret.
  rotation_needed-admin_rotated :
      (resource_version checksum : String) (time : ℕ) (nacos : Nacos)
      → rotation_needed services
          (admin_rotated services resource_version checksum time nacos)
          resource_version
          checksum
        ≡ false
  unfolding rotation_needed
  rotation_needed-admin_rotated resource_version checksum time nacos =
      elim (Bool-cases (nacos.spec.admin_secret_checksum == "")) [
        | inl e ↦ rw (e, eq_refl resource_version) refl
        | inr e ↦ rw (e, eq_refl nacos.spec.admin_secret_checksum) refl
      ]

  -- The checksum that is taken of a secret.
  abbrev checksum_of : String → String → String
  checksum_of user hash = take_chars 16 (services.sha256_hex (user +++ ":" +++ hash))

  -- The resource after a finished rotation.
  abbrev rotated : Secret → String → String → ℕ → Nacos → W → State W
  rotated secret user hash time nacos w = record {
    nacos = admin_rotated services secret.resource_version (checksum_of user hash) time nacos;
    world = w;
  }

  read_admin_secret-found :
      (secret : Secret) (user hash : String) (s : State W)
      → services.get_secret s.nacos.namespace s.nacos.spec.admin_credentials_secret_ref.name s.world
        ≡ ok secret
      → lookup
          (or_default s.nacos.spec.admin_credentials_secret_ref.username_key "username")
          secret.contents
        ≡ some user
      → lookup
          (or_default s.nacos.spec.admin_credentials_secret_ref.password_hash_key "passwordHash")
          secret.contents
        ≡ some hash
      → read_admin_secret services s
        ≡ (done (user, hash, secret.resource_version, checksum_of user hash), s)
  unfolding read_admin_secret
  read_admin_secret-found secret user hash s stored u h = rw (stored, u, h) refl

  rotated-again :
      (secret : Secret) (user hash : String) (time : ℕ) (nacos : Nacos) (w : W)
      → services.get_secret nacos.namespace nacos.spec.admin_credentials_secret_ref.name w
        ≡ ok secret
      → lookup
          (or_default nacos.spec.admin_credentials_secret_ref.username_key "username")
          secret.contents
        ≡ some user
      → lookup
          (or_default nacos.spec.admin_credentials_secret_ref.password_hash_key "passwordHash")
          secret.contents
        ≡ some hash
      → rotate_admin_password services (rotated secret user hash time nacos w)
        ≡ (done tt, rotated secret user hash time nacos w)
  unfolding rotate_admin_password
  rotated-again secret user hash time nacos w stored u h =
      elim (Bool-cases (nacos.spec.admin_credentials_secret_ref.name == "")) [
        | inl e ↦ rw e refl
        | inr e ↦
            rw
              (
                e,
                read_admin_secret-found secret user hash (rotated secret user hash time nacos w)
                    stored u h,
                rotation_needed-admin_rotated secret.resource_version (checksum_of user hash) time
                    nacos,
              )
              refl
      ]

  rotates_nothing :
      (s : State W)
      → (s.nacos.spec.admin_credentials_secret_ref.name == "") ≡ true
      → rotate_admin_password services s ≡ (done tt, s)
  unfolding rotate_admin_password
  rotates_nothing s unnamed = rw unnamed refl

  idles :
      {user hash version checksum : String} (s : State W)
      → (s.nacos.spec.admin_credentials_secret_ref.name == "") ≡ false
      → read_admin_secret services s ≡ (done (user, hash, version, checksum), s)
      → rotation_needed services s.nacos version checksum ≡ false
      → rotate_admin_password services s ≡ (done tt, s)
  unfolding rotate_admin_password
  idles s named read idle = rw (named, read, idle) refl

  ends_same :
      (s s' : State W)
      → rotate_admin_password services s ≡ (done tt, s)
      → rotate_admin_password services s ≡ (done tt, s')
      → rotate_admin_password services s' ≡ (done tt, s')
  ends_same s s' e h =
      subst (λ (x : State W). rotate_admin_password services x ≡ (done tt, x))
        (ap (λ (r : Outcome Unit × State W). r.1) (sym e ∙ h)) e

  -- The secret that is read for the resource, with the user and the hash under its two keys.
  pub record Reads (secret : Secret) (user hash : String) (nacos : Nacos) (w : W) : Type 0 where
    pub stored :
        services.get_secret nacos.namespace nacos.spec.admin_credentials_secret_ref.name w
        ≡ ok secret
    pub has_user :
        lookup
          (or_default nacos.spec.admin_credentials_secret_ref.username_key "username")
          secret.contents
        ≡ some user
    pub has_hash :
        lookup
          (or_default nacos.spec.admin_credentials_secret_ref.password_hash_key "passwordHash")
          secret.contents
        ≡ some hash

  -- The object that a status update answers with is then the one that it was sent.
  answers_sent :
      KeepsStatus services
      → (n : Nacos) (t : NacosStatus) (w : W) → KeepsRest services n
      → (services.status_update (with_status n t) w).0.1 ≡ with_status n t
  answers_sent keeps n t w rest = rest t w ∙ ap (with_status n) (keeps (with_status n t) w)

  -- What a first call leaves in the resource: the recorded success, if it has rotated.
  rotates-nacos :
      (user hash version checksum : String)
      → KeepsStatus services
      → (s s' : State W) → KeepsRest services s.nacos
      → (s.nacos.spec.admin_credentials_secret_ref.name == "") ≡ false
      → read_admin_secret services s ≡ (done (user, hash, version, checksum), s)
      → rotation_needed services s.nacos version checksum ≡ true
      → rotate_admin_password services s ≡ (done tt, s')
      → (time : ℕ) × (s'.nacos ≡ admin_rotated services version checksum time s.nacos)
  rotates-nacos user hash version checksum keeps s s' rest named read needed h =
      let (left, session, work) =
        rotate_admin_password-IsAdministered services user hash version checksum s s' named read
          needed h in
      let time = (services.now work.ended).0 in
      let change = admin_rotated services version checksum time in
      (
        time,
        ap (λ (x : State W). x.nacos) (session.closes ∙ ap close work.records)
            ∙ ap
                (λ (n : Nacos). (services.status_update (change n) (services.now work.ended).1).0.1)
                session.same
            ∙ answers_sent keeps s.nacos (change s.nacos).status (services.now work.ended).1 rest,
      )
    where
      close : State W → State W
      close x = record x { world = services.postgres.close x.world }

  named-again :
      (secret : Secret) (user hash : String)
      → KeepsStatus services
      → (s s' : State W) → KeepsRest services s.nacos
      → Reads secret user hash s.nacos s.world
      → Reads secret user hash s.nacos s'.world
      → (s.nacos.spec.admin_credentials_secret_ref.name == "") ≡ false
      → rotate_admin_password services s ≡ (done tt, s')
      → rotate_admin_password services s' ≡ (done tt, s')
  named-again secret user hash keeps s s' rest before after named h =
      let version = secret.resource_version in
      let read =
        read_admin_secret-found secret user hash s before.stored before.has_user before.has_hash in
      elim (Bool-cases (rotation_needed services s.nacos version (checksum_of user hash))) [
        | inl needed ↦
            let (time, e) =
              rotates-nacos user hash version (checksum_of user hash) keeps s s' rest named read
                needed h in
            subst (λ (x : State W). rotate_admin_password services x ≡ (done tt, x))
              (ap (λ (n : Nacos). record { nacos = n; world = s'.world }) (sym e))
              (rotated-again secret user hash time s.nacos s'.world after.stored after.has_user
                after.has_hash)
        | inr idle ↦ ends_same s s' (idles s named read idle) h
      ]

  -- If a first call ends, whether it rotates or not, a second call for the resource as the first
  -- has left it does nothing: it makes no connection, and leaves the resource and the rest of the
  -- world as they are. This is for a secret that is read with the same version, user and hash
  -- before the first call and before the second, and a server that answers a status update with
  -- the status that it was sent and, for the resource with its own specification, the rest of it.
  pub rotate_admin_password-again :
      (secret : Secret) (user hash : String)
      → KeepsStatus services
      → (s s' : State W) → KeepsRest services s.nacos
      → Reads secret user hash s.nacos s.world
      → Reads secret user hash s.nacos s'.world
      → rotate_admin_password services s ≡ (done tt, s')
      → rotate_admin_password services s' ≡ (done tt, s')
  rotate_admin_password-again secret user hash keeps s s' rest before after h =
      elim (Bool-cases (s.nacos.spec.admin_credentials_secret_ref.name == "")) [
        | inl unnamed ↦ ends_same s s' (rotates_nothing s unnamed) h
        | inr named ↦ named-again secret user hash keeps s s' rest before after named h
      ]
