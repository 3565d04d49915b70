-- ===== src/Operator/Configured.antt =====
-- What the management of the configuration leaves in the API server and in the status.
use nacos_operator.Prelude.{
  String, ◌≡◌, refl, sym, ap, subst, ◌∙◌, Bool, true, false, arith, Option, none, some, [], ◌∷◌,
  if◌then◌else◌,
}
use nacos_operator.GoMap.{GoMap, RangeOrder, lookup}
use nacos_operator.Go.{Go, Outcome, done, panics, continue}
use nacos_operator.Types.{ConfigMap}
use nacos_operator.Api.{Nacos, ConfigMapRef}
use nacos_operator.K8s.Interface.{ApiLaws, ResourceApi}
use nacos_operator.K8s.{create_or_update_config_map}
use nacos_operator.K8s.Stored.{
  Stores, config_map_name, config_map_contents, create_or_update_config_map-Stores,
}
use nacos_operator.Kind.{
  object_meta, object_labels, manages_config, referenced_content, merged_content, final_config_name,
  build_merged_config_map, compute_config_digest,
}
use nacos_operator.Operator.Services.{Services, State}
use nacos_operator.Operator.Ensure.{
  ensure_config_map, ensure_merged_config, own_config_map, ensured, set_config_digest, in_world,
}
use nacos_operator.Operator.Owned.{KeepsName, ensured-done, owned_config_map-done}
use nacos_operator.Operator.Inversion.{continue-done}

module _ {W : Type 0} (api : ResourceApi W ConfigMap) (nacos : Nacos) where
  -- Reading what a reference leads to leaves the world as it is.
  referenced_content-same :
      (kind lower key : String) (ref : Option ConfigMapRef) (w : W)
      → (referenced_content api nacos kind lower key ref w).1 ≡ w
  unfolding referenced_content
  referenced_content-same kind lower key none w = refl
  referenced_content-same kind lower key (some ref) w = ground arith

  -- The two contents that are merged.
  abbrev pub internal_content : W → Outcome String × W
  internal_content =
      referenced_content api nacos "Internal-config" "internal-config" "internal.properties"
        nacos.spec.internal_config_ref

  abbrev pub user_content : W → Outcome String × W
  user_content =
      referenced_content api nacos "User-config" "user-config" "user.properties"
        nacos.spec.user_config_ref

  internal-same : (w : W) → (internal_content w).1 ≡ w
  internal-same =
      referenced_content-same "Internal-config" "internal-config" "internal.properties"
        nacos.spec.internal_config_ref

  user-same : (w : W) → (user_content w).1 ≡ w
  user-same =
      referenced_content-same "User-config" "user-config" "user.properties"
        nacos.spec.user_config_ref

  abbrev merged : RangeOrder → String → String → ConfigMap
  merged order internal user = record {
    meta =
        object_meta nacos (final_config_name nacos) (object_labels order nacos) nacos.annotations;
    contents = ("application.properties", merged_content internal user) ∷ [];
  }

  built-merged :
      (order : RangeOrder) (built : ConfigMap) (w w' : W)
      → build_merged_config_map order api nacos w ≡ (done built, w')
      → (internal : String) × (user : String) × (internal_content w ≡ (done internal, w))
        × (user_content w ≡ (done user, w))
        × (built.meta.name ≡ final_config_name nacos)
        × (built.contents ≡ ("application.properties", merged_content internal user) ∷ [])
        × (w' ≡ w)
  unfolding build_merged_config_map
  built-merged order built w w' h =
      let (internal, w1, e1, h1) = continue-done (internal_content w) _ built w' h in
      let (user, w2, e2, h2) = continue-done (user_content w1) _ built w' h1 in
      let same1 : w1 ≡ w = ap (λ (r : Outcome String × W). r.1) (sym e1) ∙ internal-same w in
      let same2 : w2 ≡ w1 = ap (λ (r : Outcome String × W). r.1) (sym e2) ∙ user-same w1 in
      let contents : built ≡ merged order internal user =
        ap (λ (r : Outcome ConfigMap × W). elim r.0 [ done b ↦ b | panics _ ↦ built ]) (sym h2) in
      (
        internal,
        user,
        e1 ∙ ap (λ (v : W). (done internal, v)) same1,
        subst (λ (v : W). user_content v ≡ (done user, v)) same1
            (e2 ∙ ap (λ (v : W). (done user, v)) same2),
        ap (λ (b : ConfigMap). b.meta.name) contents,
        ap (λ (b : ConfigMap). b.contents) contents,
        ap (λ (r : Outcome ConfigMap × W). r.1) (sym h2) ∙ same2 ∙ same1,
      )

if_true : {A : Type 0} (b : Bool) (x y : A) → b ≡ true → (if b then x else y) ≡ x
if_true true x y h = refl
if_true false x y h = cc

module _ {W : Type 0} (services : Services W) where
  abbrev pub digested : Nacos → String → Nacos
  digested nacos content = record nacos {
    status = record nacos.status {
      config_digest = compute_config_digest services.sha256_hex content;
    };
  }

  -- The contents that are merged, what is stored, and the digest.
  abbrev pub IsConfigured : State W → State W → Type 0
  IsConfigured s s' =
      (internal : String) × (user : String) × (internal_content services.api.config_maps s.nacos
          s.world
        ≡ (done internal, s.world))
      × (user_content services.api.config_maps s.nacos s.world ≡ (done user, s.world))
      × Stores services.api.config_maps config_map_contents s.nacos.namespace
          (final_config_name s.nacos)
          (("application.properties", merged_content internal user) ∷ []) s'.world
      × (s'.nacos ≡ digested s.nacos (merged_content internal user))

  module _ (laws : ApiLaws services.api.config_maps config_map_name config_map_contents) where
    -- The store and the digest, for a config map of one file.
    stored :
        (ns text : String) (cm : ConfigMap) (s s' : State W)
        → cm.contents ≡ ("application.properties", text) ∷ []
        → continue
            (ensured services (create_or_update_config_map services.api.config_maps ns cm) s)
            (λ t. set_config_digest services (lookup "application.properties" cm.contents))
          ≡ (done tt, s')
        → Stores services.api.config_maps config_map_contents ns cm.meta.name
            (("application.properties", text) ∷ [])
            s'.world
          × (s'.nacos ≡ digested s.nacos text)
    stored ns text cm s s' one h =
        let (t, s1, e1, h1) =
          continue-done
            (ensured services (create_or_update_config_map services.api.config_maps ns cm) s) _ tt
            s' h in
        let (written, kept) =
          ensured-done services (create_or_update_config_map services.api.config_maps ns cm) s s1 t
            e1 in
        let found =
          create_or_update_config_map-Stores services.api.config_maps laws ns cm s.world s1.world
            written in
        let h2 : set_config_digest services (some text) s1 ≡ (done tt, s') =
          subst
            (λ (m : GoMap String).
              set_config_digest services (lookup "application.properties" m) s1 ≡ (done tt, s'))
            one h1 in
        (
          subst
              (λ (w : W).
                Stores services.api.config_maps config_map_contents ns cm.meta.name
                  (("application.properties", text) ∷ []) w)
              (ap (λ (r : Outcome Unit × State W). r.1.world) h2) (found.0, found.1, found.2 ∙ one),
          ap (λ (r : Outcome Unit × State W). r.1.nacos) (sym h2)
              ∙ ap (λ (n : Nacos). digested n text) kept,
        )

    module _ (keeps_name : KeepsName services) where
      ensure_merged_config-IsConfigured :
          (s s' : State W)
          → ensure_merged_config services s.nacos s ≡ (done tt, s')
          → IsConfigured s s'
      ensure_merged_config-IsConfigured s s' h =
          let (built, s1, e1, h1) =
            continue-done
              (in_world (build_merged_config_map services.order services.api.config_maps s.nacos) s)
              _ tt s' h in
          let (internal, user, i, u, name, one, same) =
            built-merged services.api.config_maps s.nacos services.order built s.world s1.world
              (ap (λ (r : Outcome ConfigMap × State W). (r.0, r.1.world)) e1) in
          let (cm, s2, e2, h2) =
            continue-done (own_config_map services s.nacos built s1) _ tt s' h1 in
          let (named, same_contents, kept) =
            owned_config_map-done services keeps_name s.nacos built cm s1 s2 e2 in
          let (at, digest) =
            stored s.nacos.namespace (merged_content internal user) cm s2 s' (same_contents ∙ one)
              h2 in
          (
            internal,
            user,
            i,
            u,
            subst
                (λ (n : String).
                  Stores services.api.config_maps config_map_contents s.nacos.namespace n
                    (("application.properties", merged_content internal user) ∷ []) s'.world)
                (named ∙ name) at,
            digest
                ∙ ap (λ (n : Nacos). digested n (merged_content internal user))
                    (ap (λ (x : State W). x.nacos) kept
                      ∙ ap (λ (r : Outcome ConfigMap × State W). r.1.nacos) (sym e1)),
          )

      -- If the specification refers to a configuration and the step ends, the config map of the final
      -- name then holds the one file that merges the internal and the user's content, as they were
      -- read before, and of the resource only the digest in the status has changed: it is the digest of that
      -- file. This is for a server in which a successful create or update stores what it is
      -- sent, and an owner reference that keeps the name of an object.
      pub ensure_config_map-IsConfigured :
          (s s' : State W)
          → manages_config s.nacos ≡ true
          → ensure_config_map services s ≡ (done tt, s')
          → IsConfigured s s'
      unfolding ensure_config_map
      ensure_config_map-IsConfigured s s' managed h = ensure_merged_config-IsConfigured s s' (
          sym (ap (λ (m : Go (State W) Unit). m s) (if_true (manages_config s.nacos) _ _ managed))
          ∙ h)
