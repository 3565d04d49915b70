-- ===== src/Manager/Served.antt =====
-- When `main` returns, and when the process exits with a code.
use nacos_operator.Prelude.{
  ℕ, ◌≡◌, refl, sym, ap, ◌∙◌, ◌↔◌, ◌⊎◌, inl, inr, Option, none, some, [], ◌∷◌, false, pos, ◌==◌,
  Bool-cases, eq_iff, arith,
}
use nacos_operator.Controller.{reconcile}
use nacos_operator.Controller.Watch.{find_nacos_for_config_map}
use nacos_operator.Operator.Services.{Services}
use nacos_operator.Go.{KubeError, Reply, ok, fail}
use nacos_operator.Manager.{
  Flags, Options, Registration, Runtime, Exit, returned, exited, default_flags, options_of,
  registration, run_manager, main, or_die, exit_unless_none, with_flags,
}

module _ {W Config Manager : Type 0} (runtime : Runtime W Config Manager) where
  -- What the manager is asked for: the flags, the two namespaces of the environment as they are, and
  -- the port and the name of the lock of this operator.
  abbrev pub asked : Flags → W → Options
  asked flags w = record {
    metrics_bind_address = flags.metrics_addr;
    port = pos 9443;
    leader_election = flags.enable_leader_election;
    leader_election_id = "219866ca.nacos.io";
    leader_election_namespace = runtime.getenv "LEADER_ELECTION_NAMESPACE" w;
    namespace = runtime.getenv "WATCH_NAMESPACE" w;
  }

  -- The resources and the stateful sets that they own wake the reconciler for the resource, and a
  -- config map wakes it for the resources of its namespace that refer to it.
  abbrev pub registered_as : Services W → Registration W
  registered_as services = record {
    for_kind = "Nacos";
    owns = "StatefulSet" ∷ [];
    watches = "ConfigMap";
    requests = λ ns name w. find_nacos_for_config_map name (services.list_nacos ns w);
    reconciler = reconcile services;
  }

  -- Every step succeeded, in this order: the flags, the configuration, the manager, the controller's
  -- registration, and the run of the manager.
  pub record Serves (w w' : W) : Type 0 where
    pub flags : Flags
    pub config : Config
    pub manager : Manager
    pub made : W
    pub client_config : Config
    pub registered : W
    pub parses :
        runtime.parse_flags (record { metrics_addr = ":8080"; enable_leader_election = false }) w
        ≡ inr flags
    pub configures : runtime.get_config w ≡ some config
    pub makes : runtime.new_manager config (asked flags w) w ≡ (ok manager, made)
    pub connects : runtime.get_config made ≡ some client_config
    pub registers :
        runtime.complete manager (registered_as (runtime.services_of manager client_config)) made
        ≡ (none, registered)
    pub runs : runtime.start manager registered ≡ (none, w')

  -- An empty namespace is the empty default.
  options_of-asked :
      (flags : Flags) (w : W)
      → options_of flags
          (runtime.getenv "LEADER_ELECTION_NAMESPACE" w)
          (runtime.getenv "WATCH_NAMESPACE" w)
        ≡ asked flags w
  unfolding options_of
  options_of-asked flags w = elim (Bool-cases (runtime.getenv "WATCH_NAMESPACE" w == "")) [
    | inl e ↦
        let empty : runtime.getenv "WATCH_NAMESPACE" w ≡ "" =
          ground (arith, eq_iff (runtime.getenv "WATCH_NAMESPACE" w) "") in
        rw empty refl
    | inr e ↦ rw e refl
  ]

  or_die-returned :
      (c : Option Config) (w w' : W) (next : Config → Exit × W)
      → or_die runtime c w next ≡ (returned, w')
      → (config : Config) × (c ≡ some config) × (next config ≡ (returned, w'))
  or_die-returned none w w' next h = cc
  or_die-returned (some config) w w' next h = (config, refl, h)

  exit_unless_none-returned :
      (answer : Option KubeError × W) (w' : W) (next : W → Exit × W)
      → exit_unless_none runtime answer next ≡ (returned, w')
      → (w1 : W) × (answer ≡ (none, w1)) × (next w1 ≡ (returned, w'))
  exit_unless_none-returned (none, w) w' next h = (w, refl, h)
  exit_unless_none-returned (some e, w) w' next h = cc

  flags_of :
      (parsed : ℕ ⊎ Flags) (w w' : W)
      → with_flags runtime parsed w ≡ (returned, w')
      → (flags : Flags) × (parsed ≡ inr flags)
  flags_of (inl code) w w' h = cc
  flags_of (inr flags) w w' h = (flags, refl)

  manager_of :
      (answer : Reply Manager × W) (w' : W)
      → run_manager runtime answer ≡ (returned, w')
      → (manager : Manager) × (made : W) × (answer ≡ (ok manager, made))
  unfolding run_manager
  manager_of (ok manager, w) w' h = (manager, w, refl)
  manager_of (fail e, w) w' h = cc

  returned-Serves : (w w' : W) → main runtime w ≡ (returned, w') → Serves w w'
  unfolding main run_manager registration
  returned-Serves w w' h =
      let (flags, parses) = flags_of (runtime.parse_flags default_flags w) w w' h in
      let h1 = ap (λ p. with_flags runtime p w) (sym parses) ∙ h in
      let (config, configures, h2) = or_die-returned (runtime.get_config w) w w' _ h1 in
      let (manager, made, makes) = manager_of _ w' h2 in
      let h3 = ap (run_manager runtime) (sym makes) ∙ h2 in
      let (client_config, connects, h4) = or_die-returned (runtime.get_config made) made w' _ h3 in
      let (registered, registers, h5) = exit_unless_none-returned _ w' _ h4 in
      let (_, runs, h6) = exit_unless_none-returned _ w' _ h5 in
      record {
        flags = flags;
        config = config;
        manager = manager;
        made = made;
        client_config = client_config;
        registered = registered;
        parses = parses;
        configures = configures;
        makes =
            ap (λ (o : Options). runtime.new_manager config o w) (sym (options_of-asked flags w))
            ∙ makes;
        connects = connects;
        registers = registers;
        runs = runs ∙ ap (λ (x : Exit × W). (none, x.1)) h6;
      }

  Serves-returned : (w w' : W) → Serves w w' → main runtime w ≡ (returned, w')
  unfolding main run_manager registration
  Serves-returned w w' s =
      rw
        (
          s.parses,
          s.configures,
          options_of-asked s.flags w,
          s.makes,
          s.connects,
          s.registers,
          s.runs,
        )
        refl

  exited-code : (a b : ℕ) (w w' : W) → ◌≡◌ {A = Exit × W} (exited a, w) (exited b, w') → b ≡ a
  exited-code a b w w' h = cc

  or_die-exited :
      (code : ℕ) (c : Option Config) (w w' : W) (next : Config → Exit × W)
      → ((config : Config) → next config ≡ (exited code, w') → code ≡ 1)
      → or_die runtime c w next ≡ (exited code, w')
      → code ≡ 1
  or_die-exited code none w w' next f h = exited-code 1 code w w' h
  or_die-exited code (some config) w w' next f h = f config h

  returned-not_exited :
      (code : ℕ) (w w' : W) → ◌≡◌ {A = Exit × W} (returned, w) (exited code, w') → code ≡ 1
  returned-not_exited code w w' h = cc

  exit_unless_none-exited :
      (code : ℕ) (answer : Option KubeError × W) (w' : W) (next : W → Exit × W)
      → ((w1 : W) → next w1 ≡ (exited code, w') → code ≡ 1)
      → exit_unless_none runtime answer next ≡ (exited code, w')
      → code ≡ 1
  exit_unless_none-exited code (none, w) w' next f h = f w h
  exit_unless_none-exited code (some e, w) w' next f h = exited-code 1 code w w' h

  run_manager-exited :
      (code : ℕ) (answer : Reply Manager × W) (w' : W)
      → run_manager runtime answer ≡ (exited code, w')
      → code ≡ 1
  unfolding run_manager
  run_manager-exited code (fail e, w) w' h = exited-code 1 code w w' h
  run_manager-exited code (ok manager, w) w' h =
      or_die-exited code (runtime.get_config w) w w' _
        (λ config h1.
          exit_unless_none-exited code
            (runtime.complete manager (registration (runtime.services_of manager config)) w) w'
            (λ v. exit_unless_none runtime (runtime.start manager v) λ u. (returned, u))
            (λ w1 h2.
              exit_unless_none-exited code (runtime.start manager w1) w' (λ v. (returned, v))
                (λ w2 h3. returned-not_exited code w2 w' h3) h2)
            h1)
        h

  with_flags-exited :
      (code : ℕ) (parsed : ℕ ⊎ Flags) (w w' : W)
      → with_flags runtime parsed w ≡ (exited code, w')
      → (parsed ≡ inl code) ⊎ (code ≡ 1)
  with_flags-exited code (inl c) w w' h = inl (ap inl (sym (exited-code c code w w' h)))
  with_flags-exited code (inr flags) w w' h = inr (
      or_die-exited code (runtime.get_config w) w w' _
        (λ config h1. run_manager-exited code _ w' h1) h)

  main-exited :
      (code : ℕ) (w w' : W)
      → main runtime w ≡ (exited code, w')
      → (runtime.parse_flags (record { metrics_addr = ":8080"; enable_leader_election = false }) w
          ≡ inl code)
        ⊎ (code ≡ 1)
  unfolding main
  main-exited code w w' h = with_flags-exited code (runtime.parse_flags default_flags w) w w' h

  -- `main` returns exactly when every step succeeds in its order: the flags are read, where the
  -- metrics are at `:8080` and there is no leader election unless a flag says so; the manager is
  -- made for the namespace that `WATCH_NAMESPACE` names, or for all where it is empty, with the
  -- namespace of the lock from `LEADER_ELECTION_NAMESPACE`; the controller is registered with it, for
  -- the resources, the stateful sets that they own and the config maps that they refer to; and only
  -- then it is started, and ends without an error. If the process exits with a code instead, the
  -- code is the one of the flags or 1.
  pub main-Serves :
      (w w' : W)
      → ((main runtime w ≡ (returned, w')) ↔ Serves w w')
        × ((code : ℕ)
            → main runtime w ≡ (exited code, w')
            → (runtime.parse_flags
                  (record { metrics_addr = ":8080"; enable_leader_election = false })
                  w
                ≡ inl code)
              ⊎ (code ≡ 1))
  main-Serves w w' = ((returned-Serves w w', Serves-returned w w'), λ code. main-exited code w w')
