-- ===== src/Manager.antt =====
-- main.go, and SetupWithManager of controllers/nacos_controller.go: from the command line to the
-- running manager. The manager, the flags, the environment and the client configuration are
-- controller-runtime's and Go's, so parameters.
pub mod Served
use nacos_operator.Prelude.{
  ℕ, String, Bool, false, ◌⊎◌, inl, inr, Option, none, some, List, [], ◌∷◌, ◌==◌, ℤ, pos,
  if◌then◌else◌,
}
use nacos_operator.Go.{KubeError, Reply, ok, fail, Go}
use nacos_operator.Operator.Services.{Services}
use nacos_operator.Controller.{Result, reconcile}
use nacos_operator.Controller.Watch.{find_nacos_for_config_map}

pub record Flags : Type 0 where
  pub metrics_addr : String
  pub enable_leader_election : Bool

-- ctrl.Options; an empty namespace is every namespace.
pub record Options : Type 0 where
  pub metrics_bind_address : String
  pub port : ℤ
  pub leader_election : Bool
  pub leader_election_id : String
  pub leader_election_namespace : String
  pub namespace : String

-- What is registered with the manager: the kind, the kinds that it owns, the kind that is watched
-- with the requests that a change of one makes, and the reconciler.
pub record Registration (W : Type 0) : Type 0 where
  pub for_kind : String
  pub owns : List String
  pub watches : String
  pub requests : String → String → W → List (String × String)
  pub reconciler : String → String → Go W Result

pub record Runtime (W Config Manager : Type 0) : Type 1 where
  -- flag.Parse, from the defaults: it ends the process itself, with a code, or gives the values.
  pub parse_flags : Flags → W → ℕ ⊎ Flags
  -- os.Getenv
  pub getenv : String → W → String
  -- ctrl.GetConfigOrDie, which ends the process with the code 1.
  pub get_config : W → Option Config
  pub new_manager : Config → Options → W → Reply Manager × W
  -- The clients that the operator is built with; an error of the second one is ignored.
  pub services_of : Manager → Config → Services W
  -- The builder's Complete
  pub complete : Manager → Registration W → W → Option KubeError × W
  -- Start, which ends with the signal handler's context.
  pub start : Manager → W → Option KubeError × W

-- `main` returns, or the process exits with a code.
pub data Exit : Type 0 where
  returned : Exit
  exited : ℕ → Exit

abbrev pub default_flags : Flags
default_flags = record { metrics_addr = ":8080"; enable_leader_election = false }

unfoldable pub options_of : Flags → String → String → Options
options_of flags leader_ns watch_ns =
    let opts : Options = record {
      metrics_bind_address = flags.metrics_addr;
      port = pos 9443;
      leader_election = flags.enable_leader_election;
      leader_election_id = "219866ca.nacos.io";
      leader_election_namespace = leader_ns;
      namespace = "";
    } in
    if watch_ns == "" then opts else record opts { namespace = watch_ns }

-- SetupWithManager
unfoldable pub registration : {W : Type 0} → Services W → Registration W
unfolding reconcile find_nacos_for_config_map
registration services = record {
  for_kind = "Nacos";
  owns = "StatefulSet" ∷ [];
  watches = "ConfigMap";
  requests = λ ns name w. find_nacos_for_config_map name (services.list_nacos ns w);
  reconciler = reconcile services;
}

module _ {W Config Manager : Type 0} (runtime : Runtime W Config Manager) where
  abbrev pub exit_unless_none : Option KubeError × W → (W → Exit × W) → Exit × W
  exit_unless_none (none, w) next = next w
  exit_unless_none (some e, w) next = (exited 1, w)

  abbrev pub or_die : Option Config → W → (Config → Exit × W) → Exit × W
  or_die none w next = (exited 1, w)
  or_die (some config) w next = next config

  -- From the controller to the end of `main`.
  unfoldable pub run_manager : Reply Manager × W → Exit × W
  unfolding registration
  run_manager (fail e, w) = (exited 1, w)
  run_manager (ok manager, w) = or_die (runtime.get_config w) w λ config.
      exit_unless_none
        (runtime.complete manager (registration (runtime.services_of manager config)) w)
        λ w1. exit_unless_none (runtime.start manager w1) λ w2. (returned, w2)

  abbrev pub with_flags : ℕ ⊎ Flags → W → Exit × W
  with_flags (inl code) w = (exited code, w)
  with_flags (inr flags) w = or_die (runtime.get_config w) w λ config. run_manager (
      runtime.new_manager config
        (options_of flags (runtime.getenv "LEADER_ELECTION_NAMESPACE" w)
          (runtime.getenv "WATCH_NAMESPACE" w))
        w)

  unfoldable pub main : W → Exit × W
  unfolding run_manager options_of
  main w = with_flags (runtime.parse_flags default_flags w) w
