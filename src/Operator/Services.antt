-- ===== src/Operator/Services.antt =====
-- What the operator's clients call and the repository does not implement: the API server, the
-- clock, JSON and SHA-256, Postgres, HTTP. All act on one outside world `W`.
use nacos_operator.Prelude.{ℕ, String, Bool, Option, List, ℤ}
use nacos_operator.GoMap.{RangeOrder}
use nacos_operator.Types.{Secret, ObjectMeta}
use nacos_operator.Api.{Nacos, NacosSpec}
use nacos_operator.Go.{KubeError, Reply, Outcome, Go, lift}
use nacos_operator.K8s.Interface.{KubeApi}
use nacos_operator.K8s.{Marshal}
use nacos_operator.NacosClient.{Http}

-- github.com/jackc/pgx: a connection is part of the world.
pub record Postgres (W : Type 0) : Type 0 where
  pub parse_config : String → Option KubeError
  -- the DSN and the timeout in seconds
  pub connect : String → ℤ → W → Option KubeError × W
  pub close : W → W
  -- a statement and its arguments; the rows that it affected
  pub exec : String → List String → W → Reply ℕ × W
  pub query_in_recovery : W → Reply Bool × W
  pub query_read_only : W → Reply String × W

pub record Services (W : Type 0) : Type 1 where
  pub order : RangeOrder
  pub api : KubeApi W
  pub marshal : Marshal
  pub postgres : Postgres W
  pub http : Http W
  -- time.Now(), in seconds
  pub now : W → ℕ × W
  -- Status().Update: the error, and the object as the call leaves it.
  pub status_update : Nacos → W → (Option KubeError × Nacos) × W
  pub get_nacos : String → String → W → Reply Nacos
  pub list_nacos : String → W → Reply (List Nacos)
  pub get_secret : String → String → W → Reply Secret
  -- os.ReadFile
  pub read_file : String → W → Reply String
  -- json.Marshal of the spec, and the SHA-256 of a text in hexadecimal.
  pub marshal_spec : NacosSpec → Reply String
  pub sha256_hex : String → String
  -- controllerutil.SetControllerReference
  pub set_controller_reference : Nacos → ObjectMeta → Reply ObjectMeta
  -- resource.MustParse, which panics on a text that is no quantity.
  pub parse_quantity : String → Option String

-- The instance that a reconcile works on, behind its pointer, and the world.
pub record State (W : Type 0) : Type 0 where
  pub nacos : Nacos
  pub world : W

module _ {W : Type 0} where
  -- A call that acts on the world alone.
  abbrev pub on_world : {A : Type 0} → (W → A × W) → Go (State W) A
  on_world f = lift (λ s. let (a, w) = f s.world in (a, record s { world = w }))

  abbrev pub read_world : {A : Type 0} → (W → A) → Go (State W) A
  read_world f s = (Outcome.done (f s.world), s)

  abbrev pub set_nacos : (Nacos → Nacos) → Go (State W) (Unit {0})
  set_nacos f s = (Outcome.done tt, record s { nacos = f s.nacos })
