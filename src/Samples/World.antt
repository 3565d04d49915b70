-- ===== src/Samples/World.antt =====
-- An outside world that only keeps the time, and an API server that keeps objects in a list.
use nacos_operator.Prelude.{
  ℕ, suc, String, ◌≡◌, refl, sym, ap, ◌∙◌, ◌==◌, eq_refl, false, arith, Option, none, some, [], ◌∷◌,
  ◌+++◌,
}
use nacos_operator.GoMap.{GoMap, lookup, assign, lookup-assign}
use nacos_operator.GoMap.Orders.{in_order}
use nacos_operator.Go.{KubeError, not_found, failure, Reply, ok, fail}
use nacos_operator.K8s.Interface.{ResourceApi, ApiLaws}
use nacos_operator.K8s.Stored.{served_type, service_content}
use nacos_operator.Types.{Service}
use nacos_operator.Operator.Services.{Services, State}
use nacos_operator.Samples.Values.{new_nacos}

-- A server of one kind of object.
abbrev pub found : {R : Type 0} → Option R → Reply R
found (some r) = ok r
found none = fail (not_found "not found")

abbrev pub created : {R : Type 0} → Option R → String → R → GoMap R → Option KubeError × GoMap R
created (some old) k r w = (some (failure "already exists"), w)
created none k r w = (none, assign k r w)

abbrev pub updated : {R : Type 0} → Option R → String → R → GoMap R → Option KubeError × GoMap R
updated (some old) k r w = (none, assign k r w)
updated none k r w = (some (not_found "not found"), w)

-- It stores an object as `fill` completes it.
abbrev pub filling : {R : Type 0} → (R → R) → (R → String) → ResourceApi (GoMap R) R
filling fill name = record {
  get = λ ns n w. found (lookup (ns +++ "/" +++ n) w);
  create = λ ns r w. created (lookup (ns +++ "/" +++ name r) w) (ns +++ "/" +++ name r) (fill r) w;
  update = λ ns r w. updated (lookup (ns +++ "/" +++ name r) w) (ns +++ "/" +++ name r) (fill r) w;
  delete = λ ns n w. (some (failure "not served"), w);
  list = λ ns w. fail (failure "not served");
}

abbrev pub memory : {R : Type 0} → (R → String) → ResourceApi (GoMap R) R
memory name = filling (λ r. r) name

found-assign :
    {R : Type 0} (k : String) (r : R) (w : GoMap R) → found (lookup k (assign k r w)) ≡ ok r
found-assign k r w = rw (lookup-assign k k r w, eq_refl k) refl

pub created-found :
    {R : Type 0} (o : Option R) (k : String) (r : R) (w w' : GoMap R)
    → created o k r w ≡ (none, w')
    → found (lookup k w') ≡ ok r
created-found (some old) k r w w' h = cc
created-found none k r w w' h =
    ap (λ answer. found (lookup k answer.1)) (sym h) ∙ found-assign k r w

pub updated-found :
    {R : Type 0} (o : Option R) (k : String) (r : R) (w w' : GoMap R)
    → updated o k r w ≡ (none, w')
    → found (lookup k w') ≡ ok r
updated-found none k r w w' h = cc
updated-found (some old) k r w w' h =
    ap (λ answer. found (lookup k answer.1)) (sym h) ∙ found-assign k r w

pub filling_laws :
    {R C : Type 0} (fill : R → R) (name : R → String) (content : R → C)
    → ((r : R) → content (fill r) ≡ content r)
    → ApiLaws (filling fill name) name content
filling_laws fill name content same = record {
  create_stores = λ ns r w w' h. (
    fill r,
    created-found (lookup (ns +++ "/" +++ name r) w) (ns +++ "/" +++ name r) (fill r) w w' h,
    same r,
  );
  update_stores = λ ns r w w' h. (
    fill r,
    updated-found (lookup (ns +++ "/" +++ name r) w) (ns +++ "/" +++ name r) (fill r) w w' h,
    same r,
  );
}

pub memory_laws :
    {R C : Type 0} (name : R → String) (content : R → C) → ApiLaws (memory name) name content
memory_laws name content = filling_laws (λ r. r) name content (λ r. refl)

-- A service, with its type filled in.
abbrev pub with_type : Service → Service
with_type s = record s { spec = record s.spec { type = served_type s.spec.type } }

served_type-served_type : (type : String) → served_type (served_type type) ≡ served_type type
served_type-served_type type = ground arith

pub with_type-content : (s : Service) → service_content (with_type s) ≡ service_content s
with_type-content s =
    ap (λ (t : String). (s.spec.ports, s.spec.selector, t)) (served_type-served_type s.spec.type)

-- A server without objects, which accepts every write; each call takes a second.
abbrev pub empty_server : {R : Type 0} → ResourceApi ℕ R
empty_server = record {
  get = λ ns n w. fail (not_found "not found");
  create = λ ns r w. (none, suc w);
  update = λ ns r w. (none, suc w);
  delete = λ ns n w. (none, suc w);
  list = λ ns w. ok [];
}

abbrev pub clock_services : Services ℕ
clock_services = record {
  order = in_order;
  api = record {
    config_maps = empty_server;
    services = empty_server;
    stateful_sets = empty_server;
    jobs = empty_server;
    list_pods = λ ns name w. ok [];
  };
  marshal = record {
    resources = λ r. "";
    env = λ e. "";
    annotations = λ a. "";
    equal_fold = λ a b. a == b;
  };
  postgres = record {
    parse_config = λ dsn. none;
    connect = λ dsn timeout w. (none, suc w);
    close = suc;
    exec = λ sql args w. (ok 1, suc w);
    query_in_recovery = λ w. (ok false, suc w);
    query_read_only = λ w. (ok "off", suc w);
  };
  http = record {
    new_request = λ url. none;
    send = λ url header w. ok "";
    decode_servers = λ body. ok [];
  };
  now = λ w. (w, suc w);
  status_update = λ nacos w. ((none, nacos), suc w);
  get_nacos = λ ns name w. ok new_nacos;
  list_nacos = λ ns w. ok (new_nacos ∷ []);
  get_secret = λ ns name w. ok (record {
    contents = ("username", "nacos") ∷ ("password", "p@ss") ∷ ("passwordHash", "hash") ∷ [];
    resource_version = "7";
  });
  read_file = λ path w. ok "CREATE TABLE users ();";
  marshal_spec = λ spec. ok "{}";
  sha256_hex = λ text. "44136fa355b3678a1146ad16f7e8649e94fb4fc21fe77e8310c060f61caaff8a";
  set_controller_reference = λ nacos meta. ok meta;
  parse_quantity = λ text. some text;
}

-- A server without objects, which accepts every write and forgets it.
abbrev pub still_server : {W R : Type 0} → ResourceApi W R
still_server = record {
  get = λ ns n w. fail (not_found "not found");
  create = λ ns r w. (none, w);
  update = λ ns r w. (none, w);
  delete = λ ns n w. (none, w);
  list = λ ns w. ok [];
}

-- The same world at rest, on any state.
abbrev pub still_services : {W : Type 0} → Services W
still_services = record {
  order = in_order;
  api = record {
    config_maps = still_server;
    services = still_server;
    stateful_sets = still_server;
    jobs = still_server;
    list_pods = λ ns name w. ok [];
  };
  marshal = record {
    resources = λ r. "";
    env = λ e. "";
    annotations = λ a. "";
    equal_fold = λ a b. a == b;
  };
  postgres = record {
    parse_config = λ dsn. none;
    connect = λ dsn timeout w. (none, w);
    close = λ w. w;
    exec = λ sql args w. (ok 1, w);
    query_in_recovery = λ w. (ok false, w);
    query_read_only = λ w. (ok "off", w);
  };
  http = record {
    new_request = λ url. none;
    send = λ url header w. ok "";
    decode_servers = λ body. ok [];
  };
  now = λ w. (1000, w);
  status_update = λ nacos w. ((none, nacos), w);
  get_nacos = λ ns name w. ok new_nacos;
  list_nacos = λ ns w. ok (new_nacos ∷ []);
  get_secret = λ ns name w. ok (record {
    contents = ("username", "nacos") ∷ ("password", "p@ss") ∷ ("passwordHash", "hash") ∷ [];
    resource_version = "7";
  });
  read_file = λ path w. ok "CREATE TABLE users ();";
  marshal_spec = λ spec. ok "{}";
  sha256_hex = λ text. "44136fa355b3678a1146ad16f7e8649e94fb4fc21fe77e8310c060f61caaff8a";
  set_controller_reference = λ nacos meta. ok meta;
  parse_quantity = λ text. some text;
}

abbrev pub start : State ℕ
start = record { nacos = new_nacos; world = 120 }
