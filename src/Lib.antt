-- ===== src/Lib.antt =====
-- The nacos-operator, a Kubernetes operator for Nacos clusters: what a reconcile does to the custom
-- resource, to the API server and to the Postgres database, and how objects are merged.
--
-- Parts, with the repository's files and the modules that model them:
-- - controllers/nacos_controller.go: Controller. `reconcile` reads the resource and runs
--   `reconcile_work`, whose six steps are a list of actions; the two deferred functions are `recovered`,
--   and `global_except_handle` is globalExceptHandle. `find_nacos_for_config_map` is the watch.
-- - pkg/service/operator/operaror.go, Heal.go: Operator/Steps. Status.go: Operator/Status.
--   Check.go: Operator/Check. PGClient.go: Operator/Pg, with a child for the DSN, the connection and
--   each of the two operations. Kind.go: Kind for the defaults and the objects that are built,
--   Operator/Ensure for the operations that store them.
-- - main.go, and SetupWithManager of the controller: Manager.
-- - pkg/service/k8s: K8s. pkg/service/nacos/cluster.go: NacosClient. pkg/errors: Errors and
--   Go/Ensure. api/v1alpha1/nacos_types.go and pkg/util/merge/api: Api.
-- - pkg/util/merge: Merge, one function for each of the package.
--
-- Notation. Go's panics and recovers are the monad `Go S A = S -> Outcome A x S`, which keeps
-- what was written before a panic. The state is the resource in memory and the outside world, a
-- type `W` of which nothing is known: the API server, the clock, HTTP, JSON, SHA-256 and
-- Postgres are fields of `Services`, and what the API server promises is `ApiLaws` and
-- `KubeLaws`, and `StoresFilled` for a stateful set, whose specification the server completes. A
-- Go map is an association list without repeated keys, and the order of a `range` loop is the
-- parameter `RangeOrder`, so a theorem for any order holds whatever order Go picks. Kubernetes
-- values that the code only copies are `Blob`. Functions are by names in lower case with
-- underscores: CreateOrUpdateService is `create_or_update_service`.
--
-- Bounds. No definition runs on fuel: each loop is over a list or counts down. Integers of Go are
-- unbounded, since no modelled operation leaves their range.
--
-- Not modelled: logging; constructors; the registration of types in the scheme and the profiling
-- server that main starts; generated deep copies; the hash helper, which only calls SHA-256. The
-- merge functions are modelled by value. Two writes reach the resource through what it shares
-- with the stateful set, and Operator/Ensure makes them: the size goes into the claim's map of
-- requests (`share_claim`), and a volume of the wrapper into the empty directory
-- (`share_empty_dir`). The secret and the config map of a volume, which Volume also writes
-- through a pointer, are built anew for each stateful set.
--
-- Theorems stand in modules beside the definitions they are about. Controller/Outcomes, Handled,
-- Ended, Settled, Rest and Achieved are about one reconcile, Phases is the machine of phases that
-- it refines, Reached the statuses over many reconciles, and Woken the watch. Manager/Served is
-- about `main`. Operator/Keeps has a rule for each way to build an action, of what it leaves true
-- of the state, and Building, Ensured, Unmoved and Deployed apply the rules to the steps;
-- Deployed is about MakeEnsure as a whole, with K8s/Laws and Untouched for what a request leaves
-- alone; Operator/Inversion reads off what is known when an action ended, and Agreed, Members,
-- Quorum, Configured and Served build on it. Operator/Sent and Events are about the status that
-- is reported, Session, Standby, Escaped and Rotated about the database. K8s/Stored and Settled
-- are about the API server, Kind/Validated, Filled, Wired and Members about the objects that are built,
-- and in Merge there are ByName, ByKey, Joined, Absorb, Strings, Zero and Clashes. Samples
-- applies them to concrete values.
pub mod Prelude
pub mod GoMap
pub mod Types
pub mod Errors
pub mod Go
pub mod Api
pub mod K8s
pub mod NacosClient
pub mod Kind
pub mod Operator
pub mod Controller
pub mod Manager
pub mod Merge
pub mod Samples
