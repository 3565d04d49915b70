-- ===== src/K8s/StatefulSets.antt =====
-- statefulset.go: when a stored stateful set is updated, deleted or left alone, and which of its
-- pods are ready.
use nacos_operator.Prelude.{
  String, Bool, true, false, not, ◌||◌, ◌&&◌, Option, none, some, List, [], ◌∷◌, ◌+++◌, ◌==◌,
  int_eq, nat_eq, length, if◌then◌else◌,
}
use nacos_operator.GoMap.{GoMap, RangeOrder}
use nacos_operator.Go.{
  KubeError, not_found, failure, Reply, ok, fail, Go, Panic, runtime_error, pure, panic, lift,
  ◌>>=◌,
}
use nacos_operator.Types.{
  StatefulSet, PersistentVolumeClaim, Container, ResourceRequirements, EnvVar, Pod, PodCondition,
}
use nacos_operator.K8s.Interface.{ResourceApi, KubeApi}
use nacos_operator.K8s.Requests.{
  get_stateful_set, create_stateful_set, update_stateful_set, delete_stateful_set,
}

-- encoding/json on the values that are compared, and strings.EqualFold.
pub record Marshal : Type 0 where
  pub resources : ResourceRequirements → String
  pub env : List EnvVar → String
  pub annotations : GoMap String → String
  pub equal_fold : String → String → Bool

pub data Operator : Type 0 where
  no_change update delete : Operator

abbrev nil_dereference : Panic
nil_dereference = runtime_error "invalid memory address or nil pointer dereference"

-- `*p`
abbrev pub dereference {ℓ} : {S A : Type ℓ} → Option A → Go S A
dereference none = panic nil_dereference
dereference (some a) = pure a

-- `xs[0]`
abbrev pub first {ℓ} : {S A : Type ℓ} → List A → Go S A
first [] = panic (runtime_error "index out of range [0] with length 0")
first (x ∷ xs) = pure x

module _ {W : Type 0} (marshal : Marshal) where
  -- `||` reads the storage classes only if the requests are equal.
  abbrev pub check_first_claims : PersistentVolumeClaim → PersistentVolumeClaim → Go W Bool
  check_first_claims old new =
      if marshal.resources old.spec.resources == marshal.resources new.spec.resources
      then (do
        old_class ← dereference old.spec.storage_class_name
        new_class ← dereference new.spec.storage_class_name
        pure (not (marshal.equal_fold old_class new_class)))
      else pure true

  unfoldable pub check_volume_claim_templates :
      List PersistentVolumeClaim → List PersistentVolumeClaim → Go W Bool
  check_volume_claim_templates [] [] = pure false
  check_volume_claim_templates (o ∷ os) (n ∷ ns) =
      if nat_eq (length os) (length ns) then check_first_claims o n else pure true
  check_volume_claim_templates _ _ = pure true

  -- The guard of `Update`; the replicas are read only if the requests are equal.
  abbrev pub needs_update : StatefulSet → StatefulSet → Container → Container → Go W Bool
  needs_update old new a b =
      if marshal.resources a.resources == marshal.resources b.resources
      then (do
        old_replicas ← dereference old.spec.replicas
        new_replicas ← dereference new.spec.replicas
        pure (
            not (int_eq old_replicas new_replicas)
            || not (marshal.env a.env == marshal.env b.env)
            || not (
                marshal.annotations old.spec.template.annotations
                == marshal.annotations new.spec.template.annotations)))
      else pure true

  unfoldable pub check_sts : StatefulSet → StatefulSet → Go W Operator
  unfolding check_volume_claim_templates
  check_sts old new = do
    a ← first old.spec.template.spec.containers
    b ← first new.spec.template.spec.containers
    gone ←
        check_volume_claim_templates old.spec.volume_claim_templates new.spec.volume_claim_templates
    if gone
        then pure delete
        else do changed ← needs_update old new a b; pure (if changed then update else no_change)

  module _ (api : ResourceApi W StatefulSet) (namespace : String) (stateful_set : StatefulSet) where
    unfoldable pub apply_operator : StatefulSet → Operator → Go W (Option KubeError)
    apply_operator stored no_change = pure none
    apply_operator stored update = lift (
        update_stateful_set api namespace (record stateful_set {
          meta = record stateful_set.meta { resource_version = stored.meta.resource_version };
        }))
    apply_operator stored delete = lift (delete_stateful_set api namespace stored.meta.name)

    unfoldable pub create_or_update_stateful_set : Go W (Option KubeError)
    unfolding check_sts apply_operator
    create_or_update_stateful_set w =
        elim (get_stateful_set api namespace stateful_set.meta.name w) [
          | ok stored ↦ (check_sts stored stateful_set >>= apply_operator stored) w
          | fail e ↦ elim e [
            | not_found _ ↦ lift (create_stateful_set api namespace stateful_set) w
            | failure text ↦ pure (some (failure text)) w
          ]
        ]

-- `strings.Join` of `k=v` with commas.
join_labels : GoMap String → String
join_labels [] = ""
join_labels ((k, v) ∷ []) = k +++ "=" +++ v
join_labels ((k, v) ∷ l ∷ ls) = k +++ "=" +++ v +++ "," +++ join_labels (l ∷ ls)

-- Exactly four conditions, and the second one says that the pod is ready.
unfoldable pub is_ready : List PodCondition → Bool
is_ready (a ∷ b ∷ c ∷ d ∷ []) = b.type == "Ready" && b.status == "True"
is_ready _ = false

unfoldable pub ready_pods : List Pod → List Pod
unfolding is_ready
ready_pods [] = []
ready_pods (p ∷ ps) = if is_ready p.conditions then p ∷ ready_pods ps else ready_pods ps

module _ {W : Type 0} (order : RangeOrder) (api : KubeApi W) (namespace name : String) where
  unfoldable pub get_stateful_set_pods : Go W (Reply (List Pod))
  unfolding join_labels
  get_stateful_set_pods w = elim (get_stateful_set api.stateful_sets namespace name w) [
    | fail e ↦ pure (fail e) w
    | ok sts ↦ elim sts.spec.selector [
      | none ↦ panic nil_dereference w
      | some selector ↦
          pure
            (api.list_pods namespace (join_labels (order.visit 0 String selector.match_labels)) w) w
    ]
  ]

  unfoldable pub get_stateful_set_read_pod : Go W (Reply (List Pod))
  unfolding get_stateful_set_pods ready_pods
  get_stateful_set_read_pod = do
    reply ← get_stateful_set_pods
    pure (elim reply [ ok pods ↦ ok (ready_pods pods) | fail e ↦ fail e ])
