-- ===== src/Merge/Zero.antt =====
-- `PodSpec` with an empty override: what `k8sWrapper` does to the operator's pods when a user
-- leaves it out.
use nacos_operator.Prelude.{◌≡◌, refl, ap, ◌∙◌, List, [], ◌∷◌, ◌++◌}
use nacos_operator.GoMap.{RangeOrder}
use nacos_operator.GoMap.Sorting.{IsSorted, IsSorted-canonical, sort_by}
use nacos_operator.GoMap.Canonical.{sorted_values-nil, find_last-sorted}
use nacos_operator.GoMap.Listed.{sort_by-sorted}
use nacos_operator.Types.{Volume, Container, Toleration, HostAlias, PodSpec, zero_pod_spec}
use nacos_operator.Merge.Containers.{container, containers}
use nacos_operator.Merge.Volumes.{volumes, merge_defaults}
use nacos_operator.Merge.Pods.{tolerations, host_aliases, pod_spec}
use nacos_operator.Merge.ByKey.{tolerations-joined, host_aliases-joined}

module _ (order : RangeOrder) where
  containers-nil : (cs : List Container) → IsSorted (λ c. c.name) cs → containers order cs [] ≡ cs
  unfolding containers
  containers-nil cs s = sorted_values-nil order (λ c. c.name) (container order) cs s

  merge_defaults-nil : (vs : List Volume) → merge_defaults order [] vs ≡ vs
  unfolding merge_defaults
  merge_defaults-nil [] = refl
  merge_defaults-nil (v ∷ vs) = ap (λ ws. v ∷ ws) (merge_defaults-nil vs)

  append-nil : (vs : List Volume) → vs ++ [] ≡ vs
  append-nil [] = refl
  append-nil (v ∷ vs) = ap (λ ws. v ∷ ws) (append-nil vs)

  volumes-nil : (vs : List Volume) → IsSorted (λ v. v.name) vs → volumes order vs [] ≡ vs
  unfolding volumes
  volumes-nil vs s =
      ap (sort_by (λ v. v.name)) (append-nil (merge_defaults order [] vs) ∙ merge_defaults-nil vs)
      ∙ sort_by-sorted (λ v. v.name) vs s

  tolerations-nil : (ts : List Toleration) → IsSorted (λ t. t.key) ts → tolerations order ts [] ≡ ts
  tolerations-nil ts s =
      IsSorted-canonical (λ t. t.key) _ _ (tolerations-joined order ts []).0 s
        (λ k. (tolerations-joined order ts []).1 k ∙ find_last-sorted (λ t. t.key) k ts s)

  host_aliases-nil : (xs : List HostAlias) → IsSorted (λ a. a.ip) xs → host_aliases order xs [] ≡ xs
  host_aliases-nil xs s =
      IsSorted-canonical (λ a. a.ip) _ _ (host_aliases-joined order xs []).0 s
        (λ k. (host_aliases-joined order xs []).1 k ∙ find_last-sorted (λ a. a.ip) k xs s)

-- The lists that `PodSpec` always rebuilds are sorted, with no name twice.
pub record IsOrdered (s : PodSpec) : Type 0 where
  pub volumes : IsSorted (λ v. v.name) s.volumes
  pub containers : IsSorted (λ c. c.name) s.containers
  pub init_containers : IsSorted (λ c. c.name) s.init_containers
  pub tolerations : IsSorted (λ t. t.key) s.tolerations
  pub host_aliases : IsSorted (λ a. a.ip) s.host_aliases

-- A pod specification whose volumes, containers, init containers, tolerations and host aliases are
-- sorted, with no name twice, is unchanged by an override of zero values.
pub pod_spec-zero :
    (order : RangeOrder) (s : PodSpec) → IsOrdered s → pod_spec order s zero_pod_spec ≡ s
unfolding pod_spec
pod_spec-zero order s h = λ i. record s {
  volumes = volumes-nil order s.volumes h.volumes i;
  containers = containers-nil order s.containers h.containers i;
  init_containers = containers-nil order s.init_containers h.init_containers i;
  tolerations = tolerations-nil order s.tolerations h.tolerations i;
  host_aliases = host_aliases-nil order s.host_aliases h.host_aliases i;
}
