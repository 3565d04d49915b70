-- ===== src/Merge/ByName.antt =====
-- The joins by name: what they hold at each name, and the order of the `range` loops.
use nacos_operator.Prelude.{String, ◌≡◌, refl, sym, ap, ◌∙◌, Option, none, some, List, arith}
use nacos_operator.GoMap.{RangeOrder}
use nacos_operator.GoMap.Sorting.{find_by, find_last, IsSorted, IsDistinct, IsSorted-canonical}
use nacos_operator.GoMap.Keyed.{
  combine, KeyKept, find_last-key, find_by-sorted_values, sorted_values-IsSorted,
  sorted_values_order_free, find_by-merged_values, merged_values-IsDistinct,
}
use nacos_operator.GoMap.Appended.{
  find_by-sorted_appended, sorted_appended-IsSorted, sorted_appended_order_free,
  find_by-appended_values, appended_values-IsDistinct,
}
use nacos_operator.Types.{
  EnvVar, ContainerPort, VolumeDevice, VolumeMount, Container, EphemeralContainer, KeyToPath,
  PersistentVolumeClaim,
}
use nacos_operator.Merge.Scalars.{over_str}
use nacos_operator.Merge.Values.{
  merge_single_env, envs, container_ports, container_port_slices_by_name, merge_volume_device,
  volume_devices, volume_mount, volume_mounts, volume_mount_to_string,
}
use nacos_operator.Merge.Containers.{
  container, containers, ephemeral_container, ephemeral_containers,
}
use nacos_operator.Merge.Volumes.{merge_key_to_path, merge_key_to_path_items}
use nacos_operator.Merge.Workloads.{persistent_volume_claim, volume_claim_templates}

over_str_same : (a b k : String) → a ≡ k → b ≡ k → over_str a b ≡ k
over_str_same a b k p q = ground arith

-- A merge of two elements of one name has that name, once the merged name is known.
name_kept :
    {V : Type 0} (key : V → String) (merge : V → V → V)
    → ((a b : V) (k : String) → key a ≡ k → key b ≡ k → key (merge a b) ≡ k)
    → (xs ys : List V) → KeyKept key merge xs ys
name_kept key merge h xs ys k a b p q =
    h a b k (find_last-key key k xs a p) (find_last-key key k ys b q)

pub port_kept : (xs ys : List ContainerPort) → KeyKept (λ p. p.name) container_ports xs ys
port_kept =
    name_kept (λ p. p.name) container_ports
      (λ a b k p q. unfold container_ports in over_str_same a.name b.name k p q)

pub env_kept : (xs ys : List EnvVar) → KeyKept (λ e. e.name) merge_single_env xs ys
unfolding merge_single_env
env_kept = name_kept (λ e. e.name) merge_single_env (λ a b k p q. ground arith)

pub device_kept : (xs ys : List VolumeDevice) → KeyKept (λ d. d.name) merge_volume_device xs ys
device_kept =
    name_kept (λ d. d.name) merge_volume_device
      (λ a b k p q. unfold merge_volume_device in over_str_same a.name b.name k p q)

container_kept :
    (order : RangeOrder) (xs ys : List Container) → KeyKept (λ c. c.name) (container order) xs ys
container_kept order =
    name_kept (λ c. c.name) (container order)
      (λ a b k p q. unfold container in over_str_same a.name b.name k p q)

ephemeral_kept :
    (order : RangeOrder) (xs ys : List EphemeralContainer)
    → KeyKept (λ c. c.common.name) (ephemeral_container order) xs ys
ephemeral_kept order =
    name_kept (λ c. c.common.name) (ephemeral_container order)
      (λ a b k p q.
        unfold ephemeral_container container in over_str_same a.common.name b.common.name k p q)

item_kept : (xs ys : List KeyToPath) → KeyKept (λ i. i.key) merge_key_to_path xs ys
unfolding merge_key_to_path
item_kept = name_kept (λ i. i.key) merge_key_to_path (λ a b k p q. ground arith)

claim_kept :
    (xs ys : List PersistentVolumeClaim) → KeyKept (λ c. c.name) persistent_volume_claim xs ys
unfolding persistent_volume_claim
claim_kept = name_kept (λ c. c.name) persistent_volume_claim (λ a b k p q. p)

-- The result of a join by `key`: sorted, no key twice, and at each key the last default and the
-- last override merged, or whichever of the two there is.
abbrev pub JoinedBy : {V : Type 0} → (V → String) → (V → V → V) → List V → List V → List V → Type 0
JoinedBy key merge defaults overrides result =
    IsSorted key result
    × ((k : String)
        → find_by key k result
          ≡ combine merge (find_last key k defaults) (find_last key k overrides))

-- The same for a join that is not sorted.
abbrev pub UnsortedJoin :
    {V : Type 0} → (V → String) → (V → V → V) → List V → List V → List V → Type 0
UnsortedJoin key merge defaults overrides result =
    IsDistinct key result
    × ((k : String)
        → find_by key k result
          ≡ combine merge (find_last key k defaults) (find_last key k overrides))

module _ (order : RangeOrder) where
  -- The merged containers are sorted by name, no name twice; each name has the last default and
  -- the last override of that name merged by `container`, or whichever of the two there is, and a
  -- name of neither list has none.
  pub containers-joined :
      (defaults overrides : List Container)
      → JoinedBy
          (λ c. c.name)
          (container order)
          defaults
          overrides
          (containers order defaults overrides)
  unfolding containers
  containers-joined ds os = (
    sorted_values-IsSorted order (λ c. c.name) (container order) ds os (container_kept order ds os),
    find_by-sorted_values order (λ c. c.name) (container order) ds os (container_kept order ds os),
  )

  -- The merged variables are sorted by name, no name twice; each name has the last original and
  -- the last override of that name merged by `merge_single_env`, or whichever of the two there is,
  -- and a name of neither list has none.
  pub envs-joined :
      (original override : List EnvVar)
      → JoinedBy (λ e. e.name) merge_single_env original override (envs order original override)
  unfolding envs
  envs-joined ds os = (
    sorted_values-IsSorted order (λ e. e.name) merge_single_env ds os (env_kept ds os),
    find_by-sorted_values order (λ e. e.name) merge_single_env ds os (env_kept ds os),
  )

  -- The merged ports are sorted by name, no name twice; each name has the last default and the
  -- last override of that name merged by `container_ports`, or whichever of the two there is, and
  -- a name of neither list has none.
  pub ports-joined :
      (defaults overrides : List ContainerPort)
      → JoinedBy
          (λ p. p.name)
          container_ports
          defaults
          overrides
          (container_port_slices_by_name order defaults overrides)
  unfolding container_port_slices_by_name
  ports-joined ds os = (
    sorted_appended-IsSorted order (λ p. p.name) container_ports ds os (port_kept ds os),
    find_by-sorted_appended order (λ p. p.name) container_ports ds os (port_kept ds os),
  )

  -- The merged claims are sorted by name, no name twice; each name has the last default and the
  -- last override of that name merged by `persistent_volume_claim`, or whichever of the two there
  -- is, and a name of neither list has none.
  pub claims-joined :
      (defaults overrides : List PersistentVolumeClaim)
      → JoinedBy
          (λ c. c.name)
          persistent_volume_claim
          defaults
          overrides
          (volume_claim_templates order defaults overrides)
  unfolding volume_claim_templates
  claims-joined ds os = (
    sorted_values-IsSorted order (λ c. c.name) persistent_volume_claim ds os (claim_kept ds os),
    find_by-sorted_values order (λ c. c.name) persistent_volume_claim ds os (claim_kept ds os),
  )

  -- The merged ephemeral containers have no name twice, in an order left open; each name has the
  -- last default and the last override of that name merged by `ephemeral_container`, or whichever
  -- of the two there is, and a name of neither list has none.
  pub ephemeral_containers-joined :
      (defaults overrides : List EphemeralContainer)
      → UnsortedJoin
          (λ c. c.common.name)
          (ephemeral_container order)
          defaults
          overrides
          (ephemeral_containers order defaults overrides)
  unfolding ephemeral_containers
  ephemeral_containers-joined ds os = (
    merged_values-IsDistinct order (λ c. c.common.name) (ephemeral_container order) ds os
        (ephemeral_kept order ds os),
    find_by-merged_values order (λ c. c.common.name) (ephemeral_container order) ds os
        (ephemeral_kept order ds os),
  )

  -- The merged items have no key twice, in an order left open; each key has the last default and
  -- the last override of that key merged by `merge_key_to_path`, or whichever of the two there is,
  -- and a key of neither list has none.
  pub items-joined :
      (defaults overrides : List KeyToPath)
      → UnsortedJoin
          (λ i. i.key)
          merge_key_to_path
          defaults
          overrides
          (merge_key_to_path_items order defaults overrides)
  unfolding merge_key_to_path_items
  items-joined ds os = (
    appended_values-IsDistinct order (λ i. i.key) merge_key_to_path ds os (item_kept ds os),
    find_by-appended_values order (λ i. i.key) merge_key_to_path ds os (item_kept ds os),
  )

-- Any two mounts of one key, one of each side, merge to a mount of that key.
abbrev pub MountsAgree : List VolumeMount → List VolumeMount → Type 0
MountsAgree = KeyKept volume_mount_to_string volume_mount

module _ (order order' : RangeOrder) where
  pub container_order_free :
      (default override : Container)
      → MountsAgree default.volume_mounts override.volume_mounts
      → container order default override ≡ container order' default override
  unfolding container container_port_slices_by_name envs volume_mounts volume_devices
  container_order_free d o agree = ground (
    arith,
    sorted_appended_order_free order order' (λ p. p.name) container_ports d.ports o.ports
        (port_kept d.ports o.ports),
    sorted_values_order_free order order' (λ e. e.name) merge_single_env d.env o.env
        (env_kept d.env o.env),
    sorted_values_order_free order order' volume_mount_to_string volume_mount d.volume_mounts
        o.volume_mounts agree,
    sorted_values_order_free order order' (λ v. v.name) merge_volume_device d.volume_devices
        o.volume_devices (device_kept d.volume_devices o.volume_devices),
  )

  combine_order_free :
      (o p : Option Container)
      → ((a b : Container) → o ≡ some a → p ≡ some b → MountsAgree a.volume_mounts b.volume_mounts)
      → combine (container order) o p ≡ combine (container order') o p
  combine_order_free none p h = refl
  combine_order_free (some a) none h = refl
  combine_order_free (some a) (some b) h = ap some (container_order_free a b (h a b refl refl))

  -- For any two orders of the `range` loops, the merged containers are the same, if the mounts of
  -- a default and an override of one name agree: any two mounts of one key, one of each side,
  -- merge to a mount of that key.
  pub containers_order_free :
      (defaults overrides : List Container)
      → ((k : String) (a b : Container)
          → find_last (λ c. c.name) k defaults ≡ some a
          → find_last (λ c. c.name) k overrides ≡ some b
          → MountsAgree a.volume_mounts b.volume_mounts)
      → containers order defaults overrides ≡ containers order' defaults overrides
  containers_order_free ds os agree =
      IsSorted-canonical (λ c. c.name) _ _ (containers-joined order ds os).0
        (containers-joined order' ds os).0
        λ k.
          (containers-joined order ds os).1 k
          ∙ combine_order_free (find_last (λ c. c.name) k ds) (find_last (λ c. c.name) k os)
              (agree k)
          ∙ sym ((containers-joined order' ds os).1 k)
