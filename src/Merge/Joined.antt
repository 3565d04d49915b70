-- ===== src/Merge/Joined.antt =====
-- The lists of a merged object together: those of a container, those that are joined without being
-- sorted, and those of a pod that are joined through one map.
use nacos_operator.Prelude.{String, ◌≡◌, List}
use nacos_operator.GoMap.{RangeOrder}
use nacos_operator.GoMap.Sorting.{find_by, find_last, IsSorted}
use nacos_operator.GoMap.Keyed.{or_else, sorted_values-IsSorted, find_by-sorted_values}
use nacos_operator.Types.{
  Container, EphemeralContainer, KeyToPath, PersistentVolumeClaim, Toleration, HostAlias,
}
use nacos_operator.Merge.Values.{
  merge_single_env, container_ports, merge_volume_device, volume_devices, envs,
  container_port_slices_by_name,
}
use nacos_operator.Merge.Containers.{
  container, containers, ephemeral_container, ephemeral_containers,
}
use nacos_operator.Merge.Workloads.{persistent_volume_claim, volume_claim_templates}
use nacos_operator.Merge.Volumes.{merge_key_to_path, merge_key_to_path_items}
use nacos_operator.Merge.Pods.{tolerations, host_aliases}
use nacos_operator.Merge.ByName.{
  JoinedBy, UnsortedJoin, device_kept, containers-joined, claims-joined, envs-joined, ports-joined,
  ephemeral_containers-joined, items-joined,
}
use nacos_operator.Merge.ByKey.{tolerations-joined, host_aliases-joined, layered}

module _ (order : RangeOrder) where
  -- The merged containers are sorted by name, no name twice, and so are the merged volume claims;
  -- each name has the last default and the last override of that name merged, or whichever of the
  -- two there is, and a name of neither list has none.
  pub objects-JoinedBy :
      (ds os : List Container) (claims new_claims : List PersistentVolumeClaim)
      → JoinedBy (λ c. c.name) (container order) ds os (containers order ds os)
        × JoinedBy
            (λ c. c.name)
            persistent_volume_claim
            claims
            new_claims
            (volume_claim_templates order claims new_claims)
  objects-JoinedBy ds os claims new_claims =
      (containers-joined order ds os, claims-joined order claims new_claims)

  -- The variables, the ports and the devices of a merged container are each sorted by name, no
  -- name twice; each name has the last element of the default and the last of the override of
  -- that name merged, or whichever of the two there is, and a name of neither has none.
  pub container-JoinedBy :
      (default override : Container)
      → JoinedBy
          (λ e. e.name)
          merge_single_env
          default.env
          override.env
          (container order default override).env
        × JoinedBy
            (λ p. p.name)
            container_ports
            default.ports
            override.ports
            (container order default override).ports
        × JoinedBy
            (λ d. d.name)
            merge_volume_device
            default.volume_devices
            override.volume_devices
            (container order default override).volume_devices
  unfolding container envs container_port_slices_by_name volume_devices
  container-JoinedBy d o = (
    envs-joined order d.env o.env,
    ports-joined order d.ports o.ports,
    (
      sorted_values-IsSorted order (λ v. v.name) merge_volume_device d.volume_devices
          o.volume_devices (device_kept d.volume_devices o.volume_devices),
      find_by-sorted_values order (λ v. v.name) merge_volume_device d.volume_devices
          o.volume_devices (device_kept d.volume_devices o.volume_devices),
    ),
  )

  -- The merged ephemeral containers have no name twice and the merged items no key twice, in an
  -- order left open; each name and each key has the last default and the last override of it
  -- merged, or whichever of the two there is, and one of neither list has none.
  pub unsorted-UnsortedJoin :
      (ds os : List EphemeralContainer) (items new_items : List KeyToPath)
      → UnsortedJoin
          (λ c. c.common.name)
          (ephemeral_container order)
          ds
          os
          (ephemeral_containers order ds os)
        × UnsortedJoin
            (λ i. i.key)
            merge_key_to_path
            items
            new_items
            (merge_key_to_path_items order items new_items)
  unsorted-UnsortedJoin ds os items new_items =
      (ephemeral_containers-joined order ds os, items-joined order items new_items)

  -- The merged tolerations are sorted by key, no key twice; each key has the last override of that
  -- key, or else its last default. The merged aliases are sorted by address, no address twice; at
  -- each address stands the last default, with the new hostnames of each override of that address
  -- appended in turn.
  pub one_map-joined :
      (ts new_ts : List Toleration) (aliases new_aliases : List HostAlias)
      → (IsSorted (λ t. t.key) (tolerations order ts new_ts)
          × ((k : String)
              → find_by (λ t. t.key) k (tolerations order ts new_ts)
                ≡ or_else (find_last (λ t. t.key) k new_ts) (find_last (λ t. t.key) k ts)))
        × (IsSorted (λ a. a.ip) (host_aliases order aliases new_aliases)
            × ((k : String)
                → find_by (λ a. a.ip) k (host_aliases order aliases new_aliases)
                  ≡ layered k (find_last (λ a. a.ip) k aliases) new_aliases))
  one_map-joined ts new_ts aliases new_aliases =
      (tolerations-joined order ts new_ts, host_aliases-joined order aliases new_aliases)
