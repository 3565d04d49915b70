-- ===== src/Samples/Merging.antt =====
-- The theorems on the merge package at a pod of Nacos and what a user lays over it.
use nacos_operator.Prelude.{
  String, ◌≡◌, ◌≢◌, refl, sym, ap, Bool, true, false, Option, none, some, List, [], ◌∷◌, ◌==◌,
  ◌+++◌, ℤ, pos, if◌then◌else◌,
}
use nacos_operator.GoMap.Orders.{in_order, swapped_at}
use nacos_operator.GoMap.Sorting.{IsSorted, find_by, find_last}
use nacos_operator.GoMap.Keyed.{or_else}
use nacos_operator.Types.{
  Container, EnvVar, ContainerPort, VolumeMount, VolumeDevice, EphemeralContainer, KeyToPath,
  PersistentVolumeClaim, Toleration, HostAlias, PodSpec, Probe, StatefulSetSpec, LabelSelector,
  zero_container, zero_pod_spec, zero_resources,
}
use nacos_operator.Merge.{
  merge_single_env, container_ports, container_port_slices_by_name, merge_volume_device,
  volume_devices, probe, volume_mounts, volume_mount, container, containers, ephemeral_container,
  ephemeral_containers, merge_key_to_path, merge_key_to_path_items, tolerations, host_aliases,
  pod_spec, persistent_volume_claim, volume_claim_templates,
}
use nacos_operator.Merge.Scalars.{contains_string, string_slices}
use nacos_operator.Merge.ByName.{JoinedBy, UnsortedJoin, MountsAgree, containers_order_free}
use nacos_operator.Merge.ByKey.{layered}
use nacos_operator.Merge.Joined.{
  objects-JoinedBy, container-JoinedBy, unsorted-UnsortedJoin, one_map-joined,
}
use nacos_operator.Merge.Absorb.{merges_absorb}
use nacos_operator.Merge.Strings.{IsUnion, string_slices-IsUnion}
use nacos_operator.Merge.Zero.{pod_spec-zero}
use nacos_operator.Merge.Clashes.{mount, volume_mounts_clash, ephemeral_containers-order_shows}

abbrev env : String → String → EnvVar
env name value = record { name = name; value = value; value_from = none }

abbrev port : String → ℤ → ContainerPort
port name number = record {
  name = name;
  host_port = pos 0;
  container_port = number;
  protocol = "TCP";
  host_ip = "";
}

abbrev nacos : Container
nacos = record zero_container {
  name = "nacos";
  image = "nacos/nacos-server";
  env = env "MODE" "cluster" ∷ env "TZ" "UTC" ∷ [];
  ports = port "client" (pos 8848) ∷ [];
  volume_mounts = mount "db" "/data" "" ∷ [];
}

abbrev sidecar : Container
sidecar = record zero_container { name = "sidecar"; image = "busybox" }

abbrev nacos_override : Container
nacos_override = record zero_container { name = "nacos"; image = "mirror/nacos" }

-- No override has a mount.
no_mounts :
    (k : String) (b : Container)
    → find_last (λ c. c.name) k (sidecar ∷ nacos_override ∷ []) ≡ some b
    → b.volume_mounts ≡ []
no_mounts k b e = go ("nacos" == k) ("sidecar" == k) e
  where
    go :
        (n s : Bool)
        → elim (if n then some nacos_override else none) [
          | some c ↦ some c
          | none ↦ if s then some sidecar else none
        ]
          ≡ some b
        → b.volume_mounts ≡ []
    go true s h = ap (λ o. elim o [ some c ↦ c.volume_mounts | none ↦ [] ]) (sym h)
    go false true h = ap (λ o. elim o [ some c ↦ c.volume_mounts | none ↦ [] ]) (sym h)
    go false false h = cc

agree_without : (xs ys : List VolumeMount) → ys ≡ [] → MountsAgree xs ys
agree_without xs [] e k a b h g = cc
agree_without xs (y ∷ ys) e k a b h g = cc

overrides_agree :
    (k : String) (a b : Container)
    → find_last (λ c. c.name) k (nacos ∷ []) ≡ some a
    → find_last (λ c. c.name) k (sidecar ∷ nacos_override ∷ []) ≡ some b
    → MountsAgree a.volume_mounts b.volume_mounts
overrides_agree k a b h e = agree_without a.volume_mounts b.volume_mounts (no_mounts k b e)

containers_order_free_example :
    containers in_order (nacos ∷ []) (sidecar ∷ nacos_override ∷ [])
    ≡ containers (swapped_at 2) (nacos ∷ []) (sidecar ∷ nacos_override ∷ [])
containers_order_free_example =
    containers_order_free in_order (swapped_at 2) (nacos ∷ []) (sidecar ∷ nacos_override ∷ [])
      overrides_agree

abbrev pod : PodSpec
pod = record zero_pod_spec { containers = nacos ∷ sidecar ∷ []; dns_policy = "ClusterFirst" }

pod_spec-zero_example : pod_spec in_order pod zero_pod_spec ≡ pod
pod_spec-zero_example = pod_spec-zero in_order pod (record {
  volumes = tt;
  containers = ((refl, tt), (tt, tt));
  init_containers = tt;
  tolerations = tt;
  host_aliases = tt;
})

abbrev claim : String → PersistentVolumeClaim
claim class_name = record {
  name = "db";
  namespace = "default";
  spec = record {
    access_modes = "ReadWriteOnce" ∷ [];
    selector = none;
    resources = zero_resources;
    storage_class_name = some class_name;
    volume_mode = none;
    data_source = none;
  };
}

abbrev ephemeral : Container → EphemeralContainer
ephemeral c = record { common = c; target_container_name = "" }

abbrev item : String → String → KeyToPath
item key path = record { key = key; path = path; mode = none }

abbrev toleration : String → String → Toleration
toleration key value = record {
  key = key;
  operator = "Equal";
  value = value;
  effect = "NoSchedule";
  toleration_seconds = none;
}

abbrev old_tolerations : List Toleration
old_tolerations = toleration "zone" "a" ∷ toleration "gpu" "no" ∷ []

abbrev new_tolerations : List Toleration
new_tolerations = toleration "zone" "b" ∷ []

abbrev alias : String → List String → HostAlias
alias ip names = record { ip = ip; hostnames = names }

abbrev old_aliases : List HostAlias
old_aliases = alias "10.0.0.1" ("db" ∷ []) ∷ []

abbrev new_aliases : List HostAlias
new_aliases = alias "10.0.0.1" ("db" ∷ "mysql" ∷ []) ∷ alias "10.0.0.2" ("lb" ∷ []) ∷ []

abbrev device : String → VolumeDevice
device path = record { name = "disk"; device_path = path }

abbrev period : ℤ → Probe
period seconds = record {
  exec = none;
  http_get = none;
  tcp_socket = none;
  initial_delay_seconds = pos 0;
  timeout_seconds = pos 0;
  period_seconds = seconds;
  success_threshold = pos 0;
  failure_threshold = pos 0;
}

volume_mounts_clash_example :
    volume_mounts in_order
      (mount "data" ("/home" +++ "_" +++ "nacos") "logs" ∷ [])
      (mount "data" "/home" ("nacos" +++ "_" +++ "logs") ∷ [])
    ≡ volume_mount
        (mount "data" ("/home" +++ "_" +++ "nacos") "logs")
        (mount "data" "/home" ("nacos" +++ "_" +++ "logs"))
      ∷ []
volume_mounts_clash_example = volume_mounts_clash "data" "/home" "nacos" "logs"

ephemeral_containers-order_shows_example :
    ephemeral_containers in_order [] (ephemeral nacos ∷ ephemeral sidecar ∷ [])
    ≢ ephemeral_containers (swapped_at 2) [] (ephemeral nacos ∷ ephemeral sidecar ∷ [])
ephemeral_containers-order_shows_example =
    ephemeral_containers-order_shows (ephemeral nacos) (ephemeral sidecar) (λ e. cc)

abbrev set_spec : Option LabelSelector → StatefulSetSpec
set_spec selector = record {
  replicas = some (pos 3);
  selector = selector;
  template = record { labels = []; annotations = []; namespace = "default"; spec = pod };
  volume_claim_templates = [];
  service_name = "nacos";
  pod_management_policy = "";
  update_strategy_type = "";
  rolling_update = none;
  revision_history_limit = none;
}

abbrev user_selector : LabelSelector
user_selector = record { match_labels = ("app", "nacos") ∷ []; match_expressions = [] }

abbrev tz_override : Container
tz_override = record zero_container {
  env = env "TZ" "CET" ∷ [];
  ports = port "client" (pos 9848) ∷ [];
  volume_devices = device "/dev/sdb" ∷ [];
}

container-JoinedBy_example :
    JoinedBy
      (λ e. e.name)
      merge_single_env
      nacos.env
      tz_override.env
      (container in_order nacos tz_override).env
    × JoinedBy
        (λ p. p.name)
        container_ports
        nacos.ports
        tz_override.ports
        (container in_order nacos tz_override).ports
    × JoinedBy
        (λ d. d.name)
        merge_volume_device
        nacos.volume_devices
        tz_override.volume_devices
        (container in_order nacos tz_override).volume_devices
container-JoinedBy_example = container-JoinedBy in_order nacos tz_override

unsorted-UnsortedJoin_example :
    UnsortedJoin
      (λ c. c.common.name)
      (ephemeral_container in_order)
      (ephemeral nacos ∷ [])
      (ephemeral sidecar ∷ ephemeral nacos_override ∷ [])
      (ephemeral_containers in_order
        (ephemeral nacos ∷ [])
        (ephemeral sidecar ∷ ephemeral nacos_override ∷ []))
    × UnsortedJoin
        (λ i. i.key)
        merge_key_to_path
        (item "a" "x" ∷ [])
        (item "a" "y" ∷ item "b" "z" ∷ [])
        (merge_key_to_path_items in_order (item "a" "x" ∷ []) (item "a" "y" ∷ item "b" "z" ∷ []))
unsorted-UnsortedJoin_example =
    unsorted-UnsortedJoin in_order (ephemeral nacos ∷ [])
      (ephemeral sidecar ∷ ephemeral nacos_override ∷ []) (item "a" "x" ∷ [])
      (item "a" "y" ∷ item "b" "z" ∷ [])

one_map-joined_example :
    (IsSorted (λ t. t.key) (tolerations in_order old_tolerations new_tolerations)
      × ((k : String)
          → find_by (λ t. t.key) k (tolerations in_order old_tolerations new_tolerations)
            ≡ or_else
                (find_last (λ t. t.key) k new_tolerations)
                (find_last (λ t. t.key) k old_tolerations)))
    × (IsSorted (λ a. a.ip) (host_aliases in_order old_aliases new_aliases)
        × ((k : String)
            → find_by (λ a. a.ip) k (host_aliases in_order old_aliases new_aliases)
              ≡ layered k (find_last (λ a. a.ip) k old_aliases) new_aliases))
one_map-joined_example =
    one_map-joined in_order old_tolerations new_tolerations old_aliases new_aliases

merges_absorb_example :
    (container_port_slices_by_name in_order
        (container_port_slices_by_name in_order nacos.ports tz_override.ports)
        tz_override.ports
      ≡ container_port_slices_by_name in_order nacos.ports tz_override.ports)
    × (volume_devices in_order
          (volume_devices in_order (device "/dev/sda" ∷ []) tz_override.volume_devices)
          tz_override.volume_devices
        ≡ volume_devices in_order (device "/dev/sda" ∷ []) tz_override.volume_devices)
    × (probe (probe (some (period (pos 5))) (some (period (pos 7)))) (some (period (pos 7)))
        ≡ probe (some (period (pos 5))) (some (period (pos 7))))
merges_absorb_example =
    merges_absorb in_order nacos.ports tz_override.ports (device "/dev/sda" ∷ [])
      tz_override.volume_devices (some (period (pos 5))) (some (period (pos 7)))

string_slices-IsUnion_example :
    IsUnion
      ("a" ∷ "b" ∷ [])
      ("b" ∷ "c" ∷ "c" ∷ [])
      (string_slices ("a" ∷ "b" ∷ []) ("b" ∷ "c" ∷ "c" ∷ []))
string_slices-IsUnion_example =
    string_slices-IsUnion ("a" ∷ "b" ∷ []) ("b" ∷ "c" ∷ "c" ∷ [])
      (unfold contains_string in (refl, (refl, tt)))

objects-JoinedBy_example :
    JoinedBy
      (λ c. c.name)
      (container in_order)
      (nacos ∷ [])
      (sidecar ∷ nacos_override ∷ [])
      (containers in_order (nacos ∷ []) (sidecar ∷ nacos_override ∷ []))
    × JoinedBy
        (λ c. c.name)
        persistent_volume_claim
        (claim "standard" ∷ [])
        (claim "fast" ∷ [])
        (volume_claim_templates in_order (claim "standard" ∷ []) (claim "fast" ∷ []))
objects-JoinedBy_example =
    objects-JoinedBy in_order (nacos ∷ []) (sidecar ∷ nacos_override ∷ []) (claim "standard" ∷ [])
      (claim "fast" ∷ [])
