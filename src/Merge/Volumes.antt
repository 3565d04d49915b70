-- ===== src/Merge/Volumes.antt =====
-- pkg/util/merge/merge.go: volumes and the files of config maps and secrets.
use nacos_operator.Prelude.{Option, none, some, List, [], ◌∷◌, ◌++◌, ◌==◌, if◌then◌else◌}
use nacos_operator.GoMap.{GoMap, lookup, RangeOrder}
use nacos_operator.GoMap.Sorting.{sort_by}
use nacos_operator.GoMap.Loops.{create_map, appended_values}
use nacos_operator.Types.{
  KeyToPath, EmptyDirVolumeSource, SecretVolumeSource, ConfigMapVolumeSource, VolumeSource, Volume,
}
use nacos_operator.Merge.Scalars.{over_str, over_opt}

unfoldable pub merge_key_to_path : KeyToPath → KeyToPath → KeyToPath
merge_key_to_path default_key override_key =
    if default_key.key == override_key.key
    then record default_key {
      path = over_str default_key.path override_key.path;
      mode = over_opt default_key.mode override_key.mode;
    }
    else default_key

-- Not sorted in the source.
unfoldable pub merge_key_to_path_items :
    RangeOrder → List KeyToPath → List KeyToPath → List KeyToPath
merge_key_to_path_items order default_items override_items =
    appended_values order (λ i. i.key) merge_key_to_path default_items override_items

abbrev pub merge_empty_dir : EmptyDirVolumeSource → EmptyDirVolumeSource → EmptyDirVolumeSource
merge_empty_dir default override = record {
  medium = over_str default.medium override.medium;
  size_limit = over_opt default.size_limit override.size_limit;
}

-- `Optional` stays the default's.
abbrev merge_secret : RangeOrder → SecretVolumeSource → SecretVolumeSource → SecretVolumeSource
merge_secret order default override = record default {
  secret_name = over_str default.secret_name override.secret_name;
  items = merge_key_to_path_items order default.items override.items;
  default_mode = over_opt default.default_mode override.default_mode;
}

abbrev merge_config_map :
    RangeOrder → ConfigMapVolumeSource → ConfigMapVolumeSource → ConfigMapVolumeSource
merge_config_map order default override = record {
  name = over_str default.name override.name;
  items = merge_key_to_path_items order default.items override.items;
  default_mode = over_opt default.default_mode override.default_mode;
  optional = over_opt default.optional override.optional;
}

-- The three tests in turn; the first kind of source that both sides have is merged in place.
abbrev by_config_map :
    RangeOrder
    → VolumeSource
    → VolumeSource
    → Option ConfigMapVolumeSource
    → Option ConfigMapVolumeSource
    → VolumeSource
by_config_map order d o (some a) (some b) = record d {
  config_map = some (merge_config_map order a b);
}
by_config_map order d o _ _ = o

abbrev by_secret :
    RangeOrder
    → VolumeSource
    → VolumeSource
    → Option SecretVolumeSource
    → Option SecretVolumeSource
    → VolumeSource
by_secret order d o (some a) (some b) = record d { secret = some (merge_secret order a b) }
by_secret order d o _ _ = by_config_map order d o d.config_map o.config_map

abbrev by_empty_dir :
    RangeOrder
    → VolumeSource
    → VolumeSource
    → Option EmptyDirVolumeSource
    → Option EmptyDirVolumeSource
    → VolumeSource
by_empty_dir order d o (some a) (some b) = record d { empty_dir = some (merge_empty_dir a b) }
by_empty_dir order d o _ _ = by_secret order d o d.secret o.secret

unfoldable pub volume : RangeOrder → Volume → Volume → Volume
volume order default_volume override_volume =
    let d = default_volume.source in
    let o = override_volume.source in
    record default_volume { source = by_empty_dir order d o d.empty_dir o.empty_dir }

-- The first loop of `Volumes`.
unfoldable pub merge_defaults : RangeOrder → GoMap Volume → List Volume → List Volume
merge_defaults order override_map [] = []
merge_defaults order override_map (d ∷ ds) =
    elim (lookup d.name override_map) [ some o ↦ volume order d o | none ↦ d ]
    ∷ merge_defaults order override_map ds

-- Its second loop.
unfoldable pub add_overrides : GoMap Volume → List Volume → List Volume
add_overrides default_map [] = []
add_overrides default_map (o ∷ os) = elim (lookup o.name default_map) [
  | some _ ↦ add_overrides default_map os
  | none ↦ o ∷ add_overrides default_map os
]

unfoldable pub volumes : RangeOrder → List Volume → List Volume → List Volume
unfolding merge_defaults add_overrides
volumes order default_volumes override_volumes =
    let default_map = create_map (λ v. v.name) default_volumes in
    let override_map = create_map (λ v. v.name) override_volumes in
    sort_by (λ v. v.name)
      (merge_defaults order override_map default_volumes
        ++ add_overrides default_map override_volumes)
