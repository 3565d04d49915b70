-- ===== src/Merge/Containers.antt =====
-- pkg/util/merge/merge.go and merge_ephemeral_container.go: containers.
use nacos_operator.Prelude.{List}
use nacos_operator.GoMap.{RangeOrder}
use nacos_operator.GoMap.Sorting.{sort_by}
use nacos_operator.GoMap.Loops.{merged_values}
use nacos_operator.Types.{Container, EphemeralContainer}
use nacos_operator.Merge.Scalars.{over_str, over_bool, string_slices}
use nacos_operator.Merge.Values.{
  container_port_slices_by_name, envs, resource_requirements, volume_mounts, volume_devices, probe,
  life_cycle, security_context,
}

-- `EnvFrom` stays the default's: no line of `Container` reads the override's.
unfoldable pub container : RangeOrder → Container → Container → Container
container order default override = record default {
  name = over_str default.name override.name;
  image = over_str default.image override.image;
  command = string_slices default.command override.command;
  args = string_slices default.args override.args;
  working_dir = over_str default.working_dir override.working_dir;
  ports = container_port_slices_by_name order default.ports override.ports;
  env = envs order default.env override.env;
  resources = resource_requirements default.resources override.resources;
  volume_mounts = volume_mounts order default.volume_mounts override.volume_mounts;
  volume_devices = volume_devices order default.volume_devices override.volume_devices;
  liveness_probe = probe default.liveness_probe override.liveness_probe;
  readiness_probe = probe default.readiness_probe override.readiness_probe;
  startup_probe = probe default.startup_probe override.startup_probe;
  lifecycle = life_cycle default.lifecycle override.lifecycle;
  termination_message_path =
      over_str default.termination_message_path override.termination_message_path;
  termination_message_policy =
      over_str default.termination_message_policy override.termination_message_policy;
  image_pull_policy = over_str default.image_pull_policy override.image_pull_policy;
  security_context = security_context default.security_context override.security_context;
  stdin = over_bool default.stdin override.stdin;
  stdin_once = over_bool default.stdin_once override.stdin_once;
  tty = over_bool default.tty override.tty;
}

unfoldable pub containers : RangeOrder → List Container → List Container → List Container
containers order defaults overrides =
    sort_by (λ c. c.name) (merged_values order (λ c. c.name) (container order) defaults overrides)

-- The fields that both kinds of container share are merged line by line as in `Container`.
unfoldable pub ephemeral_container :
    RangeOrder → EphemeralContainer → EphemeralContainer → EphemeralContainer
ephemeral_container order default override = record {
  common = container order default.common override.common;
  target_container_name = over_str default.target_container_name override.target_container_name;
}

-- Not sorted: the call of `sort.SliceStable` is commented out in the source.
unfoldable pub ephemeral_containers :
    RangeOrder → List EphemeralContainer → List EphemeralContainer → List EphemeralContainer
ephemeral_containers order defaults overrides =
    merged_values order (λ c. c.common.name) (ephemeral_container order) defaults overrides
