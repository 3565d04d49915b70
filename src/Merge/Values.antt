-- ===== src/Merge/Values.antt =====
-- pkg/util/merge/merge.go: the values inside a container.
use nacos_operator.Prelude.{String, Option, none, some, List, ◌==◌, ◌+++◌, if◌then◌else◌}
use nacos_operator.GoMap.{RangeOrder}
use nacos_operator.GoMap.Sorting.{sort_by}
use nacos_operator.GoMap.Loops.{merged_values, appended_values}
use nacos_operator.Types.{
  EnvVar, ContainerPort, VolumeMount, VolumeDevice, ResourceRequirements, Probe, Lifecycle,
  SecurityContext, EnvVarSource,
}
use nacos_operator.Merge.Scalars.{over_str, over_int, over_bool, over_opt}

-- The two guards of `mergeSingleEnv`, one after the other.
abbrev env_value : EnvVar → EnvVar → EnvVar
env_value merged override =
    if override.value == ""
    then merged
    else record merged { value = override.value; value_from = none }

abbrev env_value_from : EnvVar → Option EnvVarSource → EnvVar
env_value_from merged none = merged
env_value_from merged (some source) = record merged { value_from = some source; value = "" }

unfoldable pub merge_single_env : EnvVar → EnvVar → EnvVar
merge_single_env original override =
    env_value_from (env_value original override) override.value_from

unfoldable pub envs : RangeOrder → List EnvVar → List EnvVar → List EnvVar
envs order original override =
    sort_by (λ e. e.name) (merged_values order (λ e. e.name) merge_single_env original override)

unfoldable pub resource_requirements :
    ResourceRequirements → ResourceRequirements → ResourceRequirements
resource_requirements original override = record {
  limits = over_opt original.limits override.limits;
  requests = over_opt original.requests override.requests;
}

unfoldable pub container_ports : ContainerPort → ContainerPort → ContainerPort
container_ports default_port override_port = record {
  name = over_str default_port.name override_port.name;
  host_port = over_int default_port.host_port override_port.host_port;
  container_port = over_int default_port.container_port override_port.container_port;
  protocol = over_str default_port.protocol override_port.protocol;
  host_ip = over_str default_port.host_ip override_port.host_ip;
}

unfoldable pub container_port_slices_by_name :
    RangeOrder → List ContainerPort → List ContainerPort → List ContainerPort
container_port_slices_by_name order default_ports override_ports =
    sort_by (λ p. p.name)
      (appended_values order (λ p. p.name) container_ports default_ports override_ports)

-- `strings.Join` with an underscore.
unfoldable pub volume_mount_to_string : VolumeMount → String
volume_mount_to_string v = v.name +++ "_" +++ v.mount_path +++ "_" +++ v.sub_path

unfoldable pub volume_mount : VolumeMount → VolumeMount → VolumeMount
volume_mount original override = record {
  name = over_str original.name override.name;
  read_only = over_bool original.read_only override.read_only;
  mount_path = over_str original.mount_path override.mount_path;
  sub_path = over_str original.sub_path override.sub_path;
  mount_propagation = over_opt original.mount_propagation override.mount_propagation;
  sub_path_expr = over_str original.sub_path_expr override.sub_path_expr;
}

unfoldable pub volume_mounts : RangeOrder → List VolumeMount → List VolumeMount → List VolumeMount
volume_mounts order original override =
    sort_by volume_mount_to_string
      (merged_values order volume_mount_to_string volume_mount original override)

unfoldable pub merge_volume_device : VolumeDevice → VolumeDevice → VolumeDevice
merge_volume_device original override = record {
  name = over_str original.name override.name;
  device_path = over_str original.device_path override.device_path;
}

unfoldable pub volume_devices :
    RangeOrder → List VolumeDevice → List VolumeDevice → List VolumeDevice
volume_devices order original override =
    sort_by (λ d. d.name) (merged_values order (λ d. d.name) merge_volume_device original override)

unfoldable pub probe : Option Probe → Option Probe → Option Probe
probe original none = original
probe none (some override) = some override
probe (some original) (some override) = some (record {
  exec = over_opt original.exec override.exec;
  http_get = over_opt original.http_get override.http_get;
  tcp_socket = over_opt original.tcp_socket override.tcp_socket;
  initial_delay_seconds = over_int original.initial_delay_seconds override.initial_delay_seconds;
  timeout_seconds = over_int original.timeout_seconds override.timeout_seconds;
  period_seconds = over_int original.period_seconds override.period_seconds;
  success_threshold = over_int original.success_threshold override.success_threshold;
  failure_threshold = over_int original.failure_threshold override.failure_threshold;
})

unfoldable pub life_cycle : Option Lifecycle → Option Lifecycle → Option Lifecycle
life_cycle original none = original
life_cycle none (some override) = some override
life_cycle (some original) (some override) = some (record {
  post_start = over_opt original.post_start override.post_start;
  pre_stop = over_opt original.pre_stop override.pre_stop;
})

unfoldable pub security_context :
    Option SecurityContext → Option SecurityContext → Option SecurityContext
security_context original none = original
security_context none (some override) = some override
security_context (some original) (some override) = some (record original {
  capabilities = over_opt original.capabilities override.capabilities;
  privileged = over_opt original.privileged override.privileged;
  se_linux_options = over_opt original.se_linux_options override.se_linux_options;
  windows_options = over_opt original.windows_options override.windows_options;
  run_as_user = over_opt original.run_as_user override.run_as_user;
  run_as_group = over_opt original.run_as_group override.run_as_group;
  run_as_non_root = over_opt original.run_as_non_root override.run_as_non_root;
  read_only_root_filesystem =
      over_opt original.read_only_root_filesystem override.read_only_root_filesystem;
  allow_privilege_escalation =
      over_opt original.allow_privilege_escalation override.allow_privilege_escalation;
  proc_mount = over_opt original.proc_mount override.proc_mount;
})
