-- ===== src/Merge/Absorb.antt =====
-- Laying one override over an object twice is laying it once: a reconcile that merges again what
-- it has merged changes nothing.
use nacos_operator.Prelude.{String, ◌≡◌, refl, ap, Option, none, some, List, ℤ, arith}
use nacos_operator.GoMap.{RangeOrder}
use nacos_operator.GoMap.Canonical.{sorted_values-absorb, sorted_appended-absorb}
use nacos_operator.Types.{ContainerPort, VolumeDevice, Probe}
use nacos_operator.Merge.Scalars.{over_str, over_int, over_opt}
use nacos_operator.Merge.Values.{
  container_ports, container_port_slices_by_name, merge_volume_device, volume_devices, probe,
}
use nacos_operator.Merge.ByName.{port_kept, device_kept}

str_absorb : (a b : String) → over_str (over_str a b) b ≡ over_str a b
str_absorb a b = ground arith

str_same : (a : String) → over_str a a ≡ a
str_same a = ground arith

int_absorb : (a b : ℤ) → over_int (over_int a b) b ≡ over_int a b
int_absorb a b = ground arith

int_same : (a : ℤ) → over_int a a ≡ a
int_same a = ground arith

opt_absorb {ℓ} : {A : Type ℓ} (a b : Option A) → over_opt (over_opt a b) b ≡ over_opt a b
opt_absorb a none = refl
opt_absorb a (some b) = refl

ports_absorb_one :
    (a b : ContainerPort) → container_ports (container_ports a b) b ≡ container_ports a b
unfolding container_ports
ports_absorb_one a b = λ i. record {
  name = str_absorb a.name b.name i;
  host_port = int_absorb a.host_port b.host_port i;
  container_port = int_absorb a.container_port b.container_port i;
  protocol = str_absorb a.protocol b.protocol i;
  host_ip = str_absorb a.host_ip b.host_ip i;
}

port_same : (b : ContainerPort) → container_ports b b ≡ b
unfolding container_ports
port_same b = λ i. record {
  name = str_same b.name i;
  host_port = int_same b.host_port i;
  container_port = int_same b.container_port i;
  protocol = str_same b.protocol i;
  host_ip = str_same b.host_ip i;
}

device_absorb_one :
    (a b : VolumeDevice) → merge_volume_device (merge_volume_device a b) b ≡ merge_volume_device a b
unfolding merge_volume_device
device_absorb_one a b = λ i. record {
  name = str_absorb a.name b.name i;
  device_path = str_absorb a.device_path b.device_path i;
}

device_same : (b : VolumeDevice) → merge_volume_device b b ≡ b
unfolding merge_volume_device
device_same b = λ i. record { name = str_same b.name i; device_path = str_same b.device_path i }

-- The ports that overrides have been merged into do not change when the same overrides are merged
-- again.
pub ports_absorb :
    (order : RangeOrder) (ds os : List ContainerPort)
    → container_port_slices_by_name order (container_port_slices_by_name order ds os) os
      ≡ container_port_slices_by_name order ds os
unfolding container_port_slices_by_name
ports_absorb order ds os =
    sorted_appended-absorb order (λ p. p.name) container_ports port_kept ports_absorb_one port_same
      ds os

-- The volume devices that overrides have been merged into do not change when the same overrides
-- are merged again.
pub devices_absorb :
    (order : RangeOrder) (ds os : List VolumeDevice)
    → volume_devices order (volume_devices order ds os) os ≡ volume_devices order ds os
unfolding volume_devices
devices_absorb order ds os =
    sorted_values-absorb order (λ d. d.name) merge_volume_device device_kept device_absorb_one
      device_same ds os

probe_absorb_some :
    (a b : Probe) → probe (probe (some a) (some b)) (some b) ≡ probe (some a) (some b)
unfolding probe
probe_absorb_some a b = ap some (λ i. record {
  exec = opt_absorb a.exec b.exec i;
  http_get = opt_absorb a.http_get b.http_get i;
  tcp_socket = opt_absorb a.tcp_socket b.tcp_socket i;
  initial_delay_seconds = int_absorb a.initial_delay_seconds b.initial_delay_seconds i;
  timeout_seconds = int_absorb a.timeout_seconds b.timeout_seconds i;
  period_seconds = int_absorb a.period_seconds b.period_seconds i;
  success_threshold = int_absorb a.success_threshold b.success_threshold i;
  failure_threshold = int_absorb a.failure_threshold b.failure_threshold i;
})

opt_same {ℓ} : {A : Type ℓ} (a : Option A) → over_opt a a ≡ a
opt_same none = refl
opt_same (some a) = refl

probe_same : (b : Probe) → probe (some b) (some b) ≡ some b
unfolding probe
probe_same b = ap some (λ i. record {
  exec = opt_same b.exec i;
  http_get = opt_same b.http_get i;
  tcp_socket = opt_same b.tcp_socket i;
  initial_delay_seconds = int_same b.initial_delay_seconds i;
  timeout_seconds = int_same b.timeout_seconds i;
  period_seconds = int_same b.period_seconds i;
  success_threshold = int_same b.success_threshold i;
  failure_threshold = int_same b.failure_threshold i;
})

-- A probe that an override has been merged into does not change when the same override is merged
-- again, with either of the two absent or not.
pub probe_absorb : (a b : Option Probe) → probe (probe a b) b ≡ probe a b
probe_absorb none none = unfold probe in refl
probe_absorb (some a) none = unfold probe in refl
probe_absorb none (some b) = unfold probe in probe_same b
probe_absorb (some a) (some b) = probe_absorb_some a b

-- Ports, volume devices and a probe that overrides have been merged into do not change when the same
-- overrides are merged again, with either of the two probes absent or not.
pub merges_absorb :
    (order : RangeOrder) (ports new_ports : List ContainerPort)
    (devices new_devices : List VolumeDevice) (a b : Option Probe)
    → (container_port_slices_by_name order
          (container_port_slices_by_name order ports new_ports)
          new_ports
        ≡ container_port_slices_by_name order ports new_ports)
      × (volume_devices order (volume_devices order devices new_devices) new_devices
          ≡ volume_devices order devices new_devices)
      × (probe (probe a b) b ≡ probe a b)
merges_absorb order ports new_ports devices new_devices a b =
    (ports_absorb order ports new_ports, devices_absorb order devices new_devices, probe_absorb a b)
