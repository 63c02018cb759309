-- ===== src/Tests/Module.antt =====
-- The ioctl interface and the timer.
use linux_hardware_devices_e.Prelude.{
  ℕ, length, ◌+◌, ◌-◌, ◌%◌, ◌^◌, ◌≡◌, ◌<◌, refl, true, none, some, arith, leb, pos,
}
use linux_hardware_devices_e.Consts.{i2c, spi, hwe_max_devices}
use linux_hardware_devices_e.Utils.Pair.{HwePair}
use linux_hardware_devices_e.Utils.Pair.Samples.{memory, sync_text}
use linux_hardware_devices_e.Sysfs.Registry.Sems.{SameSems}
use linux_hardware_devices_e.Ioctl.{make_devid, parse_devid, User}
use linux_hardware_devices_e.Ioctl.DevId.{parse_devid-make_devid, parse_devid_sound}
use linux_hardware_devices_e.Async.{due_time, is_due, timer_func}
use linux_hardware_devices_e.Async.Schedule.{is_due_period, timer_func_sems}
use linux_hardware_devices_e.Sysfs.Registry.{State, find_first_device}
use linux_hardware_devices_e.Sysfs.Calls.{run, add_pair, add_device}
use linux_hardware_devices_e.Sysfs.Calls.Invariant.{run-Registries}
use linux_hardware_devices_e.Async.{visit_devs}
use linux_hardware_devices_e.Async.Walk.{visit_while, visit_while-visit_devs}
use linux_hardware_devices_e.Tests.Plain.{plain}
use linux_hardware_devices_e.Tests.Devices.{
  ops, room, kernel, first_state, first_state-Registries, one_device,
}

parse_devid-make_devid_example :
    (parse_devid (make_devid spi 255) ≡ some (spi, 255)) × (make_devid spi 255 < 2 ^ 31)
parse_devid-make_devid_example = parse_devid-make_devid spi 255 (omega arith)

-- An id with a bit above the 56 that are looked at.
abbrev odd_id : ℕ
odd_id = 2 ^ 56 + 16777219

parsed : parse_devid odd_id ≡ some (i2c, 3)
unfolding parse_devid
parsed = refl

parse_devid_sound_example : (3 < hwe_max_devices) × (odd_id % 2 ^ 56 ≡ make_devid i2c 3)
parse_devid_sound_example = parse_devid_sound odd_id i2c 3 parsed

abbrev user : User
user = record {
  device_id = some (pos 16777216);
  pair_index = none;
  pair = some sync_text;
  writable = true;
  kmalloc = true;
  idx = pos 0;
}

abbrev received : HwePair
received = record memory { time = 2 ^ 64 - 1; period = 5 }

is_due_period_example :
    (is_due ((2 ^ 64 - 1 + 6) % 2 ^ 64) received ≡ leb 5 6)
    × (due_time ((2 ^ 64 - 1 + 6) % 2 ^ 64) received ≡ (2 ^ 64 - 1 + 5) % 2 ^ 64)
is_due_period_example =
    is_due_period received 6 refl (omega arith) (omega arith) (omega arith) (omega arith)

timer_func_sems_example :
    SameSems first_state (timer_func (λ n iface priv p. n + 1) 100 first_state)
timer_func_sems_example = timer_func_sems (λ n iface priv p. n + 1) 100 first_state

-- A device with a pair.
abbrev with_pair : State ℕ
with_pair = (run plain ops (add_pair room 0 sync_text) one_device i2c).0

visit_while-visit_devs_example :
    visit_while
      (λ n iface priv p. n + 1)
      100
      (length (with_pair.ifaces i2c).dev_list + 1)
      i2c
      with_pair.drivers
      (with_pair.ifaces i2c).dev_list
      (find_first_device (with_pair.ifaces i2c).dev_list)
    ≡ visit_devs (λ n iface priv p. n + 1) 100 i2c with_pair.drivers (with_pair.ifaces i2c).dev_list
visit_while-visit_devs_example =
    visit_while-visit_devs (λ n iface priv p. n + 1) 100 with_pair i2c
      (length (with_pair.ifaces i2c).dev_list + 1)
      (run-Registries plain ops (add_pair room 0 sync_text) one_device i2c
        (run-Registries plain ops (add_device kernel) first_state i2c first_state-Registries))
      (omega arith)
