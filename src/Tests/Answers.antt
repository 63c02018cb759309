-- ===== src/Tests/Answers.antt =====
-- A pair that a command adds to a tty device, and what a write to it is answered from then on.
use linux_hardware_devices_e.Prelude.{
  ◌≡◌, refl, ap, true, none, some, arith, Bytes, length, pos, ◌++◌, [],
}
use linux_hardware_devices_e.Consts.{tty, e2big, eexist, ok}
use linux_hardware_devices_e.Utils.Pair.{HwePair, Parsed, str_to_pair}
use linux_hardware_devices_e.Utils.Pair.Samples.{sync_text, sync_text_parsed}
use linux_hardware_devices_e.Utils.Lookup.{find_pair}
use linux_hardware_devices_e.Sysfs.Bitmap.{find_first_zero_bit}
use linux_hardware_devices_e.Sysfs.Dev.{store_parsed}
use linux_hardware_devices_e.Sysfs.Registry.{
  find_device_by_index, new_dev, new_dev_at, finish_dev, find_free_dev_index, add_dev, update_dev,
}
use linux_hardware_devices_e.Sysfs.Calls.{
  lock_iface_devs, unlock_iface_devs, run, device_at, hwe_add_device, hwe_add_pair, c_string,
}
use linux_hardware_devices_e.Tty.{hwe_create_tty_device}
use linux_hardware_devices_e.Drivers.{create_device, dev_ops}
use linux_hardware_devices_e.Ioctl.{User, write_pair, hwemu_ioctl, make_devid}
use linux_hardware_devices_e.Ioctl.Write.{copied_text, hwemu_ioctl_done}
use linux_hardware_devices_e.Emulator.Transfers.{sent}
use linux_hardware_devices_e.Emulator.Answers.{tty_port, answer_with, hwetty_write-hwemu_ioctl}
use linux_hardware_devices_e.Tests.Plain.{plain}
use linux_hardware_devices_e.Tests.Devices.{kernel, room}
use linux_hardware_devices_e.Tests.Machine.{
  no_errors, with_tty, with_tty-IsConsistent, tty_dev, tty_listed,
}

abbrev caller : User
caller = record {
  device_id = some (pos 0);
  pair_index = none;
  pair = some sync_text;
  writable = true;
  kmalloc = true;
  idx = pos 0;
}

id_of_tty : caller.device_id ≡ some (pos (make_devid tty 0))
unfolding make_devid
id_of_tty = refl

port_there : with_tty.drivers.ttys.ports 0 ≡ some []
unfolding run hwe_add_device new_dev new_dev_at finish_dev find_free_dev_index find_first_zero_bit
    create_device hwe_create_tty_device lock_iface_devs unlock_iface_devs
port_there = refl

pair_added : (hwe_add_pair plain room with_tty tty 0 (copied_text sync_text)).1 ≡ ok 0
unfolding hwe_add_pair run hwe_add_device new_dev new_dev_at finish_dev find_free_dev_index
    find_first_zero_bit create_device hwe_create_tty_device lock_iface_devs unlock_iface_devs
    device_at find_device_by_index c_string store_parsed find_pair add_dev update_dev
pair_added = ap (λ r. (store_parsed e2big eexist ok room tty_dev r).1) sync_text_parsed

command_ok :
    (hwemu_ioctl (dev_ops no_errors) plain room kernel with_tty (write_pair caller)).1 ≡ ok 0
command_ok =
    hwemu_ioctl_done (dev_ops no_errors) plain room kernel with_tty caller tty 0 sync_text id_of_tty
      refl (omega arith) 0 refl refl pair_added

hwetty_write-hwemu_ioctl_example :
    (q p : HwePair) × (str_to_pair plain (c_string (copied_text sync_text)) q ≡ Parsed.ok p)
    × ((r : Bytes)
        → tty_port
            (λ k text. length text)
            (hwemu_ioctl (dev_ops no_errors) plain room kernel with_tty (write_pair caller)).0
            0
            r
          ≡ some ([] ++ sent (λ text. length text) (answer_with tty_dev p r)))
hwetty_write-hwemu_ioctl_example =
    hwetty_write-hwemu_ioctl (dev_ops no_errors) plain room kernel with_tty caller 0 sync_text
      tty_dev 0 (λ k text. length text) [] with_tty-IsConsistent.registries
      with_tty-IsConsistent.linked (omega arith) id_of_tty refl tty_listed port_there command_ok
