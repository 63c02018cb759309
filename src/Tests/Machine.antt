-- ===== src/Tests/Machine.antt =====
-- The module with its drivers: loading it, a tty device with a pair, a write to it, and unloading.
use linux_hardware_devices_e.Prelude.{
  ℕ, suc, ◌+◌, ◌≤◌, ◌≡◌, ◌≢◌, ◌↔◌, refl, ap, true, false, List, [], ◌∷◌, ◌++◌, none, some, arith,
  All, codes, decimal, length, length-replicate, replicate, ◌==◌, if◌then◌else◌,
}
use linux_hardware_devices_e.Consts.{
  Iface, tty, i2c, net, spi, hwe_max_devices, enodev, enomem, einval, Ret, ok, err, fault,
}
use linux_hardware_devices_e.Utils.Pair.{HwePair}
use linux_hardware_devices_e.Utils.Pair.Samples.{sync_pair, sync_text, sync_text_parsed}
use linux_hardware_devices_e.Utils.Lookup.{find_pair}
use linux_hardware_devices_e.Sysfs.Bitmap.{bitmap_weight-replicate, find_first_zero_bit}
use linux_hardware_devices_e.Sysfs.Dev.{HweDev, add, dev_add_store, dev_attr_store, store_parsed}
use linux_hardware_devices_e.Sysfs.Registry.{
  blank_dev, find_device_by_index, new_dev, new_dev_at, finish_dev, find_free_dev_index, add_dev,
  update_dev,
}
use linux_hardware_devices_e.Sysfs.Calls.{
  lock_iface_devs, unlock_iface_devs, add_device, run, device_at, hwe_add_device, put_dev,
}
use linux_hardware_devices_e.Handles.{Contract, Linked}
use linux_hardware_devices_e.Handles.Calls.{run-Linked}
use linux_hardware_devices_e.Pool.{Memory, lookup}
use linux_hardware_devices_e.Tty.{TtyDriver, hwe_init_tty, hwe_create_tty_device}
use linux_hardware_devices_e.Tty.Load.{hwe_init_tty_cases, loaded, port_after}
use linux_hardware_devices_e.Drivers.{create_device, DriversEnv, dev_ops, owner, IsSound}
use linux_hardware_devices_e.Drivers.Laws.{dev_ops-Contract}
use linux_hardware_devices_e.Emulator.{Emulator, hwetty_write}
use linux_hardware_devices_e.Emulator.Keeps.{IsConsistent}
use linux_hardware_devices_e.Emulator.Steps.{
  call, here, next, Step-IsConsistent, Reach-IsConsistent,
}
use linux_hardware_devices_e.Emulator.Steps.Files.{dev_store, dev_store-IsConsistent}
use linux_hardware_devices_e.Emulator.Transfers.{hwetty_write_missing, hwetty_write_listed, sent}
use linux_hardware_devices_e.Loading.{Whole, LoadEnv, zero_whole, zero_drivers}
use linux_hardware_devices_e.Loading.Start.{empty-IsConsistent}
use linux_hardware_devices_e.Tests.Plain.{plain}
use linux_hardware_devices_e.Tests.Devices.{kernel, room}

-- An address above all that are in use.
abbrev pub above : List ℕ → ℕ
above [] = 1
above (a ∷ live) = suc (a + above live)

above_apart : (live : List ℕ) (a : ℕ) → above live ≤ a → All (λ b. b ≢ a) live
above_apart [] a le = tt
above_apart (b ∷ live) a le =
    ((λ e. absurd (omega (arith, e, le))), above_apart live a (omega (arith, le)))

pub fresh_above : (live : List ℕ) (a : ℕ) → some (above live) ≡ some a → All (λ b. b ≢ a) live
fresh_above live a e = let it : above live ≡ a = cc in above_apart live a (omega (arith, it))

abbrev pub heap : Memory
heap = record { alloc = λ live. some (above live); fresh = fresh_above }

abbrev pub no_errors : DriversEnv
no_errors = record {
  for_tty = record { kzalloc = true; register_device = none };
  for_i2c = record { memory = heap; add_adapter = none };
  for_net = record { memory = heap; register_netdev = none };
  for_spi = record { memory = heap; register_master = none; new_device = true };
}

dev_ops-Contract_example : Contract (dev_ops no_errors) owner IsSound
dev_ops-Contract_example = dev_ops-Contract no_errors

-- The state behind a load with no error.
abbrev pub first : Emulator
first = record {
  ifaces = λ i. record { dev_list = []; sem = 1; dev_indexes = replicate hwe_max_devices false };
  drivers = record zero_drivers {
    ttys = record { driver = true; devices = λ k. none; ports = λ k. some [] };
  };
}

first_owner : (i : Iface) (h : ℕ) → owner first.drivers i h ≡ none
unfolding lookup
first_owner tty h = refl
first_owner i2c h = refl
first_owner net h = refl
first_owner spi h = refl

first-IsSound : IsSound first.drivers
first-IsSound = record {
  table = λ k dev e. absurd cc;
  i2c_distinct = tt;
  net_distinct = tt;
  spi_distinct = tt;
  safe = refl;
}

pub first-IsConsistent : IsConsistent first
first-IsConsistent =
    empty-IsConsistent first
      (λ i. record {
        size = length-replicate hwe_max_devices false;
        devices = tt;
        counted = bitmap_weight-replicate hwe_max_devices;
      })
      (λ i. refl) first-IsSound first_owner

run-Linked_example :
    Linked owner IsSound (run plain (dev_ops no_errors) (add_device kernel) first tty).0
run-Linked_example =
    run-Linked plain (dev_ops no_errors) owner IsSound (dev_ops-Contract no_errors)
      (add_device kernel) first tty first-IsConsistent.registries first-IsConsistent.linked

abbrev pub with_tty : Emulator
with_tty = (run plain (dev_ops no_errors) (add_device kernel) first tty).0

Reach-IsConsistent_example : IsConsistent with_tty
Reach-IsConsistent_example =
    Reach-IsConsistent plain
      (next here (call first no_errors (add_device kernel) tty (omega arith))) first-IsConsistent

no_third : device_at first tty 3 ≡ none
unfolding device_at find_device_by_index
no_third = refl

hwetty_write_missing_example :
    hwetty_write (λ k text. length text) first 3 (65 ∷ [])
    ≡ (unlock_iface_devs (lock_iface_devs first tty) tty, err enodev)
hwetty_write_missing_example =
    hwetty_write_missing (λ k text. length text) first 3 (65 ∷ []) first-IsConsistent.linked
      no_third

abbrev pub tty_dev : HweDev
tty_dev = record (blank_dev tty 0) { device = some 0; pairs_kobj = true }

pub with_tty-IsConsistent : IsConsistent with_tty
with_tty-IsConsistent =
    Step-IsConsistent plain (call first no_errors (add_device kernel) tty (omega arith))
      first-IsConsistent

pub tty_listed : device_at with_tty tty 0 ≡ some tty_dev
unfolding run device_at find_device_by_index hwe_add_device new_dev new_dev_at finish_dev
    find_free_dev_index find_first_zero_bit lock_iface_devs unlock_iface_devs create_device
    hwe_create_tty_device add_dev update_dev
tty_listed = refl

abbrev entry : HwePair
entry = record sync_pair { index = 0; filename = codes "0" }

abbrev tty_with_pair : HweDev
tty_with_pair = record tty_dev {
  pair_list = entry ∷ [];
  pairs_indexes = true ∷ replicate 999 false;
}

stored : dev_add_store plain room tty_dev sync_text ≡ (tty_with_pair, ok 7)
unfolding dev_add_store store_parsed find_first_zero_bit find_pair decimal
stored = ap (store_parsed einval einval (λ idx. ok 7) room tty_dev) sync_text_parsed

abbrev ready : Emulator
ready = dev_store plain add room with_tty tty tty_dev sync_text

ready-IsConsistent : IsConsistent ready
ready-IsConsistent =
    dev_store-IsConsistent plain add room with_tty tty 0 tty_dev sync_text tty_listed
      with_tty-IsConsistent

with_entry : device_at ready tty 0 ≡ some tty_with_pair
unfolding dev_store dev_attr_store put_dev lock_iface_devs unlock_iface_devs update_dev run
    device_at find_device_by_index hwe_add_device new_dev new_dev_at finish_dev find_free_dev_index
    find_first_zero_bit create_device hwe_create_tty_device add_dev
with_entry =
    ap
      (λ (x : HweDev × Ret).
        device_at (unlock_iface_devs (put_dev (lock_iface_devs with_tty tty) tty x.0) tty) tty 0)
      stored

port_ready : ready.drivers.ttys.ports 0 ≡ some []
unfolding dev_store put_dev lock_iface_devs unlock_iface_devs run hwe_add_device new_dev new_dev_at
    finish_dev find_free_dev_index find_first_zero_bit create_device hwe_create_tty_device
port_ready = refl

hwetty_write_listed_example :
    ((hwetty_write (λ k text. length text) ready 0 (1 ∷ 171 ∷ [])).1 ≡ ok 2)
    × ((hwetty_write (λ k text. length text) ready 0 (1 ∷ 171 ∷ [])).0.drivers.ttys.ports 0 ≡ (
        if 0 == 0
        then some
            ([] ++ sent (λ text. length text) (find_pair tty_with_pair.pair_list (1 ∷ 171 ∷ [])))
        else ready.drivers.ttys.ports 0))
hwetty_write_listed_example =
    hwetty_write_listed (λ k text. length text) ready 0 (1 ∷ 171 ∷ []) ready-IsConsistent.linked
      tty_with_pair [] 0 with_entry port_ready

abbrev pub load_env : LoadEnv
load_env = record {
  alloc_driver = true;
  register_driver = none;
  plat_device = none;
  plat_driver = none;
  kset = true;
  kobjects = λ i. none;
  ioctl = record {
    alloc_region = none;
    class_create = none;
    cdev_add = none;
    device_create = none;
  };
  devices = no_errors;
}

abbrev running : Whole
running = record zero_whole { sysfs = record zero_whole.sysfs { state = with_tty } }

abbrev tty_failed : TtyDriver × Ret
tty_failed = hwe_init_tty true (some enomem) zero_drivers.ttys

hwe_init_tty_cases_example :
    (tty_failed.0.driver ≡ loaded tty_failed.1)
    × (tty_failed.0.ports 255 ≡ port_after tty_failed.1)
    × ((true ≡ false) ↔ (tty_failed.1 ≡ fault))
hwe_init_tty_cases_example =
    hwe_init_tty_cases true (some enomem) zero_drivers.ttys 255 refl (omega arith)
