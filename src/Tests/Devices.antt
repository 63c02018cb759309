-- ===== src/Tests/Devices.antt =====
-- Devices, their pairs, and the calls on them.
use linux_hardware_devices_e.Prelude.{
  ◌↔◌, ◌++◌, ℕ, ◌+◌, ◌≡◌, ◌≢◌, refl, ap, sym, subst, ◌∙◌, true, false, [], ◌∷◌, none, some, arith,
  Bytes, codes, decimal, length, length-replicate, replicate,
}
use linux_hardware_devices_e.Consts.{
  i2c, hwe_max_devices, hwe_max_pairs, Ret, ok, err, fault, enodev, einval, e2big, eexist,
}
use linux_hardware_devices_e.Utils.Pair.{HwePair, Parsed, str_to_pair}
use linux_hardware_devices_e.Utils.Pair.Samples.{memory, sync_pair, sync_text, sync_text_parsed}
use linux_hardware_devices_e.Utils.Lookup.{iface_to_str, find_pair, get_pair_at_index}
use linux_hardware_devices_e.Sysfs.Bitmap.{test_bit, bitmap_weight-replicate, find_first_zero_bit}
use linux_hardware_devices_e.Sysfs.Dev.{
  HweDev, AddEnv, add, dev_attr_store, dev_add_store, dev_delete_store, store_parsed,
}
use linux_hardware_devices_e.Sysfs.Dev.Entries.{Inv}
use linux_hardware_devices_e.Sysfs.Dev.Invariant.{dev_attr_store-Inv}
use linux_hardware_devices_e.Sysfs.Dev.Replies.{
  Added, unless_at, dev_add_store_lookup, dev_delete_store_lookup,
}
use linux_hardware_devices_e.Sysfs.Registry.{
  update_dev, set_iface, kobject_name, shutdown_dev, DevOps, State, DevEnv, blank_dev,
  find_device_by_index, new_dev, find_free_dev_index,
}
use linux_hardware_devices_e.Sysfs.Registry.Lists.{Registries, update_dev-IsRegistry}
use linux_hardware_devices_e.Sysfs.Registry.Invariant.{set_iface-Registries}
use linux_hardware_devices_e.Sysfs.Registry.Sems.{SameSems}
use linux_hardware_devices_e.Sysfs.Calls.{
  add_device, run, device_at, lock_iface_devs, unlock_iface_devs, hwe_add_pair, hwe_add_device,
  c_string,
}
use linux_hardware_devices_e.Sysfs.Calls.Invariant.{run-Registries}
use linux_hardware_devices_e.Sysfs.Calls.Locks.{run_sems}
use linux_hardware_devices_e.Sysfs.Calls.Pairs.{hwe_add_pair_lookup}
use linux_hardware_devices_e.Sysfs.Files.{iface_add_store, iface_uninstall_store, pair_show}
use linux_hardware_devices_e.Sysfs.Files.Names.{
  iface_uninstall_store-kobject_name, iface_add_store-hwe_add_device,
}
use linux_hardware_devices_e.Sysfs.Files.Show.{pair_show-str_to_pair}
use linux_hardware_devices_e.Utils.Pair.RoundTrip.{reparsed}
use linux_hardware_devices_e.Tests.Plain.{plain, scan, to_number}

abbrev pub ops : DevOps ℕ
ops = record { create = λ n iface index. (n + 1, some index); destroy = λ n iface priv. n }

-- The state behind hwe_init_sysfs().
abbrev pub first_state : State ℕ
first_state = record {
  ifaces = λ i. record { dev_list = []; sem = 1; dev_indexes = replicate hwe_max_devices false };
  drivers = 0;
}

pub first_state-Registries : Registries first_state
first_state-Registries i = record {
  size = length-replicate hwe_max_devices false;
  devices = tt;
  counted = bitmap_weight-replicate hwe_max_devices;
}

abbrev pub kernel : DevEnv
kernel = record { kzalloc = true; kobject_add = true; pairs_dir = true }

abbrev pub room : AddEnv
room = record { kmalloc = some memory; create_file = none }

run-Registries_example : Registries (run plain ops (add_device kernel) first_state i2c).0
run-Registries_example =
    run-Registries plain ops (add_device kernel) first_state i2c first_state-Registries

pub added : (run plain ops (add_device kernel) first_state i2c).1 ≡ ok 0
unfolding run hwe_add_device new_dev find_free_dev_index find_first_zero_bit lock_iface_devs
added = refl

run_sems_example : SameSems first_state (run plain ops (add_device kernel) first_state i2c).0
run_sems_example =
    run_sems plain ops (add_device kernel) first_state i2c (omega arith)
      (λ e. let bad : ok 0 ≡ fault = sym added ∙ e in cc)

abbrev pub dev : HweDev
dev = blank_dev i2c 0

pub dev-Inv : Inv dev
dev-Inv = record {
  size = length-replicate hwe_max_pairs false;
  entries = tt;
  counted = bitmap_weight-replicate hwe_max_pairs;
}

dev_attr_store-Inv_example : Inv (dev_attr_store plain add room dev sync_text).0
dev_attr_store-Inv_example = dev_attr_store-Inv plain room dev sync_text dev-Inv add

-- The device with the pair that the text says.
abbrev entry : HwePair
entry = record sync_pair { index = 0; filename = codes "0" }

abbrev dev_with_pair : HweDev
dev_with_pair = record dev { pair_list = entry ∷ []; pairs_indexes = true ∷ replicate 999 false }

stored_ok : dev_add_store plain room dev sync_text ≡ (dev_with_pair, ok 7)
unfolding dev_add_store store_parsed find_first_zero_bit find_pair decimal
stored_ok = ap (store_parsed einval einval (λ idx. ok 7) room dev) sync_text_parsed

dev_add_store_lookup_example :
    (q p : HwePair) × (room.kmalloc ≡ some q)
    × (str_to_pair plain sync_text q ≡ Parsed.ok p)
    × (7 ≡ length sync_text)
    × Added dev dev_with_pair p
dev_add_store_lookup_example =
    dev_add_store_lookup plain room dev dev_with_pair sync_text 7 stored_ok

dev_with_pair-Inv : Inv dev_with_pair
unfolding dev_attr_store
dev_with_pair-Inv =
    subst (λ (x : HweDev × Ret). Inv x.0) stored_ok
      (dev_attr_store-Inv plain room dev sync_text dev-Inv add)

read_index : plain.kstrtouint (codes "0") ≡ some 0
unfolding scan to_number
read_index = refl

found_entry : get_pair_at_index dev_with_pair.pair_list 0 ≡ some entry
unfolding get_pair_at_index
found_entry = refl

abbrev deleted : HweDev × Ret
deleted = dev_delete_store plain dev_with_pair (codes "0")

dev_delete_store_lookup_example :
    (deleted.1 ≡ ok 1)
    × ((r : Bytes)
        → find_pair deleted.0.pair_list r ≡ unless_at 0 (find_pair dev_with_pair.pair_list r))
    × (test_bit deleted.0.pairs_indexes 0 ≡ false)
dev_delete_store_lookup_example =
    dev_delete_store_lookup plain dev_with_pair (codes "0") dev_with_pair-Inv 0 entry (λ e. cc)
      read_index found_entry

no_device : device_at first_state i2c 3 ≡ none
unfolding device_at find_device_by_index
no_device = refl

up_to_nul : str_to_pair plain (c_string sync_text) memory ≡ Parsed.ok sync_pair
unfolding c_string
up_to_nul = sync_text_parsed

-- The state with one device.
abbrev pub one_device : State ℕ
one_device = (run plain ops (add_device kernel) first_state i2c).0

abbrev ready : HweDev
ready = record dev { device = some 0; pairs_kobj = true }

found_ready : device_at one_device i2c 0 ≡ some ready
unfolding run hwe_add_device new_dev find_free_dev_index find_first_zero_bit lock_iface_devs
    unlock_iface_devs device_at find_device_by_index
found_ready = refl

pair_added : (hwe_add_pair plain room one_device i2c 0 sync_text).1 ≡ ok 0
unfolding hwe_add_pair run hwe_add_device new_dev find_free_dev_index find_first_zero_bit
    lock_iface_devs unlock_iface_devs device_at find_device_by_index c_string store_parsed find_pair
pair_added = ap (λ r. (store_parsed e2big eexist ok room ready r).1) sync_text_parsed

hwe_add_pair_lookup_example :
    (dev' : HweDev) × (q p : HwePair) × (device_at
        (hwe_add_pair plain room one_device i2c 0 sync_text).0
        i2c
        0
      ≡ some dev')
    × (str_to_pair plain (c_string sync_text) q ≡ Parsed.ok p)
    × Added ready dev' p
    × (0 ≡ find_first_zero_bit ready.pairs_indexes)
hwe_add_pair_lookup_example =
    hwe_add_pair_lookup plain room one_device i2c 0 sync_text ready 0
      (run-Registries plain ops (add_device kernel) first_state i2c first_state-Registries)
      found_ready pair_added

-- "i2c0" and a newline, with one device there.
iface_uninstall_store-kobject_name_example :
    iface_uninstall_store plain ops one_device (iface_to_str i2c) (kobject_name ready ++ 10 ∷ [])
    ≡ (
      unlock_iface_devs (shutdown_dev ops (lock_iface_devs one_device i2c) ready) i2c,
      ok (length (kobject_name ready ++ 10 ∷ [])),
    )
iface_uninstall_store-kobject_name_example =
    iface_uninstall_store-kobject_name plain ops one_device i2c 0 ready (10 ∷ [])
      (run-Registries plain ops (add_device kernel) first_state i2c first_state-Registries)
      found_ready refl

iface_add_store-hwe_add_device_example :
    ((iface_add_store plain ops kernel first_state (iface_to_str i2c) (codes "1")).0
      ≡ (hwe_add_device ops kernel first_state i2c).0)
    × (((iface_add_store plain ops kernel first_state (iface_to_str i2c) (codes "1")).1 ≡ ok 1)
        ↔ ((hwe_add_device ops kernel first_state i2c).1 ≢ err enodev))
iface_add_store-hwe_add_device_example =
    iface_add_store-hwe_add_device plain ops kernel first_state i2c (codes "1") (omega arith)

-- The device with the pair, as the only one.
abbrev with_pair : State ℕ
with_pair =
    let ifc = one_device.ifaces i2c in
    set_iface one_device i2c (record ifc { dev_list = update_dev dev_with_pair ifc.dev_list })

with_pair-Registries : Registries with_pair
with_pair-Registries =
    let v = run-Registries plain ops (add_device kernel) first_state i2c first_state-Registries in
    set_iface-Registries one_device i2c _ v (
      update_dev-IsRegistry dev_with_pair i2c (one_device.ifaces i2c) (v i2c) refl
        dev_with_pair-Inv)

found_with_pair : device_at with_pair i2c 0 ≡ some dev_with_pair
unfolding run hwe_add_device new_dev find_free_dev_index find_first_zero_bit lock_iface_devs
    unlock_iface_devs device_at find_device_by_index update_dev
found_with_pair = refl

pair_show-str_to_pair_example :
    (s : Bytes) × (pair_show plain with_pair
        (iface_to_str i2c)
        (kobject_name dev_with_pair)
        (decimal 0)
      ≡ (unlock_iface_devs (lock_iface_devs with_pair i2c) i2c, s))
    × (str_to_pair plain s memory ≡ Parsed.ok (reparsed plain entry memory))
pair_show-str_to_pair_example =
    pair_show-str_to_pair plain with_pair i2c 0 0 dev_with_pair entry memory with_pair-Registries
      found_with_pair found_entry
