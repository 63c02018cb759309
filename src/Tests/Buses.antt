-- ===== src/Tests/Buses.antt =====
-- The net, i2c and spi drivers with one device each, and loading sysfs and ioctl.
use linux_hardware_devices_e.Prelude.{
  ℕ, ◌≡◌, ◌≢◌, All, refl, ap, true, false, List, [], ◌∷◌, Option, none, some, arith, codes, decimal,
  beq, length, replicate, ◌==◌, if◌then◌else◌,
}
use linux_hardware_devices_e.Consts.{Iface, i2c, net, spi, Errno, enomem, einval, Ret, ok}
use linux_hardware_devices_e.Utils.Pair.{HwePair}
use linux_hardware_devices_e.Utils.Pair.Samples.{sync_pair, sync_text, sync_text_parsed}
use linux_hardware_devices_e.Utils.Lookup.{find_pair, answers}
use linux_hardware_devices_e.Sysfs.Bitmap.{find_first_zero_bit}
use linux_hardware_devices_e.Sysfs.Dev.{HweDev, add, dev_add_store, dev_attr_store, store_parsed}
use linux_hardware_devices_e.Sysfs.Registry.{
  blank_dev, find_device_by_index, new_dev, new_dev_at, finish_dev, find_free_dev_index, add_dev,
  update_dev,
}
use linux_hardware_devices_e.Sysfs.Calls.{
  lock_iface_devs, unlock_iface_devs, add_device, run, device_at, hwe_add_device, put_dev,
}
use linux_hardware_devices_e.Sysfs.Load.{Sysfs, hwe_init_sysfs}
use linux_hardware_devices_e.Sysfs.Load.Ready.{hwe_init_sysfs_cases, succeeded}
use linux_hardware_devices_e.Ioctl.Load.{
  ChrdevEnv, hwe_init_ioctl, hwe_init_ioctl_cases, nothing_held, held_after,
}
use linux_hardware_devices_e.Pool.{Pool, lookup}
use linux_hardware_devices_e.Net.{NetDev, NetRx, hwe_create_net_device, count_tx}
use linux_hardware_devices_e.I2c.{I2cMsg, hwei2c_master_xfer}
use linux_hardware_devices_e.I2c.Devices.{
  I2cEntry, I2cEnv, zero_entry, init_dev, unused, hwe_create_i2c_device, hwe_destroy_i2c_device,
  alloc_dev,
}
use linux_hardware_devices_e.I2c.Devices.Reuse.{hwe_create_i2c_device-destroy}
use linux_hardware_devices_e.Spi.Devices.{SpiEnv, hwe_create_spi_device, hwe_cleanup_spi}
use linux_hardware_devices_e.Spi.Devices.Masters.{hwe_cleanup_spi-hwe_create_spi_device}
use linux_hardware_devices_e.Drivers.{Drivers, create_device, dev_ops}
use linux_hardware_devices_e.Emulator.{Emulator, put_i2c, net_xmit, i2c_master}
use linux_hardware_devices_e.Emulator.Keeps.{IsConsistent}
use linux_hardware_devices_e.Emulator.Steps.{call, Step-IsConsistent}
use linux_hardware_devices_e.Emulator.Steps.Files.{dev_store, dev_store-IsConsistent}
use linux_hardware_devices_e.Emulator.Packets.{
  net_xmit_listed, i2c_master_listed, heard, xmit_result,
}
use linux_hardware_devices_e.Loading.{zero_whole, zero_drivers}
use linux_hardware_devices_e.Tests.Plain.{plain}
use linux_hardware_devices_e.Tests.Devices.{kernel, room}
use linux_hardware_devices_e.Tests.Machine.{heap, no_errors, first, first-IsConsistent}

abbrev with_net : Emulator
with_net = (run plain (dev_ops no_errors) (add_device kernel) first net).0

with_net-IsConsistent : IsConsistent with_net
with_net-IsConsistent =
    Step-IsConsistent plain (call first no_errors (add_device kernel) net (omega arith))
      first-IsConsistent

abbrev net_priv : NetDev
net_priv = record {
  hwedev = 0;
  index = 0;
  queue = false;
  tx_bytes = 0;
  tx_packets = 0;
  rx_packets = 0;
  rx = [];
}

net_there : lookup with_net.drivers.nets 1 ≡ some net_priv
unfolding run lookup hwe_add_device new_dev new_dev_at finish_dev find_free_dev_index
    find_first_zero_bit lock_iface_devs unlock_iface_devs create_device hwe_create_net_device
net_there = refl

abbrev rx_ok : NetRx
rx_ok = record { alloc_skb = true; netif_rx = λ resp. 0 }

net_xmit_listed_example :
    (d : HweDev) × (device_at with_net net 0 ≡ some d)
    × ((net_xmit rx_ok with_net 1 (1 ∷ 171 ∷ [])).1
        ≡ xmit_result rx_ok (find_pair d.pair_list (1 ∷ 171 ∷ [])))
    × (lookup (net_xmit rx_ok with_net 1 (1 ∷ 171 ∷ [])).0.drivers.nets 1 ≡ (
        if 1 == 1
        then some (heard (find_pair d.pair_list (1 ∷ 171 ∷ [])) (count_tx net_priv (1 ∷ 171 ∷ [])))
        else lookup with_net.drivers.nets 1))
net_xmit_listed_example =
    net_xmit_listed rx_ok with_net 1 (1 ∷ 171 ∷ []) net_priv with_net-IsConsistent.linked net_there
      1 refl

abbrev net_dev : HweDev
net_dev = record (blank_dev net 0) { device = some 1; pairs_kobj = true }

net_listed : device_at with_net net 0 ≡ some net_dev
unfolding run device_at find_device_by_index hwe_add_device new_dev new_dev_at finish_dev
    find_free_dev_index find_first_zero_bit lock_iface_devs unlock_iface_devs create_device
    hwe_create_net_device add_dev update_dev
net_listed = refl

abbrev entry : HwePair
entry = record sync_pair { index = 0; filename = codes "0" }

abbrev net_with_pair : HweDev
net_with_pair = record net_dev {
  pair_list = entry ∷ [];
  pairs_indexes = true ∷ replicate 999 false;
}

stored : dev_add_store plain room net_dev sync_text ≡ (net_with_pair, ok 7)
unfolding dev_add_store store_parsed find_first_zero_bit find_pair decimal
stored = ap (store_parsed einval einval (λ idx. ok 7) room net_dev) sync_text_parsed

abbrev ready : Emulator
ready = dev_store plain add room with_net net net_dev sync_text

ready-IsConsistent : IsConsistent ready
ready-IsConsistent =
    dev_store-IsConsistent plain add room with_net net 0 net_dev sync_text net_listed
      with_net-IsConsistent

with_entry : device_at ready net 0 ≡ some net_with_pair
unfolding dev_store dev_attr_store put_dev lock_iface_devs unlock_iface_devs update_dev run
    device_at find_device_by_index hwe_add_device new_dev new_dev_at finish_dev find_free_dev_index
    find_first_zero_bit create_device hwe_create_net_device add_dev
with_entry =
    ap
      (λ (x : HweDev × Ret).
        device_at (unlock_iface_devs (put_dev (lock_iface_devs with_net net) net x.0) net) net 0)
      stored

net_still_there : lookup ready.drivers.nets 1 ≡ some net_priv
unfolding dev_store put_dev lock_iface_devs unlock_iface_devs run lookup hwe_add_device new_dev
    new_dev_at finish_dev find_free_dev_index find_first_zero_bit create_device
    hwe_create_net_device
net_still_there = refl

has_answer : find_pair net_with_pair.pair_list (1 ∷ 171 ∷ []) ≡ some entry
unfolding find_pair answers beq
has_answer = refl

abbrev i2c_entry : I2cEntry
i2c_entry = init_dev zero_entry 0 0

abbrev i2c_pool : Pool I2cEntry
i2c_pool = (1, i2c_entry) ∷ []

i2c_there : lookup i2c_pool 1 ≡ some i2c_entry
unfolding lookup
i2c_there = refl

no_fresh : (live : List ℕ) (a : ℕ) → none ≡ some a → All (λ b. b ≢ a) live
no_fresh live a e = absurd cc

-- No memory is left for the second device.
abbrev no_room : I2cEnv
no_room = record { memory = record { alloc = λ live. none; fresh = no_fresh }; add_adapter = none }

hwe_create_i2c_device-destroy_example :
    (lookup (hwe_destroy_i2c_device i2c_pool 1) 1 ≡ some (unused i2c_entry))
    × ((a : ℕ) × ((hwe_create_i2c_device no_room (hwe_destroy_i2c_device i2c_pool 1) 4 4).1
          ≡ some a))
    × (length (hwe_create_i2c_device no_room (hwe_destroy_i2c_device i2c_pool 1) 4 4).0
        ≡ length i2c_pool)
hwe_create_i2c_device-destroy_example =
    hwe_create_i2c_device-destroy no_room i2c_pool 1 4 i2c_entry i2c_there (omega arith) refl

abbrev with_i2c : Emulator
with_i2c = (run plain (dev_ops no_errors) (add_device kernel) first i2c).0

with_i2c-IsConsistent : IsConsistent with_i2c
with_i2c-IsConsistent =
    Step-IsConsistent plain (call first no_errors (add_device kernel) i2c (omega arith))
      first-IsConsistent

i2c_created : lookup with_i2c.drivers.i2cs 1 ≡ some i2c_entry
unfolding run lookup hwe_add_device new_dev new_dev_at finish_dev find_free_dev_index
    find_first_zero_bit lock_iface_devs unlock_iface_devs create_device hwe_create_i2c_device
    alloc_dev
i2c_created = refl

abbrev request : List I2cMsg
request = record { rd = false; len = 2; buf = 1 ∷ 171 ∷ [] } ∷ []

i2c_master_listed_example :
    (d : HweDev) × (device_at with_i2c i2c 0 ≡ some d)
    × (i2c_master with_i2c 1 request ≡ (
      put_i2c with_i2c 1 i2c_entry (hwei2c_master_xfer d.pair_list i2c_entry.dev request).0,
      (hwei2c_master_xfer d.pair_list i2c_entry.dev request).1,
      (hwei2c_master_xfer d.pair_list i2c_entry.dev request).2,
    ))
i2c_master_listed_example =
    i2c_master_listed with_i2c 1 request i2c_entry i2c_created refl with_i2c-IsConsistent.linked

abbrev no_spi_dev : SpiEnv
no_spi_dev = record { memory = heap; register_master = none; new_device = false }

hwe_cleanup_spi-hwe_create_spi_device_example :
    (hwe_cleanup_spi (hwe_create_spi_device no_spi_dev zero_drivers.spis 0 0).0).masters ≡ 1 ∷ []
hwe_cleanup_spi-hwe_create_spi_device_example =
    hwe_cleanup_spi-hwe_create_spi_device no_spi_dev zero_drivers.spis 0 0 refl

-- The interface spi cannot be added.
abbrev spi_fails : Iface → Option Errno
spi_fails spi = some enomem
spi_fails _ = none

abbrev half_loaded : Sysfs Drivers × Option Errno
half_loaded = hwe_init_sysfs (dev_ops no_errors) true spi_fails zero_whole.sysfs

hwe_init_sysfs_cases_example :
    (half_loaded.0.kobjs net ≡ succeeded half_loaded.1) × (half_loaded.0.base_kset ≡ true)
hwe_init_sysfs_cases_example =
    hwe_init_sysfs_cases (dev_ops no_errors) zero_whole.sysfs (λ i. refl) true spi_fails net refl

abbrev no_node : ChrdevEnv
no_node = record {
  alloc_region = none;
  class_create = none;
  cdev_add = none;
  device_create = some enomem;
}

hwe_init_ioctl_cases_example :
    (hwe_init_ioctl no_node nothing_held).0
    ≡ held_after (hwe_init_ioctl no_node nothing_held).1 (some enomem)
hwe_init_ioctl_cases_example = hwe_init_ioctl_cases no_node
