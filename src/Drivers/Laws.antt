-- ===== src/Drivers/Laws.antt =====
-- The drivers of the table `dev_ops` meet what kernel/hwe_sysfs.c relies on.
use linux_hardware_devices_e.Prelude.{
  ℕ, ◌≡◌, ◌≢◌, refl, ap, ◌∙◌, arith, false, none, some, ◌==◌, if◌then◌else◌,
}
use linux_hardware_devices_e.Consts.{Iface, tty, i2c, net, spi, iface_eq}
use linux_hardware_devices_e.Handles.{Contract, given}
use linux_hardware_devices_e.Tty.Slots.{
  tty_owner, hwedev_of, slot_free, create_tty-IsTable, create_tty_owner, create_tty_fresh,
  destroy_tty-IsTable, destroy_tty_devices,
}
use linux_hardware_devices_e.Net.Devices.{
  create_net-IsDistinct, create_net_owner, create_net_fresh, destroy_net-IsDistinct,
  destroy_net_owner,
}
use linux_hardware_devices_e.I2c.Devices.Create.{
  create_i2c-Created, destroy_i2c-IsDistinct, destroy_i2c_owner,
}
use linux_hardware_devices_e.Spi.Devices.Masters.{
  create_spi-Created, destroy_spi-IsDistinct, destroy_spi_owner,
}
use linux_hardware_devices_e.Drivers.Sound.{
  ttys-IsSound, i2cs-IsSound, nets-IsSound, spis-IsSound, or_false, live_there, destroy_tty_there,
}
use linux_hardware_devices_e.Pool.{lookup}
use linux_hardware_devices_e.I2c.Devices.Create
use linux_hardware_devices_e.Net.Devices
use linux_hardware_devices_e.Spi.Devices.Masters
use linux_hardware_devices_e.Drivers.{
  Drivers, DriversEnv, create_device, destroy_device, dev_ops, owner, IsSound,
}

module _ (env : DriversEnv) where
  create_valid :
      (d : Drivers) (iface : Iface) (i : ℕ)
      → IsSound d
      → ((h : ℕ) → owner d iface h ≢ some i)
      → IsSound (create_device env d iface i).0
  unfolding create_device
  create_valid d tty i v free =
      ttys-IsSound d _ d.oops v (create_tty-IsTable env.for_tty d.ttys i v.table) v.safe
  create_valid d i2c i v free =
      i2cs-IsSound d _ d.oops v (create_i2c-Created env.for_i2c d.i2cs i v.i2c_distinct).distinct
        v.safe
  create_valid d net i v free =
      nets-IsSound d _ d.oops v (create_net-IsDistinct env.for_net d.nets i v.net_distinct) v.safe
  create_valid d spi i v free =
      spis-IsSound d _ d.oops v (create_spi-Created env.for_spi d.spis i v.spi_distinct).distinct
        v.safe

  create_fresh :
      (d : Drivers) (iface : Iface) (i h : ℕ)
      → IsSound d
      → ((k : ℕ) → owner d iface k ≢ some i)
      → (create_device env d iface i).1 ≡ some h
      → owner d iface h ≡ none
  unfolding create_device
  create_fresh d tty i h v free e =
      ap (tty_owner d.ttys) (create_tty_fresh env.for_tty d.ttys i v.table h e)
      ∙ ap hwedev_of (slot_free d.ttys i v.table free)
  create_fresh d i2c i h v free e =
      (create_i2c-Created env.for_i2c d.i2cs i v.i2c_distinct).fresh h e
  create_fresh d net i h v free e = create_net_fresh env.for_net d.nets i h e
  create_fresh d spi i h v free e =
      (create_spi-Created env.for_spi d.spis i v.spi_distinct).fresh h e

  create_owner :
      (d : Drivers) (iface : Iface) (i k : ℕ)
      → IsSound d
      → ((h : ℕ) → owner d iface h ≢ some i)
      → owner (create_device env d iface i).0 iface k
        ≡ given (create_device env d iface i).1 i k (owner d iface k)
  unfolding create_device
  create_owner d tty i k v free =
      create_tty_owner env.for_tty d.ttys i v.table k (slot_free d.ttys i v.table free)
  create_owner d i2c i k v free = (create_i2c-Created env.for_i2c d.i2cs i v.i2c_distinct).owners k
  create_owner d net i k v free = create_net_owner env.for_net d.nets i k
  create_owner d spi i k v free = (create_spi-Created env.for_spi d.spis i v.spi_distinct).owners k

  create_apart :
      (d : Drivers) (iface j : Iface) (i k : ℕ)
      → iface_eq iface j ≡ false
      → owner (create_device env d iface i).0 j k ≡ owner d j k
  unfolding create_device
  create_apart d tty tty i k e = absurd cc
  create_apart d i2c i2c i k e = absurd cc
  create_apart d net net i k e = absurd cc
  create_apart d spi spi i k e = absurd cc
  create_apart d _ _ i k e = refl

  destroy_valid :
      (d : Drivers) (iface : Iface) (h i : ℕ)
      → IsSound d
      → owner d iface h ≡ some i
      → IsSound (destroy_device d iface h)
  unfolding destroy_device
  destroy_valid d tty h i v live =
      ttys-IsSound d _ _ v (destroy_tty-IsTable d.ttys h v.table)
        (or_false d.oops _ v.safe (destroy_tty_there d.ttys h i live))
  destroy_valid d i2c h i v live =
      i2cs-IsSound d _ _ v (destroy_i2c-IsDistinct d.i2cs h v.i2c_distinct)
        (or_false d.oops _ v.safe (live_there Create.hwedev_of refl (lookup d.i2cs h) i live))
  destroy_valid d net h i v live =
      nets-IsSound d _ _ v (destroy_net-IsDistinct d.nets h v.net_distinct)
        (or_false d.oops _ v.safe (live_there Devices.hwedev_of refl (lookup d.nets h) i live))
  destroy_valid d spi h i v live =
      spis-IsSound d _ _ v (destroy_spi-IsDistinct d.spis h v.spi_distinct) (
        or_false d.oops _ v.safe
          (live_there Masters.hwedev_of refl (lookup d.spis.devices h) i live))

  hwedev_of_if :
      (h k : ℕ) (d : Drivers)
      → hwedev_of (if h == k then none else d.ttys.devices k)
        ≡ (if h == k then none else tty_owner d.ttys k)
  hwedev_of_if h k d = ground arith

  destroy_owner :
      (d : Drivers) (iface : Iface) (h i k : ℕ)
      → IsSound d
      → owner d iface h ≡ some i
      → owner (destroy_device d iface h) iface k ≡ (if h == k then none else owner d iface k)
  unfolding destroy_device
  destroy_owner d tty h i k v e =
      ap hwedev_of (destroy_tty_devices d.ttys h k v.table) ∙ hwedev_of_if h k d
  destroy_owner d i2c h i k v e = destroy_i2c_owner d.i2cs h k
  destroy_owner d net h i k v e = destroy_net_owner d.nets h k v.net_distinct
  destroy_owner d spi h i k v e = destroy_spi_owner d.spis h k v.spi_distinct

  destroy_apart :
      (d : Drivers) (iface j : Iface) (h k : ℕ)
      → iface_eq iface j ≡ false
      → owner (destroy_device d iface h) j k ≡ owner d j k
  unfolding destroy_device
  destroy_apart d tty tty h k e = absurd cc
  destroy_apart d i2c i2c h k e = absurd cc
  destroy_apart d net net h k e = absurd cc
  destroy_apart d spi spi h k e = absurd cc
  destroy_apart d _ _ h k e = refl

-- The four drivers meet the contract that the calls rely on, whatever the kernel answers: a device
-- that is created for an index that owns nothing gets private data that were not live, and belong to it
-- from then on, and nothing else changes its owner; a failure leaves every owner as it was; and
-- destroying live private data takes their owner and no other.
pub dev_ops-Contract : (env : DriversEnv) → Contract (dev_ops env) owner IsSound
dev_ops-Contract env = record {
  create_valid = create_valid env;
  create_fresh = create_fresh env;
  create_owner = create_owner env;
  create_apart = create_apart env;
  destroy_valid = destroy_valid env;
  destroy_owner = destroy_owner env;
  destroy_apart = destroy_apart env;
}
