-- ===== src/Drivers.antt =====
-- The four drivers together: the tables `dev_ops` of kernel/hwe_sysfs.c and `async_rx` of
-- kernel/hwe_async.c, and the state of the drivers behind them.
pub mod Sound
pub mod Laws
pub mod Rx
use linux_hardware_devices_e.Prelude.{
  ℕ, ◌≡◌, Bool, true, false, ◌||◌, List, [], ◌∷◌, Option, none, some, Bytes,
}
use linux_hardware_devices_e.Consts.{Iface, tty, i2c, net, spi, Ret, ok, err, fault}
use linux_hardware_devices_e.Utils.Pair.{HwePair}
use linux_hardware_devices_e.Sysfs.Registry.{DevOps}
use linux_hardware_devices_e.Async.{AsyncRx}
use linux_hardware_devices_e.Handles.{Owner}
use linux_hardware_devices_e.Pool.{Pool, lookup, replace, IsDistinct}
use linux_hardware_devices_e.Tty.{
  TtyDriver, TtyEnv, hwe_create_tty_device, hwe_destroy_tty_device, hwe_tty_async_rx,
}
use linux_hardware_devices_e.Tty.Slots.{tty_owner, IsTable}
use linux_hardware_devices_e.Net.{
  NetDev, NetEnv, NetRx, hwe_create_net_device, hwe_destroy_net_device, hwe_net_async_rx,
}
use linux_hardware_devices_e.Net.Devices.{net_owner}
use linux_hardware_devices_e.I2c.{hwe_i2c_async_rx}
use linux_hardware_devices_e.I2c.Devices.{
  I2cEntry, I2cEnv, hwe_create_i2c_device, hwe_destroy_i2c_device,
}
use linux_hardware_devices_e.I2c.Devices.Create.{i2c_owner}
use linux_hardware_devices_e.Spi.{hwe_spi_async_rx}
use linux_hardware_devices_e.Spi.Devices.{
  SpiEntry, SpiDevices, SpiEnv, hwe_create_spi_device, hwe_destroy_spi_device,
}
use linux_hardware_devices_e.Spi.Devices.Masters.{spi_owner}

-- `oops` is set when a pointer that is null or freed is dereferenced.
pub record Drivers : Type 0 where
  pub ttys : TtyDriver
  pub i2cs : Pool I2cEntry
  pub nets : Pool NetDev
  pub spis : SpiDevices
  pub oops : Bool

-- What the kernel answers to a creation, by the driver.
pub record DriversEnv : Type 0 where
  pub for_tty : TtyEnv
  pub for_i2c : I2cEnv
  pub for_net : NetEnv
  pub for_spi : SpiEnv

-- What the kernel answers to a reception: the bytes that a port takes, and the network's answers.
pub record RxEnv : Type 0 where
  pub accepts : ℕ → Bytes → ℕ
  pub network : NetRx

module _ (env : DriversEnv) where
  unfoldable pub create_device : Drivers → Iface → ℕ → Drivers × Option ℕ
  create_device d tty index =
      let (t, h) = hwe_create_tty_device env.for_tty d.ttys index index in
      (record d { ttys = t }, h)
  create_device d i2c index =
      let (devices, h) = hwe_create_i2c_device env.for_i2c d.i2cs index index in
      (record d { i2cs = devices }, h)
  create_device d net index =
      let (devices, h) = hwe_create_net_device env.for_net d.nets index index in
      (record d { nets = devices }, h)
  create_device d spi index =
      let (s, h) = hwe_create_spi_device env.for_spi d.spis index index in
      (record d { spis = s }, h)

abbrev pub is_fault : Ret → Bool
is_fault (ok n) = false
is_fault (err e) = false
is_fault fault = true

abbrev pub is_none {ℓ} : {A : Type ℓ} → Option A → Bool
is_none none = true
is_none (some x) = false

-- Private data that are not there are freed, and are dereferenced.
unfoldable pub destroy_device : Drivers → Iface → ℕ → Drivers
destroy_device d tty h =
    let (t, ret) = hwe_destroy_tty_device d.ttys h in
    record d { ttys = t; oops = d.oops || is_fault ret }
destroy_device d i2c h = record d {
  i2cs = hwe_destroy_i2c_device d.i2cs h;
  oops = d.oops || is_none (lookup d.i2cs h);
}
destroy_device d net h = record d {
  nets = hwe_destroy_net_device d.nets h;
  oops = d.oops || is_none (lookup d.nets h);
}
destroy_device d spi h = record d {
  spis = hwe_destroy_spi_device d.spis h;
  oops = d.oops || is_none (lookup d.spis.devices h);
}

-- dev_ops[]
abbrev pub dev_ops : DriversEnv → DevOps Drivers
dev_ops env = record { create = create_device env; destroy = destroy_device }

abbrev pub i2c_rx : Pool I2cEntry → ℕ → HwePair → Option I2cEntry → Pool I2cEntry
i2c_rx devices h p none = devices
i2c_rx devices h p (some e) = replace h (record e { dev = hwe_i2c_async_rx e.dev p }) devices

abbrev pub spi_rx : Pool SpiEntry → ℕ → HwePair → Option SpiEntry → Pool SpiEntry
spi_rx devices h p none = devices
spi_rx devices h p (some e) =
    replace h (record e { response = hwe_spi_async_rx e.response p }) devices

module _ (env : RxEnv) where
  unfoldable pub rx_device : Drivers → Iface → ℕ → HwePair → Drivers
  rx_device d tty h p = record d {
    ttys = hwe_tty_async_rx env.accepts d.ttys h p;
    oops = d.oops || is_none (d.ttys.devices h);
  }
  rx_device d i2c h p = record d {
    i2cs = i2c_rx d.i2cs h p (lookup d.i2cs h);
    oops = d.oops || is_none (lookup d.i2cs h);
  }
  rx_device d net h p =
      let (devices, ret) = hwe_net_async_rx env.network d.nets h p in
      record d { nets = devices; oops = d.oops || is_fault ret }
  rx_device d spi h p = record d {
    spis = record d.spis { devices = spi_rx d.spis.devices h p (lookup d.spis.devices h) };
    oops = d.oops || is_none (lookup d.spis.devices h);
  }

  -- async_rx[], on a device's private data, which may be NULL.
  unfoldable pub async_rx : AsyncRx Drivers
  unfolding rx_device
  async_rx d iface none p = record d { oops = true }
  async_rx d iface (some h) p = rx_device d iface h p

-- The device that live private data of a driver belong to.
abbrev pub owner : Owner Drivers
owner d tty h = tty_owner d.ttys h
owner d i2c h = i2c_owner d.i2cs h
owner d net h = net_owner d.nets h
owner d spi h = spi_owner d.spis h

-- The invariant of the drivers: the table is in order, no address stands twice in a list, and nothing
-- that is null or freed was dereferenced.
pub record IsSound (d : Drivers) : Type 0 where
  pub table : IsTable d.ttys
  pub i2c_distinct : IsDistinct d.i2cs
  pub net_distinct : IsDistinct d.nets
  pub spi_distinct : IsDistinct d.spis.devices
  pub safe : d.oops ≡ false
