-- ===== src/Emulator.antt =====
-- The module as a whole: the handlers that the kernel's subsystems call, on the state that
-- kernel/hwe_sysfs.c and the drivers share. Private data lead to the device that they belong to by
-- `hwedev`; to follow it to a device that is freed is a fault, and so is an address of no private data.
pub mod Keeps
pub mod Steps
pub mod Transfers
pub mod Packets
pub mod Answers
use linux_hardware_devices_e.Prelude.{
  ℕ, Bool, true, false, List, Option, none, some, Bytes, [], if◌then◌else◌,
}
use linux_hardware_devices_e.Consts.{Iface, tty, i2c, net, spi, Ret, ok, err, fault}
use linux_hardware_devices_e.Utils.Pair.{HwePair}
use linux_hardware_devices_e.Sysfs.Dev.{HweDev}
use linux_hardware_devices_e.Sysfs.Registry.{State}
use linux_hardware_devices_e.Sysfs.Calls.{
  lock_iface_devs, unlock_iface_devs, release_unless_fault, device_at,
}
use linux_hardware_devices_e.Pool.{Pool, lookup, replace}
use linux_hardware_devices_e.Tty.{TtyDriver, open_locked, write_locked, write_room_locked}
use linux_hardware_devices_e.Net
use linux_hardware_devices_e.Net.{NetDev, NetRx}
use linux_hardware_devices_e.I2c.{
  I2cDev, I2cMsg, ReadWrite, SmbusSize, hwei2c_master_xfer, hwei2c_smbus_xfer,
}
use linux_hardware_devices_e.I2c.Devices.{I2cEntry}
use linux_hardware_devices_e.Spi.{SpiTransfer, hwespi_transfer_one}
use linux_hardware_devices_e.Spi.Devices.{SpiEntry, SpiDevices}
use linux_hardware_devices_e.Drivers.{Drivers}

abbrev pub Emulator : Type 0
Emulator = State Drivers

abbrev pub pair_list_of : Option HweDev → Option (List HwePair)
pair_list_of none = none
pair_list_of (some dev) = some dev.pair_list

-- The pairs of the device that `hwedev` points to, `none` if it is freed.
abbrev pub pairs_of : Emulator → Iface → ℕ → Option (List HwePair)
pairs_of st iface hwedev = pair_list_of (device_at st iface hwedev)

abbrev pub with_ttys : Emulator → TtyDriver → Emulator
with_ttys st t = record st { drivers = record st.drivers { ttys = t } }

unfoldable pub hwetty_open : Emulator → ℕ → Emulator × Ret
hwetty_open st index =
    let st₁ = lock_iface_devs st tty in
    let (t, ret) = open_locked st₁.drivers.ttys index in
    (unlock_iface_devs (with_ttys st₁ t) tty, ret)

-- close_dev() does nothing.
unfoldable pub hwetty_close : Emulator → Emulator
hwetty_close st = unlock_iface_devs (lock_iface_devs st tty) tty

unfoldable pub hwetty_write : (ℕ → Bytes → ℕ) → Emulator → ℕ → Bytes → Emulator × Ret
hwetty_write accepts st index buffer =
    let st₁ = lock_iface_devs st tty in
    let (t, ret) = write_locked accepts (pairs_of st₁ tty) st₁.drivers.ttys index buffer in
    release_unless_fault (with_ttys st₁ t) tty ret

unfoldable pub hwetty_write_room : Emulator → ℕ → Emulator × Ret
hwetty_write_room st index =
    let st₁ = lock_iface_devs st tty in
    (unlock_iface_devs st₁ tty, write_room_locked st₁.drivers.ttys index)

abbrev pub with_nets : Emulator → Pool NetDev × Ret → Emulator × Ret
with_nets st (devices, ret) = (record st { drivers = record st.drivers { nets = devices } }, ret)

-- The handlers of a network device take no semaphore.
unfoldable pub net_open : Emulator → ℕ → Emulator × Ret
net_open st a = with_nets st (Net.hwenet_open st.drivers.nets a)

unfoldable pub net_stop : Emulator → ℕ → Emulator × Ret
net_stop st a = with_nets st (Net.hwenet_stop st.drivers.nets a)

unfoldable pub net_xmit : NetRx → Emulator → ℕ → Bytes → Emulator × Ret
net_xmit env st a skb = with_nets st (Net.hwenet_xmit env (pairs_of st net) st.drivers.nets a skb)

abbrev pub put_i2c : Emulator → ℕ → I2cEntry → I2cDev → Emulator
put_i2c st a e dev = record st {
  drivers = record st.drivers { i2cs = replace a (record e { dev = dev }) st.drivers.i2cs };
}

-- find_response() is called only through a device that is in use.
abbrev i2c_pairs : Emulator → I2cEntry → Option (List HwePair)
i2c_pairs st e = if e.dev.in_use then pairs_of st i2c e.hwedev else some []

abbrev master_transfer :
    Emulator → ℕ → List I2cMsg → I2cEntry → Option (List HwePair) → Emulator × List I2cMsg × Ret
master_transfer st a msgs e none = (st, msgs, fault)
master_transfer st a msgs e (some pairs) =
    let (dev, msgs', ret) = hwei2c_master_xfer pairs e.dev msgs in (put_i2c st a e dev, msgs', ret)

abbrev master_at : Emulator → ℕ → List I2cMsg → Option I2cEntry → Emulator × List I2cMsg × Ret
master_at st a msgs none = (st, msgs, fault)
master_at st a msgs (some e) = master_transfer st a msgs e (i2c_pairs st e)

-- A transfer by an adapter: the private data at its address, and the device that they belong to. The
-- semaphore is taken and given back within the one step.
unfoldable pub i2c_master : Emulator → ℕ → List I2cMsg → Emulator × List I2cMsg × Ret
i2c_master st a msgs = master_at st a msgs (lookup st.drivers.i2cs a)

abbrev smbus_at :
    Emulator → ℕ → ReadWrite → ℕ → SmbusSize → Bytes → Option I2cEntry → Emulator × Bytes × Ret
smbus_at st a rw_flag command size data_block none = (st, data_block, fault)
smbus_at st a rw_flag command size data_block (some e) =
    let (dev, data_block', ret) = hwei2c_smbus_xfer rw_flag command size e.dev data_block in
    (put_i2c st a e dev, data_block', ret)

unfoldable pub i2c_smbus : Emulator → ℕ → ReadWrite → ℕ → SmbusSize → Bytes → Emulator × Bytes × Ret
i2c_smbus st a rw_flag command size data_block =
    smbus_at st a rw_flag command size data_block (lookup st.drivers.i2cs a)

abbrev pub put_spi : Emulator → ℕ → SpiEntry → Emulator
put_spi st a e = record st {
  drivers = record st.drivers {
    spis = record st.drivers.spis { devices = replace a e st.drivers.spis.devices };
  };
}

-- find_response() is called only for what is written.
abbrev spi_pairs : Emulator → SpiEntry → Option Bytes → Option (List HwePair)
spi_pairs st e none = some []
spi_pairs st e (some tx) = pairs_of st spi e.hwedev

abbrev spi_transfer_with :
    Emulator → ℕ → SpiTransfer → SpiEntry → Option (List HwePair) → Emulator × SpiTransfer × Ret
spi_transfer_with st a t e none = (st, t, fault)
spi_transfer_with st a t e (some pairs) =
    let (r, t') = hwespi_transfer_one pairs e.response t in
    (put_spi st a (record e { response = r }), t', ok 0)

abbrev spi_at : Emulator → ℕ → SpiTransfer → Option SpiEntry → Emulator × SpiTransfer × Ret
spi_at st a t none = (st, t, fault)
spi_at st a t (some e) = spi_transfer_with st a t e (spi_pairs st e t.tx_buf)

-- A transfer by a master; it takes no semaphore.
unfoldable pub spi_transfer : Emulator → ℕ → SpiTransfer → Emulator × SpiTransfer × Ret
spi_transfer st a t = spi_at st a t (lookup st.drivers.spis.devices a)
