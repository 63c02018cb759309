-- ===== src/Emulator/Keeps.antt =====
-- The handlers keep the links between the devices and their private data: none changes an owner.
pub mod Bus
use linux_hardware_devices_e.Prelude.{
  ℕ, ◌≡◌, ◌≢◌, refl, ap, sym, subst, ◌∙◌, Bool-cases, Option-cases, inl, inr, Bool, true, false,
  List, [], ◌∷◌, Option, none, some, Bytes, arith, ◌==◌, if◌then◌else◌,
}
use linux_hardware_devices_e.Consts.{Iface, tty, i2c, net, spi, Ret, ok, err, fault, enodev}
use linux_hardware_devices_e.Utils.Pair.{HwePair}
use linux_hardware_devices_e.Utils.Lookup.{find_pair}
use linux_hardware_devices_e.Sysfs.Registry.{State}
use linux_hardware_devices_e.Sysfs.Registry.Lists.{Registries}
use linux_hardware_devices_e.Sysfs.Calls.{lock_iface_devs, unlock_iface_devs, release_unless_fault}
use linux_hardware_devices_e.Sysfs.Calls.Invariant.{lock-Registries, unlock-Registries}
use linux_hardware_devices_e.Handles.{Linked}
use linux_hardware_devices_e.Handles.Links.{LinkedIn-same}
use linux_hardware_devices_e.Handles.Calls.{lock-Linked, unlock-Linked, release-Linked}
use linux_hardware_devices_e.Pool.{Pool, lookup, replace, IsDistinct}
use linux_hardware_devices_e.Pool.Laws.{replace-IsDistinct}
use linux_hardware_devices_e.Tty.{
  TtyPriv, TtyDriver, open_locked, opened, put_device, store, written, answered, delivered,
  write_locked,
}
use linux_hardware_devices_e.Tty.Slots.{hwedev_of, tty_owner, IsTable, put_device-IsTable}
use linux_hardware_devices_e.Net
use linux_hardware_devices_e.Net.{NetDev, NetRx, at_device, transmitted, count_tx}
use linux_hardware_devices_e.Net.Devices.{
  at_device_owner, at_device-IsDistinct, transmitted_hwedev, net_owner, xmit-IsDistinct, xmit_owner,
}
use linux_hardware_devices_e.I2c.{
  I2cDev, I2cMsg, ReadWrite, SmbusSize, do_master_xfer, do_smbus_xfer, hwei2c_master_xfer,
  hwei2c_smbus_xfer,
}
use linux_hardware_devices_e.I2c.Devices.{I2cEntry}
use linux_hardware_devices_e.I2c.Devices.Create
use linux_hardware_devices_e.Spi.{SpiTransfer, hwespi_transfer_one}
use linux_hardware_devices_e.Spi.Devices.{SpiEntry}
use linux_hardware_devices_e.Spi.Devices.Masters
use linux_hardware_devices_e.Drivers.{Drivers, owner, IsSound}
use linux_hardware_devices_e.Drivers.Sound.{ttys-IsSound, i2cs-IsSound, nets-IsSound, spis-IsSound}
use linux_hardware_devices_e.Drivers.Rx.{owner-replace}
use linux_hardware_devices_e.Emulator.{
  Emulator, pairs_of, with_ttys, hwetty_open, hwetty_close, hwetty_write, hwetty_write_room,
  with_nets, net_open, net_stop, net_xmit, put_i2c, i2c_pairs, master_transfer, master_at,
  i2c_master, smbus_at, i2c_smbus, put_spi, spi_pairs, spi_transfer_with, spi_at, spi_transfer,
}

-- The invariant of the whole: that of the interfaces, and the links with the drivers.
pub record IsConsistent (st : Emulator) : Type 0 where
  pub registries : Registries st
  pub linked : Linked owner IsSound st

-- A change of the drivers' state that keeps the owners.
pub with_drivers :
    (st : Emulator) (d : Drivers)
    → IsConsistent st
    → IsSound d
    → ((j : Iface) (k : ℕ) → owner d j k ≡ owner st.drivers j k)
    → IsConsistent (record st { drivers = d })
with_drivers st d c sound same = record {
  registries = c.registries;
  linked = record {
    valid = sound;
    links = λ i.
        LinkedIn-same (owner st.drivers i) (owner d i) (st.ifaces i).dev_list (st.ifaces i).dev_list
          (same i) (λ k. refl) (c.linked.links i);
  };
}

pub lock-IsConsistent :
    (st : Emulator) (i : Iface) → IsConsistent st → IsConsistent (lock_iface_devs st i)
lock-IsConsistent st i c = record {
  registries = lock-Registries st i c.registries;
  linked = lock-Linked owner IsSound st i c.linked;
}

pub unlock-IsConsistent :
    (st : Emulator) (i : Iface) → IsConsistent st → IsConsistent (unlock_iface_devs st i)
unlock-IsConsistent st i c = record {
  registries = unlock-Registries st i c.registries;
  linked = unlock-Linked owner IsSound st i c.linked;
}

release-IsConsistent :
    (st : Emulator) (i : Iface) (ret : Ret)
    → IsConsistent st
    → IsConsistent (release_unless_fault st i ret).0
unfolding release_unless_fault
release-IsConsistent st i (ok n) c = unlock-IsConsistent st i c
release-IsConsistent st i (err e) c = unlock-IsConsistent st i c
release-IsConsistent st i fault c = c

with_ttys-IsConsistent :
    (st : Emulator) (t : TtyDriver)
    → IsConsistent st
    → IsTable t
    → ((k : ℕ) → tty_owner t k ≡ tty_owner st.drivers.ttys k)
    → IsConsistent (with_ttys st t)
with_ttys-IsConsistent st t c table same =
    with_drivers st (record st.drivers { ttys = t }) c
      (ttys-IsSound st.drivers t st.drivers.oops c.linked.valid table c.linked.valid.safe) owners
  where
    owners : (j : Iface) (k : ℕ) → owner (record st.drivers { ttys = t }) j k ≡ owner st.drivers j k
    owners tty k = same k
    owners i2c k = refl
    owners net k = refl
    owners spi k = refl

opened-IsTable :
    (t : TtyDriver) (i : ℕ) (o : Option TtyPriv)
    → t.devices i ≡ o
    → IsTable t
    → IsTable (opened t i o).0
opened-IsTable t i none e v = v
opened-IsTable t i (some dev) e v =
    put_device-IsTable t i (some (record dev { tty = true })) v (λ d is.
      (let at = v i dev e in
        let it : record dev { tty = true } ≡ d = cc in
        (
          ap (λ (x : TtyPriv). x.index) (sym it) ∙ at.0,
          ap (λ (x : TtyPriv). x.hwedev) (sym it) ∙ at.1,
        )))

opened_owner :
    (t : TtyDriver) (i k : ℕ) (o : Option TtyPriv)
    → t.devices i ≡ o
    → tty_owner (opened t i o).0 k ≡ tty_owner t k
opened_owner t i k none e = refl
opened_owner t i k (some dev) e = elim (Bool-cases (i == k)) [
  | inl s ↦
      let ik : i ≡ k = ground arith in
      ap (λ b. hwedev_of (if b then some (record dev { tty = true }) else t.devices k)) s
      ∙ sym (ap hwedev_of (ap t.devices (sym ik) ∙ e))
  | inr s ↦ ap (λ b. hwedev_of (if b then some (record dev { tty = true }) else t.devices k)) s
]

pub hwetty_open-IsConsistent :
    (st : Emulator) (i : ℕ) → IsConsistent st → IsConsistent (hwetty_open st i).0
unfolding hwetty_open open_locked lock_iface_devs
hwetty_open-IsConsistent st i c =
    let t = st.drivers.ttys in
    unlock-IsConsistent _ tty (
      with_ttys-IsConsistent (lock_iface_devs st tty) (opened t i (t.devices i)).0
        (lock-IsConsistent st tty c) (opened-IsTable t i (t.devices i) refl c.linked.valid.table)
        (λ k. opened_owner t i k (t.devices i) refl))

delivered_devices :
    (accepts : ℕ → Bytes → ℕ) (t : TtyDriver) (i : ℕ) (o : Option HwePair)
    → (delivered accepts t i o).devices ≡ t.devices
delivered_devices accepts t i none = refl
delivered_devices accepts t i (some p) = refl

answered_devices :
    (accepts : ℕ → Bytes → ℕ) (t : TtyDriver) (i : ℕ) (buffer : Bytes) (o : Option (List HwePair))
    → (answered accepts t i buffer o).0.devices ≡ t.devices
answered_devices accepts t i buffer none = refl
answered_devices accepts t i buffer (some list) =
    delivered_devices accepts t i (find_pair list buffer)

written_devices :
    (accepts : ℕ → Bytes → ℕ) (pairs : ℕ → Option (List HwePair)) (t : TtyDriver) (buffer : Bytes)
    (o : Option TtyPriv)
    → (written accepts pairs t buffer o).0.devices ≡ t.devices
written_devices accepts pairs t buffer none = refl
written_devices accepts pairs t buffer (some dev) =
    answered_devices accepts t dev.index buffer (pairs dev.hwedev)

pub hwetty_write-IsConsistent :
    (accepts : ℕ → Bytes → ℕ) (st : Emulator) (i : ℕ) (buffer : Bytes)
    → IsConsistent st
    → IsConsistent (hwetty_write accepts st i buffer).0
unfolding hwetty_write write_locked lock_iface_devs
hwetty_write-IsConsistent accepts st i buffer c =
    let t = st.drivers.ttys in
    let st₁ = lock_iface_devs st tty in
    let same = written_devices accepts (pairs_of st₁ tty) t buffer (t.devices i) in
    release-IsConsistent _ tty _ (
      with_ttys-IsConsistent st₁ (written accepts (pairs_of st₁ tty) t buffer (t.devices i)).0
        (lock-IsConsistent st tty c)
        (subst (λ f. (k : ℕ) (dev : TtyPriv) → f k ≡ some dev → (dev.index ≡ k) × (dev.hwedev ≡ k))
          (sym same) c.linked.valid.table)
        (λ k. ap (λ f. hwedev_of (f k)) same))
