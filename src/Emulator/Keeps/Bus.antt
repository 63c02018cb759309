-- ===== src/Emulator/Keeps/Bus.antt =====
-- The transmissions and transfers of the net, i2c and spi drivers keep the links between the devices
-- and their private data.
use linux_hardware_devices_e.Prelude.{
  ℕ, ◌≡◌, refl, ap, sym, subst, Option-cases, inl, inr, Bool, true, false, List, Option, none, some,
  Bytes, if◌then◌else◌,
}
use linux_hardware_devices_e.Consts.{Iface, tty, i2c, net, spi, Ret, err, enodev}
use linux_hardware_devices_e.Utils.Pair.{HwePair}
use linux_hardware_devices_e.Pool.{Pool, lookup, replace, IsDistinct}
use linux_hardware_devices_e.Pool.Laws.{replace-IsDistinct}
use linux_hardware_devices_e.Net
use linux_hardware_devices_e.Net.{NetDev, NetRx, at_device, transmitted, count_tx}
use linux_hardware_devices_e.Net.Devices.{
  at_device_owner, at_device-IsDistinct, transmitted_hwedev, net_owner,
}
use linux_hardware_devices_e.I2c.{
  I2cDev, I2cMsg, ReadWrite, SmbusSize, do_master_xfer, do_smbus_xfer, hwei2c_master_xfer,
  hwei2c_smbus_xfer,
}
use linux_hardware_devices_e.I2c.Devices.{I2cEntry}
use linux_hardware_devices_e.I2c.Devices.Create
use linux_hardware_devices_e.Spi.{SpiTransfer, hwespi_transfer_one}
use linux_hardware_devices_e.Spi.Devices.{SpiEntry}
use linux_hardware_devices_e.Spi.Devices.Masters
use linux_hardware_devices_e.Drivers.{owner}
use linux_hardware_devices_e.Drivers.Sound.{i2cs-IsSound, nets-IsSound, spis-IsSound}
use linux_hardware_devices_e.Drivers.Rx.{owner-replace}
use linux_hardware_devices_e.Emulator.{
  Emulator, pairs_of, with_nets, net_open, net_stop, net_xmit, put_i2c, i2c_pairs, master_transfer,
  master_at, i2c_master, smbus_at, i2c_smbus, put_spi, spi_pairs, spi_transfer_with, spi_at,
  spi_transfer,
}
use linux_hardware_devices_e.Emulator.Keeps.{IsConsistent, with_drivers}

with_nets-IsConsistent :
    (st : Emulator) (devices : Pool NetDev)
    → IsConsistent st
    → IsDistinct devices
    → ((k : ℕ) → net_owner devices k ≡ net_owner st.drivers.nets k)
    → IsConsistent (record st { drivers = record st.drivers { nets = devices } })
with_nets-IsConsistent st devices c distinct same =
    with_drivers st (record st.drivers { nets = devices }) c
      (nets-IsSound st.drivers devices st.drivers.oops c.linked.valid distinct c.linked.valid.safe)
      owners
  where
    owners :
        (j : Iface) (k : ℕ)
        → owner (record st.drivers { nets = devices }) j k ≡ owner st.drivers j k
    owners net k = same k
    owners tty k = refl
    owners i2c k = refl
    owners spi k = refl

at_device-IsConsistent :
    (st : Emulator) (a : ℕ) (f : NetDev → NetDev × Ret)
    → IsConsistent st
    → ((ndev : NetDev) → (f ndev).0.hwedev ≡ ndev.hwedev)
    → IsConsistent (with_nets st (at_device st.drivers.nets a f (lookup st.drivers.nets a))).0
at_device-IsConsistent st a f c same =
    let devices = st.drivers.nets in
    with_nets-IsConsistent st _ c
      (at_device-IsDistinct devices a f (lookup devices a) c.linked.valid.net_distinct)
      (λ k. at_device_owner devices a k f same)

pub net_open-IsConsistent :
    (st : Emulator) (a : ℕ) → IsConsistent st → IsConsistent (net_open st a).0
unfolding net_open Net.hwenet_open
net_open-IsConsistent st a c = at_device-IsConsistent st a _ c (λ ndev. refl)

pub net_stop-IsConsistent :
    (st : Emulator) (a : ℕ) → IsConsistent st → IsConsistent (net_stop st a).0
unfolding net_stop Net.hwenet_stop
net_stop-IsConsistent st a c = at_device-IsConsistent st a _ c (λ ndev. refl)

pub net_xmit-IsConsistent :
    (env : NetRx) (st : Emulator) (a : ℕ) (skb : Bytes)
    → IsConsistent st
    → IsConsistent (net_xmit env st a skb).0
unfolding net_xmit Net.hwenet_xmit
net_xmit-IsConsistent env st a skb c =
    at_device-IsConsistent st a _ c
      (λ ndev. transmitted_hwedev env (count_tx ndev skb) skb (pairs_of st net ndev.hwedev))

put_i2c-IsConsistent :
    (st : Emulator) (a : ℕ) (e : I2cEntry) (dev : I2cDev)
    → lookup st.drivers.i2cs a ≡ some e
    → dev.in_use ≡ e.dev.in_use
    → IsConsistent st
    → IsConsistent (put_i2c st a e dev)
put_i2c-IsConsistent st a e dev there used c =
    let devices = replace a (record e { dev = dev }) st.drivers.i2cs in
    with_drivers st (record st.drivers { i2cs = devices }) c
      (i2cs-IsSound st.drivers devices st.drivers.oops c.linked.valid
        (replace-IsDistinct a _ st.drivers.i2cs c.linked.valid.i2c_distinct) c.linked.valid.safe)
      owners
  where
    owners :
        (j : Iface) (k : ℕ)
        → owner
            (record st.drivers { i2cs = replace a (record e { dev = dev }) st.drivers.i2cs })
            j
            k
          ≡ owner st.drivers j k
    owners i2c k =
        owner-replace Create.hwedev_of st.drivers.i2cs a k e (record e { dev = dev }) there
          (ap (λ b. if b then some e.hwedev else none) used)
    owners tty k = refl
    owners net k = refl
    owners spi k = refl

master_xfer_in_use :
    (pairs : List HwePair) (dev : I2cDev) (msgs : List I2cMsg)
    → (hwei2c_master_xfer pairs dev msgs).0.in_use ≡ dev.in_use
unfolding hwei2c_master_xfer
master_xfer_in_use pairs dev msgs = go dev.in_use
  where
    go :
        (b : Bool)
        → let x : I2cDev × List I2cMsg × Ret =
            if b
            then (let (r, msgs', e) = do_master_xfer pairs dev.response msgs in
                (record dev { response = r }, msgs', e))
            else (dev, msgs, err enodev) in
          x.0.in_use ≡ dev.in_use
    go true = refl
    go false = refl

smbus_xfer_in_use :
    (rw_flag : ReadWrite) (command : ℕ) (size : SmbusSize) (dev : I2cDev) (data_block : Bytes)
    → (hwei2c_smbus_xfer rw_flag command size dev data_block).0.in_use ≡ dev.in_use
unfolding hwei2c_smbus_xfer
smbus_xfer_in_use rw_flag command size dev data_block = go dev.in_use
  where
    go :
        (b : Bool)
        → let x : I2cDev × Bytes × Ret =
            if b
            then (let (chip, data_block', ret) =
                  do_smbus_xfer rw_flag command size dev.chip data_block in
                (record dev { chip = chip }, data_block', ret))
            else (dev, data_block, err enodev) in
          x.0.in_use ≡ dev.in_use
    go true = refl
    go false = refl

module _ (st : Emulator) (a : ℕ) (c : IsConsistent st) where
  master_transfer-IsConsistent :
      (msgs : List I2cMsg) (e : I2cEntry) (o : Option (List HwePair))
      → lookup st.drivers.i2cs a ≡ some e
      → IsConsistent (master_transfer st a msgs e o).0
  master_transfer-IsConsistent msgs e none there = c
  master_transfer-IsConsistent msgs e (some pairs) there =
      put_i2c-IsConsistent st a e (hwei2c_master_xfer pairs e.dev msgs).0 there
        (master_xfer_in_use pairs e.dev msgs) c

  pub i2c_master-IsConsistent : (msgs : List I2cMsg) → IsConsistent (i2c_master st a msgs).0
  unfolding i2c_master
  i2c_master-IsConsistent msgs = elim (Option-cases (lookup st.drivers.i2cs a)) [
    | inl e ↦ subst (λ o. IsConsistent (master_at st a msgs o).0) (sym e) c
    | inr (x, e) ↦
        subst (λ o. IsConsistent (master_at st a msgs o).0) (sym e)
          (master_transfer-IsConsistent msgs x (i2c_pairs st x) e)
  ]

  pub i2c_smbus-IsConsistent :
      (rw_flag : ReadWrite) (command : ℕ) (size : SmbusSize) (data_block : Bytes)
      → IsConsistent (i2c_smbus st a rw_flag command size data_block).0
  unfolding i2c_smbus
  i2c_smbus-IsConsistent rw_flag command size data_block =
      let result : Option I2cEntry → Emulator =
        λ o. (smbus_at st a rw_flag command size data_block o).0 in
      elim (Option-cases (lookup st.drivers.i2cs a)) [
        | inl e ↦ subst (λ o. IsConsistent (result o)) (sym e) c
        | inr (x, e) ↦
            subst (λ o. IsConsistent (result o)) (sym e)
              (put_i2c-IsConsistent st a x _ e
                (smbus_xfer_in_use rw_flag command size x.dev data_block) c)
      ]

  put_spi-IsConsistent :
      (e e' : SpiEntry)
      → lookup st.drivers.spis.devices a ≡ some e
      → e'.hwedev ≡ e.hwedev
      → IsConsistent (put_spi st a e')
  put_spi-IsConsistent e e' there same =
      let s = record st.drivers.spis { devices = replace a e' st.drivers.spis.devices } in
      with_drivers st (record st.drivers { spis = s }) c
        (spis-IsSound st.drivers s st.drivers.oops c.linked.valid
          (replace-IsDistinct a e' st.drivers.spis.devices c.linked.valid.spi_distinct)
          c.linked.valid.safe)
        owners
    where
      owners : (j : Iface) (k : ℕ) → owner (put_spi st a e').drivers j k ≡ owner st.drivers j k
      owners spi k =
          owner-replace Masters.hwedev_of st.drivers.spis.devices a k e e' there (ap some same)
      owners tty k = refl
      owners i2c k = refl
      owners net k = refl

  spi_transfer_with-IsConsistent :
      (t : SpiTransfer) (e : SpiEntry) (o : Option (List HwePair))
      → lookup st.drivers.spis.devices a ≡ some e
      → IsConsistent (spi_transfer_with st a t e o).0
  spi_transfer_with-IsConsistent t e none there = c
  spi_transfer_with-IsConsistent t e (some pairs) there =
      put_spi-IsConsistent e (record e { response = (hwespi_transfer_one pairs e.response t).0 })
        there refl

  pub spi_transfer-IsConsistent : (t : SpiTransfer) → IsConsistent (spi_transfer st a t).0
  unfolding spi_transfer
  spi_transfer-IsConsistent t = elim (Option-cases (lookup st.drivers.spis.devices a)) [
    | inl e ↦ subst (λ o. IsConsistent (spi_at st a t o).0) (sym e) c
    | inr (x, e) ↦
        subst (λ o. IsConsistent (spi_at st a t o).0) (sym e)
          (spi_transfer_with-IsConsistent t x (spi_pairs st x t.tx_buf) e)
  ]
