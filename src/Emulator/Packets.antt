-- ===== src/Emulator/Packets.antt =====
-- Transmissions and transfers through the net, i2c and spi drivers, at a state whose devices and
-- private data are linked.
use linux_hardware_devices_e.Prelude.{
  ℕ, ◌+◌, ◌%◌, ◌^◌, ◌≡◌, refl, ap, ◌∙◌, Option-cases, inl, inr, true, false, List, [], ◌∷◌, ◌++◌,
  Option, none, some, Bytes, ◌==◌, if◌then◌else◌,
}
use linux_hardware_devices_e.Consts.{i2c, net, spi, Ret, ok, err, fault, enodev}
use linux_hardware_devices_e.Utils.Pair.{HwePair}
use linux_hardware_devices_e.Utils.Lookup.{find_pair}
use linux_hardware_devices_e.Sysfs.Dev.{HweDev}
use linux_hardware_devices_e.Sysfs.Calls.{device_at}
use linux_hardware_devices_e.Pool.{lookup, replace}
use linux_hardware_devices_e.Pool.Laws.{lookup-replace}
use linux_hardware_devices_e.Net.{
  NetDev, NetRx, hwenet_xmit, at_device, send_response, count_tx, responded, transmitted,
}
use linux_hardware_devices_e.Net.Devices
use linux_hardware_devices_e.I2c.{I2cDev, I2cMsg, hwei2c_master_xfer}
use linux_hardware_devices_e.I2c.Master.{hwei2c_master_xfer_unused}
use linux_hardware_devices_e.Response.{Response}
use linux_hardware_devices_e.Spi.Transfer.{hwespi_transfer_one_no_tx}
use linux_hardware_devices_e.I2c.Devices.{I2cEntry}
use linux_hardware_devices_e.I2c.Devices.Create
use linux_hardware_devices_e.Spi.{SpiTransfer, hwespi_transfer_one}
use linux_hardware_devices_e.Spi.Devices.{SpiEntry}
use linux_hardware_devices_e.Spi.Devices.Masters
use linux_hardware_devices_e.Emulator.{
  Emulator, pair_list_of, pairs_of, with_nets, net_xmit, put_i2c, master_transfer, master_at,
  i2c_master, put_spi, spi_pairs, spi_transfer_with, spi_at, spi_transfer,
}
use linux_hardware_devices_e.Emulator.Transfers.{IsLinked, pairs_of_live}

-- A network device that received a response.
abbrev pub heard : Option HwePair → NetDev → NetDev
heard none ndev = ndev
heard (some p) ndev = record ndev {
  rx_packets = (ndev.rx_packets + 1) % 2 ^ 64;
  rx = ndev.rx ++ p.resp ∷ [];
}

-- The result of a transmission.
abbrev pub xmit_result : NetRx → Option HwePair → Ret
xmit_result env none = ok 0
xmit_result env (some p) = ok (env.netif_rx p.resp)

module _ (env : NetRx) (st : Emulator) (a : ℕ) (skb : Bytes) (ndev : NetDev) (l : IsLinked st)
    (there : lookup st.drivers.nets a ≡ some ndev) where
  xmit_from : NetDev × Ret → Emulator × Ret
  xmit_from x = with_nets st (replace a x.0 st.drivers.nets, x.1)

  by_pairs :
      (list : List HwePair)
      → pairs_of st net ndev.hwedev ≡ some list
      → net_xmit env st a skb ≡ xmit_from (responded env (count_tx ndev skb) (find_pair list skb))
  unfolding net_xmit hwenet_xmit xmit_from
  by_pairs list e =
      ap
        (λ o. with_nets st (
          at_device st.drivers.nets a
            (λ (n : NetDev). transmitted env (count_tx n skb) skb (pairs_of st net n.hwedev)) o))
        there
      ∙ ap (λ o. xmit_from (transmitted env (count_tx ndev skb) skb o)) e

  responded-heard :
      (o : Option HwePair)
      → env.alloc_skb ≡ true
      → responded env (count_tx ndev skb) o ≡ (heard o (count_tx ndev skb), xmit_result env o)
  unfolding send_response
  responded-heard none memory = refl
  responded-heard (some p) memory = rw memory refl

  -- At a state where the devices and the drivers' private data belong to each other, a packet
  -- that is sent through a live network device counts, with its length, and belongs to a listed
  -- device; with memory for an answer, the network device receives the response of the first
  -- synchronous pair of that device whose request the packet is, and the result is that of
  -- netif_rx(), or, if there is no such pair, it receives nothing and the result is NETDEV_TX_OK;
  -- every other network device stays as it is.
  pub net_xmit_listed :
      (k : ℕ)
      → env.alloc_skb ≡ true
      → (d : HweDev) × (device_at st net ndev.hwedev ≡ some d)
        × ((net_xmit env st a skb).1 ≡ xmit_result env (find_pair d.pair_list skb))
        × (lookup (net_xmit env st a skb).0.drivers.nets k ≡ (
            if a == k
            then some (heard (find_pair d.pair_list skb) (count_tx ndev skb))
            else lookup st.drivers.nets k))
  unfolding xmit_from
  net_xmit_listed k memory =
      let (d, at, priv) = pairs_of_live st net a ndev.hwedev l (ap Devices.hwedev_of there) in
      let o = find_pair d.pair_list skb in
      let same =
        by_pairs d.pair_list (ap pair_list_of at) ∙ ap xmit_from (responded-heard o memory) in
      (
        d,
        at,
        ap (λ (x : Emulator × Ret). x.1) same,
        ap (λ (x : Emulator × Ret). lookup x.0.drivers.nets k) same
            ∙ lookup-replace a k ndev (heard o (count_tx ndev skb)) st.drivers.nets there,
      )

  -- If the listed device of a live network device has a response for the packet and there is no
  -- memory for it, a null pointer is dereferenced.
  pub net_xmit-no_memory :
      (d : HweDev) (p : HwePair)
      → device_at st net ndev.hwedev ≡ some d
      → find_pair d.pair_list skb ≡ some p
      → env.alloc_skb ≡ false
      → (net_xmit env st a skb).1 ≡ fault
  unfolding send_response xmit_from
  net_xmit-no_memory d p at found no_memory =
      ap (λ (x : Emulator × Ret). x.1)
        (by_pairs d.pair_list (ap pair_list_of at)
          ∙ ap (λ o. xmit_from (responded env (count_tx ndev skb) o)) found)
      ∙ rw no_memory refl

module _ (st : Emulator) (a : ℕ) (msgs : List I2cMsg) (e : I2cEntry)
    (there : lookup st.drivers.i2cs a ≡ some e) where
  -- At a state where the devices and the drivers' private data belong to each other, an i2c
  -- transfer by an adapter whose private data are in use is the transfer with the pairs of the
  -- listed device that they belong to: no freed device is looked at.
  pub i2c_master_listed :
      e.dev.in_use ≡ true
      → IsLinked st
      → (d : HweDev) × (device_at st i2c e.hwedev ≡ some d)
        × (i2c_master st a msgs ≡ (
          put_i2c st a e (hwei2c_master_xfer d.pair_list e.dev msgs).0,
          (hwei2c_master_xfer d.pair_list e.dev msgs).1,
          (hwei2c_master_xfer d.pair_list e.dev msgs).2,
        ))
  unfolding i2c_master
  i2c_master_listed used l =
      let own = ap Create.hwedev_of there ∙ ap (λ b. if b then some e.hwedev else none) used in
      let (d, at, priv) = pairs_of_live st i2c a e.hwedev l own in
      (
        d,
        at,
        ap (master_at st a msgs) there
            ∙ ap
                (λ b. master_transfer st a msgs e (if b then pairs_of st i2c e.hwedev else some []))
                used
            ∙ ap (λ o. master_transfer st a msgs e (pair_list_of o)) at,
      )

  -- By one whose private data are given up it gives -ENODEV, and changes no message.
  pub i2c_master_unused :
      e.dev.in_use ≡ false → i2c_master st a msgs ≡ (put_i2c st a e e.dev, msgs, err enodev)
  unfolding i2c_master
  i2c_master_unused idle =
      ap (master_at st a msgs) there
      ∙ ap (λ b. master_transfer st a msgs e (if b then pairs_of st i2c e.hwedev else some [])) idle
      ∙ ap (λ (x : I2cDev × List I2cMsg × Ret). (put_i2c st a e x.0, x.1, x.2))
          (hwei2c_master_xfer_unused [] e.dev msgs idle)

-- An spi transfer by a master is the transfer with the pairs of the listed device that its private data
-- belong to.
pub spi_transfer_listed :
    (st : Emulator) (a : ℕ) (t : SpiTransfer) (e : SpiEntry)
    → lookup st.drivers.spis.devices a ≡ some e
    → IsLinked st
    → (d : HweDev) × (device_at st spi e.hwedev ≡ some d)
      × (spi_transfer st a t ≡ (
        put_spi st a (record e { response = (hwespi_transfer_one d.pair_list e.response t).0 }),
        (hwespi_transfer_one d.pair_list e.response t).1,
        ok 0,
      ))
unfolding spi_transfer
spi_transfer_listed st a t e there l =
    let (d, at, priv) = pairs_of_live st spi a e.hwedev l (ap Masters.hwedev_of there) in
    (
      d,
      at,
      ap (spi_at st a t) there ∙ elim (Option-cases t.tx_buf) [
        | inl none_sent ↦
            ap (λ o. spi_transfer_with st a t e (spi_pairs st e o)) none_sent
            ∙ ap
                (λ (x : Response × SpiTransfer).
                  (put_spi st a (record e { response = x.0 }), x.1, ok 0))
                (hwespi_transfer_one_no_tx [] d.pair_list e.response t none_sent)
        | inr (tx, is_sent) ↦
            ap (λ o. spi_transfer_with st a t e (spi_pairs st e o)) is_sent
            ∙ ap (λ o. spi_transfer_with st a t e (pair_list_of o)) at
      ],
    )
