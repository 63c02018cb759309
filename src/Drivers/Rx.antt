-- ===== src/Drivers/Rx.antt =====
-- The asynchronous handlers of the table `async_rx` meet what kernel/hwe_async.c relies on.
use linux_hardware_devices_e.Prelude.{
  ℕ, ◌≡◌, refl, ap, sym, subst, ◌∙◌, arith, Bool-cases, Option-cases, inl, inr, true, false, Option,
  none, some, Bytes, ◌==◌, if◌then◌else◌,
}
use linux_hardware_devices_e.Consts.{Iface, tty, i2c, net, spi}
use linux_hardware_devices_e.Utils.Pair.{HwePair}
use linux_hardware_devices_e.Handles.{Keeps}
use linux_hardware_devices_e.Pool.{Pool, lookup, replace, IsDistinct}
use linux_hardware_devices_e.Pool.Laws.{lookup-replace, replace-IsDistinct}
use linux_hardware_devices_e.Tty.{TtyPriv, TtyDriver, hwe_tty_async_rx, received}
use linux_hardware_devices_e.Tty.Slots.{hwedev_of}
use linux_hardware_devices_e.Net.{NetDev, hwe_net_async_rx, at_device, send_response}
use linux_hardware_devices_e.Net.Devices
use linux_hardware_devices_e.Net.Devices.{async_rx_net-IsDistinct, async_rx_net_owner}
use linux_hardware_devices_e.I2c.{hwe_i2c_async_rx}
use linux_hardware_devices_e.I2c.Devices.{I2cEntry}
use linux_hardware_devices_e.I2c.Devices.Create
use linux_hardware_devices_e.Spi.Devices.{SpiEntry}
use linux_hardware_devices_e.Spi.Devices.Masters
use linux_hardware_devices_e.Drivers.{
  Drivers, RxEnv, is_fault, is_none, i2c_rx, spi_rx, rx_device, async_rx, owner, IsSound,
}
use linux_hardware_devices_e.Drivers.Sound.{
  ttys-IsSound, i2cs-IsSound, nets-IsSound, spis-IsSound, or_false, live_there,
}

received_devices :
    (accepts : ℕ → Bytes → ℕ) (t : TtyDriver) (p : HwePair) (o : Option TtyPriv)
    → (received accepts t p o).devices ≡ t.devices
received_devices accepts t p none = refl
received_devices accepts t p (some dev) = refl

tty_rx_devices :
    (accepts : ℕ → Bytes → ℕ) (t : TtyDriver) (h : ℕ) (p : HwePair)
    → (hwe_tty_async_rx accepts t h p).devices ≡ t.devices
unfolding hwe_tty_async_rx
tty_rx_devices accepts t h p = received_devices accepts t p (t.devices h)

i2c_rx-IsDistinct :
    (devices : Pool I2cEntry) (h : ℕ) (p : HwePair) (o : Option I2cEntry)
    → IsDistinct devices
    → IsDistinct (i2c_rx devices h p o)
i2c_rx-IsDistinct devices h p none v = v
i2c_rx-IsDistinct devices h p (some e) v = replace-IsDistinct h _ devices v

spi_rx-IsDistinct :
    (devices : Pool SpiEntry) (h : ℕ) (p : HwePair) (o : Option SpiEntry)
    → IsDistinct devices
    → IsDistinct (spi_rx devices h p o)
spi_rx-IsDistinct devices h p none v = v
spi_rx-IsDistinct devices h p (some e) v = replace-IsDistinct h _ devices v

-- A change in place that keeps what the owner is read from keeps the owners.
pub owner-replace :
    {A : Type 0} (own : Option A → Option ℕ) (devices : Pool A) (h k : ℕ) (x y : A)
    → lookup devices h ≡ some x
    → own (some y) ≡ own (some x)
    → own (lookup (replace h y devices) k) ≡ own (lookup devices k)
owner-replace own devices h k x y e same =
    ap own (lookup-replace h k x y devices e) ∙ elim (Bool-cases (h == k)) [
      | inl s ↦
          let hk : h ≡ k = ground arith in
          ap (λ b. own (if b then some y else lookup devices k)) s
          ∙ same
          ∙ sym (ap own (ap (lookup devices) (sym hk) ∙ e))
      | inr s ↦ ap (λ b. own (if b then some y else lookup devices k)) s
    ]

i2c_async_rx_in_use :
    (e : I2cEntry) (p : HwePair) → (hwe_i2c_async_rx e.dev p).in_use ≡ e.dev.in_use
unfolding hwe_i2c_async_rx
i2c_async_rx_in_use e p = ground arith

i2c_rx_owner :
    (devices : Pool I2cEntry) (h k : ℕ) (p : HwePair)
    → Create.i2c_owner (i2c_rx devices h p (lookup devices h)) k ≡ Create.i2c_owner devices k
i2c_rx_owner devices h k p = elim (Option-cases (lookup devices h)) [
  | inl e ↦ ap (λ o. Create.i2c_owner (i2c_rx devices h p o) k) e
  | inr (x, e) ↦
      ap (λ o. Create.i2c_owner (i2c_rx devices h p o) k) e
      ∙ owner-replace Create.hwedev_of devices h k x _ e
          (ap (λ b. if b then some x.hwedev else none) (i2c_async_rx_in_use x p))
]

spi_rx_owner :
    (devices : Pool SpiEntry) (h k : ℕ) (p : HwePair)
    → Masters.hwedev_of (lookup (spi_rx devices h p (lookup devices h)) k)
      ≡ Masters.hwedev_of (lookup devices k)
spi_rx_owner devices h k p = elim (Option-cases (lookup devices h)) [
  | inl e ↦ ap (λ o. Masters.hwedev_of (lookup (spi_rx devices h p o) k)) e
  | inr (x, e) ↦
      ap (λ o. Masters.hwedev_of (lookup (spi_rx devices h p o) k)) e
      ∙ owner-replace Masters.hwedev_of devices h k x _ e refl
]

module _ (env : RxEnv) (memory : env.network.alloc_skb ≡ true) where
  sent : (ndev : NetDev) (resp : Bytes) → is_fault (send_response env.network ndev resp).1 ≡ false
  unfolding send_response
  sent ndev resp = rw memory refl

  net_rx_there :
      (devices : Pool NetDev) (h : ℕ) (p : HwePair) (o : Option NetDev)
      → is_none o ≡ false
      → is_fault (at_device devices h (λ ndev. send_response env.network ndev p.resp) o).1 ≡ false
  net_rx_there devices h p none e = absurd cc
  net_rx_there devices h p (some ndev) e = sent ndev p.resp

  rx_valid :
      (d : Drivers) (iface : Iface) (h i : ℕ) (p : HwePair)
      → IsSound d
      → owner d iface h ≡ some i
      → IsSound (rx_device env d iface h p)
  unfolding rx_device hwe_net_async_rx
  rx_valid d tty h i p v live =
      ttys-IsSound d (hwe_tty_async_rx env.accepts d.ttys h p) _ v
        (subst (λ f. (k : ℕ) (dev : TtyPriv) → f k ≡ some dev → (dev.index ≡ k) × (dev.hwedev ≡ k))
          (sym (tty_rx_devices env.accepts d.ttys h p)) v.table)
        (or_false d.oops _ v.safe (live_there hwedev_of refl (d.ttys.devices h) i live))
  rx_valid d i2c h i p v live =
      i2cs-IsSound d _ _ v (i2c_rx-IsDistinct d.i2cs h p (lookup d.i2cs h) v.i2c_distinct)
        (or_false d.oops _ v.safe (live_there Create.hwedev_of refl (lookup d.i2cs h) i live))
  rx_valid d net h i p v live =
      nets-IsSound d (hwe_net_async_rx env.network d.nets h p).0 _ v
        (async_rx_net-IsDistinct env.network d.nets h p v.net_distinct)
        (or_false d.oops _ v.safe (
          net_rx_there d.nets h p (lookup d.nets h)
            (live_there Devices.hwedev_of refl (lookup d.nets h) i live)))
  rx_valid d spi h i p v live =
      spis-IsSound d _ _ v
        (spi_rx-IsDistinct d.spis.devices h p (lookup d.spis.devices h) v.spi_distinct)
        (or_false d.oops _ v.safe
          (live_there Masters.hwedev_of refl (lookup d.spis.devices h) i live))

  rx_owner :
      (d : Drivers) (iface : Iface) (h : ℕ) (p : HwePair) (j : Iface) (k : ℕ)
      → owner (rx_device env d iface h p) j k ≡ owner d j k
  unfolding rx_device
  rx_owner d tty h p tty k = ap (λ f. hwedev_of (f k)) (tty_rx_devices env.accepts d.ttys h p)
  rx_owner d i2c h p i2c k = i2c_rx_owner d.i2cs h k p
  rx_owner d net h p net k = async_rx_net_owner env.network d.nets h p k
  rx_owner d spi h p spi k = spi_rx_owner d.spis.devices h k p
  rx_owner d _ h p _ k = refl

  -- As long as there is memory for the network's packets, a handler that gets a pair for live private
  -- data dereferences nothing that is null or freed, and no private data change their owner.
  pub async_rx-Keeps : Keeps (async_rx env) owner IsSound
  unfolding async_rx
  async_rx-Keeps = record { keeps_valid = rx_valid; keeps_owner = rx_owner }
