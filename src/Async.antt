-- ===== src/Async.antt =====
-- kernel/hwe_async.c: the timer that offers the responses of asynchronous pairs to their devices.
-- `jiffies` is a 64-bit counter that wraps. The table `async_rx[]` is a parameter here, as it changes
-- the drivers' state; Drivers.antt fills it in.
pub mod Schedule
pub mod Invariant
pub mod Walk
use linux_hardware_devices_e.Prelude.{
  ℕ, ◌+◌, ◌-◌, ◌*◌, ◌/◌, ◌%◌, ◌^◌, Bool, true, false, List, [], ◌∷◌, Option, none, ◌==◌, ltb,
  if◌then◌else◌,
}
use linux_hardware_devices_e.Consts.{Iface, tty, i2c, net, spi, Errno}
use linux_hardware_devices_e.Utils.Pair.{HwePair}
use linux_hardware_devices_e.Sysfs.Dev.{HweDev}
use linux_hardware_devices_e.Sysfs.Registry.{HweIface, State, set_iface}
use linux_hardware_devices_e.Sysfs.Calls.{lock_iface_devs, unlock_iface_devs, try_lock_iface_devs}

-- The kernel's macro: `(long)(a - b) >= 0`.
unfoldable pub time_after_eq : ℕ → ℕ → Bool
time_after_eq a b = ltb ((a + 2 ^ 64 - b) % 2 ^ 64) (2 ^ 63)

-- `j`: when a pair is to be received next.
unfoldable pub due_time : ℕ → HwePair → ℕ
due_time jiff p = if p.time == 0 then jiff else (p.time + p.period) % 2 ^ 64

unfoldable pub is_due : ℕ → HwePair → Bool
unfolding time_after_eq due_time
is_due jiff p = if p.async_rx then time_after_eq jiff (due_time jiff p) else false

abbrev pub AsyncRx : Type 0 → Type 0
AsyncRx D = D → Iface → Option ℕ → HwePair → D

module _ {D : Type 0} (async_rx : AsyncRx D) (jiff : ℕ) where
  -- The loop over the pairs of one device: the drivers' state, and the pairs with their new times.
  unfoldable pub visit_pairs : Iface → Option ℕ → D → List HwePair → D × List HwePair
  unfolding is_due due_time
  visit_pairs ifc priv d [] = (d, [])
  visit_pairs ifc priv d (p ∷ pairs) =
      let fires = is_due jiff p in
      let p' = if fires then record p { time = due_time jiff p } else p in
      let (d', pairs') = visit_pairs ifc priv (if fires then async_rx d ifc priv p' else d) pairs in
      (d', p' ∷ pairs')

  -- The loop over the devices of one interface.
  unfoldable pub visit_devs : Iface → D → List HweDev → D × List HweDev
  unfolding visit_pairs
  visit_devs ifc d [] = (d, [])
  visit_devs ifc d (dev ∷ devs) =
      let (d₁, pairs) = visit_pairs ifc dev.device d dev.pair_list in
      let (d₂, devs') = visit_devs ifc d₁ devs in (d₂, record dev { pair_list = pairs } ∷ devs')

  -- One round of the outer loop, with the semaphore taken.
  unfoldable pub visit_locked : State D → Iface → State D
  unfolding visit_devs
  visit_locked st ifc =
      let (d, devs) = visit_devs ifc st.drivers (st.ifaces ifc).dev_list in
      record (set_iface st ifc (record (st.ifaces ifc) { dev_list = devs })) { drivers = d }

  -- A round is skipped if the semaphore is taken.
  unfoldable pub visit_iface : State D → Iface → State D
  unfolding visit_locked
  visit_iface st ifc =
      let (st₁, taken) = try_lock_iface_devs st ifc in
      if taken then unlock_iface_devs (visit_locked st₁ ifc) ifc else st

  -- The timer is set again at the end, at the next jiffy.
  unfoldable pub timer_func : State D → State D
  unfolding visit_iface
  timer_func st = visit_iface (visit_iface (visit_iface (visit_iface st tty) i2c) net) spi

-- timer_setup() and add_timer() of hwe_init_async(), and del_timer_sync() of hwe_cleanup_async(), on
-- whether the timer is pending; it is set again at the end of each round.
abbrev pub hwe_init_async : Bool → Bool × Option Errno
hwe_init_async pending = (true, none)

abbrev pub hwe_cleanup_async : Bool → Bool
hwe_cleanup_async pending = false
