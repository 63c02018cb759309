-- ===== src/Async/Walk.antt =====
-- The loop of timer_func() of kernel/hwe_async.c over the devices of an interface, as it is written: with
-- find_first_device() and find_next_device() on the list that the rounds change.
use linux_hardware_devices_e.Prelude.{
  ℕ, zero, suc, ◌≤◌, ◌≡◌, ◌≢◌, refl, ap, ◌∙◌, false, List, [], ◌∷◌, Option, none, some, All, arith,
  length, ◌==◌, ==_refl, if_elim, if◌then◌else◌,
}
use linux_hardware_devices_e.Consts.{Iface}
use linux_hardware_devices_e.Sysfs.Bitmap.{Bitmap}
use linux_hardware_devices_e.Sysfs.Dev.{HweDev}
use linux_hardware_devices_e.Sysfs.Registry.{State, find_first_device, find_next_device, update_dev}
use linux_hardware_devices_e.Sysfs.Registry.Lists.{Devices, Registries}
use linux_hardware_devices_e.Async.{AsyncRx, visit_pairs, visit_devs}

abbrev Holds : (HweDev → Type 0) → Option HweDev → Type 0
Holds P none = Unit
Holds P (some dev) = P dev

first-Holds :
    (P : HweDev → Type 0) (list : List HweDev) → All P list → Holds P (find_first_device list)
unfolding find_first_device
first-Holds P [] all = tt
first-Holds P (d ∷ list) all = all.0

next-Holds :
    (P : HweDev → Type 0) (list : List HweDev) (i : ℕ)
    → All P list
    → Holds P (find_next_device list i)
unfolding find_next_device
next-Holds P [] i all = tt
next-Holds P (d ∷ list) i all =
    if_elim (Holds P) (d.index == i) (first-Holds P list all.1) (next-Holds P list i all.1)

update_dev-All :
    (P : HweDev → Type 0) (dev : HweDev) (list : List HweDev)
    → P dev
    → All P list
    → All P (update_dev dev list)
unfolding update_dev
update_dev-All P dev [] h all = tt
update_dev-All P dev (d ∷ list) h all =
    if_elim (All P) (d.index == dev.index) (h, all.1) (all.0, update_dev-All P dev list h all.1)

module _ {D : Type 0} (async_rx : AsyncRx D) (jiff : ℕ) where
  -- One round of the loop: the drivers' state, and the device with the new times of its pairs.
  abbrev pub visit_dev : Iface → D → HweDev → D × HweDev
  visit_dev ifc d dev =
      let (d₁, pairs) = visit_pairs async_rx jiff ifc dev.device d dev.pair_list in
      (d₁, record dev { pair_list = pairs })

  -- The loop, with fuel.
  unfoldable pub visit_while : ℕ → Iface → D → List HweDev → Option HweDev → D × List HweDev
  unfolding update_dev find_next_device
  visit_while zero ifc d devs dev = (d, devs)
  visit_while (suc n) ifc d devs none = (d, devs)
  visit_while (suc n) ifc d devs (some dev) =
      let (d₁, dev₁) = visit_dev ifc d dev in
      let devs₁ = update_dev dev₁ devs in
      visit_while n ifc d₁ devs₁ (find_next_device devs₁ dev.index)

  -- A device in front that is not visited stays in front.
  visit_while_skip :
      (n : ℕ) (ifc : Iface) (x : HweDev) (d : D) (devs : List HweDev) (dev : Option HweDev)
      → All (λ q. q.index ≢ x.index) devs
      → Holds (λ q. q.index ≢ x.index) dev
      → visit_while n ifc d (x ∷ devs) dev
        ≡ ((visit_while n ifc d devs dev).0, x ∷ (visit_while n ifc d devs dev).1)
  unfolding visit_while
  visit_while_skip zero ifc x d devs dev all ne = refl
  visit_while_skip (suc n) ifc x d devs none all ne = refl
  visit_while_skip (suc n) ifc x d devs (some dev) all ne =
      let (d₁, dev₁) = visit_dev ifc d dev in
      let devs₁ = update_dev dev₁ devs in
      let other : (x.index == dev.index) ≡ false = ground (arith, ne) in
      let P : HweDev → Type 0 = λ q. q.index ≢ x.index in
      let all₁ = update_dev-All P dev₁ devs ne all in
      ap
        (λ b.
          let list = if b then dev₁ ∷ devs else x ∷ devs₁ in
          visit_while n ifc d₁ list (find_next_device list dev.index))
        other
      ∙ ap
          (λ b.
            visit_while n ifc d₁ (x ∷ devs₁)
              (if b then find_first_device devs₁ else find_next_device devs₁ dev.index))
          other
      ∙ visit_while_skip n ifc x d₁ devs₁ (find_next_device devs₁ dev.index) all₁
          (next-Holds P devs₁ dev.index all₁)

  visit_all :
      (n : ℕ) (ifc : Iface) (bits : Bitmap) (d : D) (devs : List HweDev)
      → Devices ifc bits devs
      → length devs ≤ n
      → visit_while n ifc d devs (find_first_device devs) ≡ visit_devs async_rx jiff ifc d devs
  unfolding visit_while visit_devs find_first_device
  visit_all zero ifc bits d [] v le = refl
  visit_all (suc n) ifc bits d [] v le = refl
  visit_all zero ifc bits d (x ∷ devs) v le = absurd (omega (arith, le))
  visit_all (suc n) ifc bits d (x ∷ devs) (bit, own, inv, all, v) le =
      let (d₁, x₁) = visit_dev ifc d x in
      let P : HweDev → Type 0 = λ q. q.index ≢ x.index in
      ap
        (λ b.
          let list = if b then x₁ ∷ devs else x ∷ update_dev x₁ devs in
          visit_while n ifc d₁ list (find_next_device list x.index))
        (==_refl x.index)
      ∙ ap
          (λ b.
            visit_while n ifc d₁ (x₁ ∷ devs)
              (if b then find_first_device devs else find_next_device devs x.index))
          (==_refl x.index)
      ∙ visit_while_skip n ifc x₁ d₁ devs (find_first_device devs) all (first-Holds P devs all)
      ∙ ap (λ (r : D × List HweDev). (r.0, x₁ ∷ r.1))
          (visit_all n ifc bits d₁ devs v (omega (arith, le)))

  -- At a state with the invariant, the loop of the timer over the devices of an interface, with the
  -- searches for the first and the next device in the list that it changes, ends after at most as many
  -- rounds as there are devices, and has done to the drivers and to the pairs what one pass through
  -- the list does that takes each device once, in order.
  pub visit_while-visit_devs :
      (st : State D) (ifc : Iface) (n : ℕ)
      → Registries st
      → length (st.ifaces ifc).dev_list ≤ n
      → visit_while n ifc st.drivers
          (st.ifaces ifc).dev_list
          (find_first_device (st.ifaces ifc).dev_list)
        ≡ visit_devs async_rx jiff ifc st.drivers (st.ifaces ifc).dev_list
  visit_while-visit_devs st ifc n v le =
      visit_all n ifc (st.ifaces ifc).dev_indexes st.drivers (st.ifaces ifc).dev_list
        (v ifc).devices le
