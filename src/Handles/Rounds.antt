-- ===== src/Handles/Rounds.antt =====
-- A round of the timer of kernel/hwe_async.c keeps the links between the devices and their private
-- data, if the drivers' handlers do.
use linux_hardware_devices_e.Prelude.{
  ℕ, ◌≡◌, refl, ap, sym, subst, ◌∙◌, Bool-cases, inl, inr, Bool, true, false, List, [], ◌∷◌, Option,
  none, some, arith, All, All-map, ◌==◌, ==_refl, if◌then◌else◌,
}
use linux_hardware_devices_e.Consts.{Iface, tty, i2c, net, spi}
use linux_hardware_devices_e.Utils.Pair.{HwePair}
use linux_hardware_devices_e.Sysfs.Dev.{HweDev}
use linux_hardware_devices_e.Sysfs.Registry.{HweIface, State, find_device_by_index}
use linux_hardware_devices_e.Sysfs.Bitmap.{Bitmap}
use linux_hardware_devices_e.Sysfs.Registry.Lists.{Devices, Registries}
use linux_hardware_devices_e.Sysfs.Registry.Invariant.{set_iface_self}
use linux_hardware_devices_e.Sysfs.Calls.{lock_iface_devs, unlock_iface_devs, try_lock_iface_devs}
use linux_hardware_devices_e.Async.{
  is_due, due_time, AsyncRx, visit_pairs, visit_devs, visit_locked, visit_iface, timer_func,
}
use linux_hardware_devices_e.Sysfs.Calls.Invariant.{lock-Registries}
use linux_hardware_devices_e.Async.Invariant.{visit_iface-Registries}
use linux_hardware_devices_e.Handles.{device_of, Owner, Keeps, handle_at, LinkedIn, Linked}
use linux_hardware_devices_e.Handles.Links.{LinkedIn-same, handle_at_apart}
use linux_hardware_devices_e.Handles.Shutdown.{Linked-by, set_iface_ne}
use linux_hardware_devices_e.Handles.Calls.{lock-Linked, unlock-Linked}

module _ {D : Type 0} (rx : AsyncRx D) (owner : Owner D) (Valid : D → Type 0)
    (keeps : Keeps rx owner Valid) (jiff : ℕ) where
  -- The drivers' states with the same owners as one that is valid.
  record SameOwners (d d' : D) : Type 0 where
    valid : Valid d'
    owners : (j : Iface) (k : ℕ) → owner d' j k ≡ owner d j k

  -- A pair is received by live private data.
  fired :
      (b : Bool) (ifc : Iface) (h i : ℕ) (p : HwePair) (d : D)
      → Valid d
      → owner d ifc h ≡ some i
      → SameOwners d (if b then rx d ifc (some h) p else d)
  fired true ifc h i p d v live = record {
    valid = keeps.keeps_valid d ifc h i p v live;
    owners = keeps.keeps_owner d ifc h p;
  }
  fired false ifc h i p d v live = record { valid = v; owners = λ j k. refl }

  visit_pairs_owners :
      (ifc : Iface) (h i : ℕ) (pairs : List HwePair) (d : D)
      → Valid d
      → owner d ifc h ≡ some i
      → SameOwners d (visit_pairs rx jiff ifc (some h) d pairs).0
  unfolding visit_pairs
  visit_pairs_owners ifc h i [] d v live = record { valid = v; owners = λ j k. refl }
  visit_pairs_owners ifc h i (p ∷ pairs) d v live =
      let first =
        fired (is_due jiff p) ifc h i
          (if is_due jiff p then record p { time = due_time jiff p } else p) d v live in
      let rest = visit_pairs_owners ifc h i pairs _ first.valid (first.owners ifc h ∙ live) in
      record { valid = rest.valid; owners = λ j k. rest.owners j k ∙ first.owners j k }

  -- A device whose private data are live.
  abbrev Live : D → Iface → HweDev → Type 0
  Live d ifc dev = (h i : ℕ) × (dev.device ≡ some h) × (owner d ifc h ≡ some i)

  visit_devs_owners :
      (ifc : Iface) (devs : List HweDev) (d : D)
      → Valid d
      → All (Live d ifc) devs
      → SameOwners d (visit_devs rx jiff ifc d devs).0
  unfolding visit_devs
  visit_devs_owners ifc [] d v live = record { valid = v; owners = λ j k. refl }
  visit_devs_owners ifc (dev ∷ devs) d v live =
      let (h, i, e, own) = live.0 in
      let first : SameOwners d (visit_pairs rx jiff ifc dev.device d dev.pair_list).0 =
        subst (λ o. SameOwners d (visit_pairs rx jiff ifc o d dev.pair_list).0) (sym e)
          (visit_pairs_owners ifc h i dev.pair_list d v own) in
      let rest = visit_devs_owners ifc devs _ first.valid (
        All-map (Live d ifc) _ devs (λ dev' l. (l.0, l.1, l.2, first.owners ifc l.0 ∙ l.3))
          live.1) in
      record { valid = rest.valid; owners = λ j k. rest.owners j k ∙ first.owners j k }

  -- Every device of a list with distinct indexes is found at its index.
  listed-Live :
      (d : D) (ifc : Iface) (bits : Bitmap) (devs : List HweDev)
      → Devices ifc bits devs
      → ((i : ℕ) (o : Option ℕ)
          → handle_at devs i ≡ some o
          → (h : ℕ) × (o ≡ some h) × (owner d ifc h ≡ some i))
      → All (Live d ifc) devs
  unfolding find_device_by_index
  listed-Live d ifc bits [] v held = tt
  listed-Live d ifc bits (dev ∷ devs) v held =
      let (h, e, own) = held dev.index dev.device (ground (arith, ==_refl dev.index)) in
      (
        (h, dev.index, e, own),
        listed-Live d ifc bits devs v.4 (λ i o at. held i o (elim (Bool-cases (dev.index == i)) [
          | inl s ↦
              let di : dev.index ≡ i = ground arith in
              let none_there = handle_at_apart dev.index devs v.3 in
              let bad : none ≡ some o = sym none_there ∙ ap (handle_at devs) di ∙ at in absurd cc
          | inr s ↦ ap (λ b. device_of (if b then some dev else find_device_by_index devs i)) s ∙ at
        ])),
      )

  handle_at-visit_devs :
      (ifc : Iface) (i : ℕ) (devs : List HweDev) (d : D)
      → handle_at (visit_devs rx jiff ifc d devs).1 i ≡ handle_at devs i
  unfolding visit_devs find_device_by_index
  handle_at-visit_devs ifc i [] d = refl
  handle_at-visit_devs ifc i (dev ∷ devs) d = elim (Bool-cases (dev.index == i)) [
    | inl t ↦ rw t refl
    | inr f ↦ rw f (handle_at-visit_devs ifc i devs _)
  ]

  visit_locked-Linked :
      (st : State D) (ifc : Iface)
      → Registries st
      → Linked owner Valid st
      → Linked owner Valid (visit_locked rx jiff st ifc)
  unfolding visit_locked
  visit_locked-Linked st ifc v l =
      let devs = (st.ifaces ifc).dev_list in
      let after = visit_devs rx jiff ifc st.drivers devs in
      let same = visit_devs_owners ifc devs st.drivers l.valid (
        listed-Live st.drivers ifc (st.ifaces ifc).dev_indexes devs (v ifc).devices
          (l.links ifc).held) in
      Linked-by owner Valid st (visit_locked rx jiff st ifc) ifc l same.valid
        (subst (λ (x : HweIface). LinkedIn (owner after.0 ifc) x.dev_list)
          (sym (set_iface_self st ifc _))
          (LinkedIn-same (owner st.drivers ifc) (owner after.0 ifc) devs after.1
            (λ k. same.owners ifc k) (λ i. handle_at-visit_devs ifc i devs st.drivers)
            (l.links ifc)))
        (λ j k e. same.owners j k)
        (λ j e. ap (λ (x : HweIface). x.dev_list) (set_iface_ne st ifc j _ e))

  visit_iface-Linked :
      (st : State D) (ifc : Iface)
      → Registries st
      → Linked owner Valid st
      → Linked owner Valid (visit_iface rx jiff st ifc)
  unfolding visit_iface try_lock_iface_devs
  visit_iface-Linked st ifc v l =
      let locked = lock_iface_devs st ifc in
      let tried : Bool → State D × Bool = λ b. if b then (st, false) else (locked, true) in
      let outcome : State D × Bool → State D =
        λ x. if x.1 then unlock_iface_devs (visit_locked rx jiff x.0 ifc) ifc else st in
      elim (Bool-cases ((st.ifaces ifc).sem == 0)) [
        | inl taken ↦ subst (λ b. Linked owner Valid (outcome (tried b))) (sym taken) l
        | inr free ↦
            subst (λ b. Linked owner Valid (outcome (tried b))) (sym free)
              (unlock-Linked owner Valid _ ifc (
                visit_locked-Linked locked ifc (lock-Registries st ifc v)
                  (lock-Linked owner Valid st ifc l)))
      ]

  -- At a state with the invariants, a round of the timer keeps the links: it hands every due pair to
  -- live private data of its own device.
  pub timer_func-Linked :
      (st : State D)
      → Registries st
      → Linked owner Valid st
      → Linked owner Valid (timer_func rx jiff st)
  unfolding timer_func
  timer_func-Linked st v l =
      let v₁ = visit_iface-Registries rx jiff st tty v in
      let v₂ = visit_iface-Registries rx jiff _ i2c v₁ in
      let v₃ = visit_iface-Registries rx jiff _ net v₂ in
      visit_iface-Linked _ spi v₃
        (visit_iface-Linked _ net v₂ (visit_iface-Linked _ i2c v₁ (visit_iface-Linked st tty v l)))
