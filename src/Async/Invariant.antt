-- ===== src/Async/Invariant.antt =====
-- A round of the timer of kernel/hwe_async.c keeps the invariant of the interfaces.
use linux_hardware_devices_e.Prelude.{
  ℕ, suc, ◌≡◌, ◌≢◌, refl, ap, sym, subst, ◌∙◌, Bool-cases, inl, inr, Bool, true, false, List, [],
  ◌∷◌, Option, All, get_or, length, ◌==◌, if◌then◌else◌,
}
use linux_hardware_devices_e.Consts.{Iface, tty, i2c, net, spi}
use linux_hardware_devices_e.Utils.Pair.{HwePair}
use linux_hardware_devices_e.Utils.Pair.Valid.{IsValid}
use linux_hardware_devices_e.Sysfs.Bitmap.{Bitmap}
use linux_hardware_devices_e.Sysfs.Dev.{HweDev}
use linux_hardware_devices_e.Sysfs.Dev.Entries.{Apart, Entries}
use linux_hardware_devices_e.Sysfs.Registry.{State}
use linux_hardware_devices_e.Sysfs.Registry.Lists.{Devices, Registries}
use linux_hardware_devices_e.Sysfs.Registry.Invariant.{set_iface-Registries}
use linux_hardware_devices_e.Sysfs.Calls.{lock_iface_devs, unlock_iface_devs, try_lock_iface_devs}
use linux_hardware_devices_e.Sysfs.Calls.Invariant.{lock-Registries, unlock-Registries}
use linux_hardware_devices_e.Async.{
  due_time, is_due, AsyncRx, visit_pairs, visit_devs, visit_locked, visit_iface, timer_func,
}

-- A pair whose time is set if it is due.
abbrev touched : Bool → ℕ → HwePair → HwePair
touched b t p = if b then record p { time = t } else p

touched-Apart :
    (b b' : Bool) (t t' : ℕ) (p q : HwePair) → Apart p q → Apart (touched b t p) (touched b' t' q)
touched-Apart true true t t' p q h = h
touched-Apart true false t t' p q h = h
touched-Apart false true t t' p q h = h
touched-Apart false false t t' p q h = h

touched-IsValid : (b : Bool) (t : ℕ) (p : HwePair) → IsValid p → IsValid (touched b t p)
touched-IsValid true t p v = record {
  request = record { req_bytes = v.req_bytes; sync = v.sync; async = v.async };
  resp_bytes = v.resp_bytes;
  resp_size = v.resp_size;
}
touched-IsValid false t p v = v

touched_index : (b : Bool) (t : ℕ) (p : HwePair) → (touched b t p).index ≡ p.index
touched_index true t p = refl
touched_index false t p = refl

module _ {D : Type 0} (rx : AsyncRx D) (jiff : ℕ) where
  visit_pairs-Apart :
      (ifc : Iface) (priv : Option ℕ) (b : Bool) (t : ℕ) (p : HwePair) (pairs : List HwePair)
      (d : D)
      → All (Apart p) pairs
      → All (Apart (touched b t p)) (visit_pairs rx jiff ifc priv d pairs).1
  unfolding visit_pairs
  visit_pairs-Apart ifc priv b t p [] d h = tt
  visit_pairs-Apart ifc priv b t p (q ∷ pairs) d h = (
    touched-Apart b (is_due jiff q) t (due_time jiff q) p q h.0,
    visit_pairs-Apart ifc priv b t p pairs _ h.1,
  )

  visit_pairs-Entries :
      (ifc : Iface) (priv : Option ℕ) (bits : Bitmap) (pairs : List HwePair) (d : D)
      → Entries bits pairs
      → Entries bits (visit_pairs rx jiff ifc priv d pairs).1
  unfolding visit_pairs
  visit_pairs-Entries ifc priv bits [] d h = tt
  visit_pairs-Entries ifc priv bits (p ∷ pairs) d h = (
    ap (λ i. get_or bits i false) (touched_index (is_due jiff p) (due_time jiff p) p) ∙ h.0,
    touched-IsValid (is_due jiff p) (due_time jiff p) p h.1,
    visit_pairs-Apart ifc priv (is_due jiff p) (due_time jiff p) p pairs _ h.2,
    visit_pairs-Entries ifc priv bits pairs _ h.3,
  )

  length-visit_pairs :
      (ifc : Iface) (priv : Option ℕ) (pairs : List HwePair) (d : D)
      → length (visit_pairs rx jiff ifc priv d pairs).1 ≡ length pairs
  unfolding visit_pairs
  length-visit_pairs ifc priv [] d = refl
  length-visit_pairs ifc priv (p ∷ pairs) d = ap suc (length-visit_pairs ifc priv pairs _)

  visit_devs_indexes :
      (ifc : Iface) (i : ℕ) (devs : List HweDev) (d : D)
      → All (λ q. q.index ≢ i) devs
      → All (λ q. q.index ≢ i) (visit_devs rx jiff ifc d devs).1
  unfolding visit_devs
  visit_devs_indexes ifc i [] d h = tt
  visit_devs_indexes ifc i (dev ∷ devs) d h = (h.0, visit_devs_indexes ifc i devs _ h.1)

  visit_devs-Devices :
      (ifc : Iface) (bits : Bitmap) (devs : List HweDev) (d : D)
      → Devices ifc bits devs
      → Devices ifc bits (visit_devs rx jiff ifc d devs).1
  unfolding visit_devs
  visit_devs-Devices ifc bits [] d h = tt
  visit_devs-Devices ifc bits (dev ∷ devs) d h =
      let inv = h.2 in
      (
        h.0,
        h.1,
        record {
          size = inv.size;
          entries =
              visit_pairs-Entries ifc dev.device dev.pairs_indexes dev.pair_list d inv.entries;
          counted = inv.counted ∙ sym (length-visit_pairs ifc dev.device dev.pair_list d);
        },
        visit_devs_indexes ifc dev.index devs _ h.3,
        visit_devs-Devices ifc bits devs _ h.4,
      )

  length-visit_devs :
      (ifc : Iface) (devs : List HweDev) (d : D)
      → length (visit_devs rx jiff ifc d devs).1 ≡ length devs
  unfolding visit_devs
  length-visit_devs ifc [] d = refl
  length-visit_devs ifc (dev ∷ devs) d = ap suc (length-visit_devs ifc devs _)

  visit_locked-Registries :
      (st : State D) (ifc : Iface) → Registries st → Registries (visit_locked rx jiff st ifc)
  unfolding visit_locked
  visit_locked-Registries st ifc v =
      let r = v ifc in
      let devs = (st.ifaces ifc).dev_list in
      set_iface-Registries st ifc _ v (record {
        size = r.size;
        devices = visit_devs-Devices ifc (st.ifaces ifc).dev_indexes devs st.drivers r.devices;
        counted = r.counted ∙ sym (length-visit_devs ifc devs st.drivers);
      })

  pub visit_iface-Registries :
      (st : State D) (ifc : Iface) → Registries st → Registries (visit_iface rx jiff st ifc)
  unfolding visit_iface try_lock_iface_devs
  visit_iface-Registries st ifc v =
      let locked = lock_iface_devs st ifc in
      let tried : Bool → State D × Bool = λ b. if b then (st, false) else (locked, true) in
      let outcome : State D × Bool → State D =
        λ x. if x.1 then unlock_iface_devs (visit_locked rx jiff x.0 ifc) ifc else st in
      elim (Bool-cases ((st.ifaces ifc).sem == 0)) [
        | inl taken ↦ subst (λ b. Registries (outcome (tried b))) (sym taken) v
        | inr free ↦
            subst (λ b. Registries (outcome (tried b))) (sym free)
              (unlock-Registries (visit_locked rx jiff locked ifc) ifc
                (visit_locked-Registries locked ifc (lock-Registries st ifc v)))
      ]

  -- At a state with the invariant of the interfaces, their devices and their pairs, a round of the timer
  -- keeps it, whatever the drivers' handlers do to their state.
  pub timer_func-Registries : (st : State D) → Registries st → Registries (timer_func rx jiff st)
  unfolding timer_func
  timer_func-Registries st v = visit_iface-Registries _ spi (
      visit_iface-Registries _ net (visit_iface-Registries _ i2c (visit_iface-Registries st tty v)))
