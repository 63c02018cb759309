-- ===== src/Sysfs/Registry/Invariant.antt =====
-- Creating and shutting down devices keeps the invariant of the interfaces.
use linux_hardware_devices_e.Prelude.{
  ℕ, ◌<◌, ◌≡◌, refl, sym, subst, Bool-cases, inl, inr, true, false, List, [], ◌∷◌, Option, none,
  some, arith, length, ==_refl,
}
use linux_hardware_devices_e.Consts.{Iface, tty, i2c, net, spi, hwe_max_devices}
use linux_hardware_devices_e.Sysfs.Bitmap.{
  test_bit, find_first_zero_bit-le, test_bit-find_first_zero_bit,
}
use linux_hardware_devices_e.Sysfs.Dev.{HweDev, clear_pairs}
use linux_hardware_devices_e.Sysfs.Dev.Invariant.{clear_pairs_same}
use linux_hardware_devices_e.Sysfs.Dev.Entries.{Inv}
use linux_hardware_devices_e.Sysfs.Registry.{
  HweIface, DevOps, State, DevEnv, find_free_dev_index, find_device_by_index, update_dev, blank_dev,
  add_dev, del_dev, set_iface, destroy_device, shutdown_dev, finish_dev, new_dev_at, new_dev,
}
use linux_hardware_devices_e.Sysfs.Registry.Lists.{
  IsRegistry, Registries, blank_dev-Inv, add_dev-IsRegistry, del_dev-IsRegistry,
  update_dev-IsRegistry,
}

module _ {D : Type 0} where
  pub set_iface-Registries :
      (st : State D) (iface : Iface) (ifc : HweIface)
      → Registries st
      → IsRegistry iface ifc
      → Registries (set_iface st iface ifc)
  set_iface-Registries st tty ifc v r tty = r
  set_iface-Registries st i2c ifc v r i2c = r
  set_iface-Registries st net ifc v r net = r
  set_iface-Registries st spi ifc v r spi = r
  set_iface-Registries st _ ifc v r i = v i

  pub set_iface_self :
      (st : State D) (iface : Iface) (ifc : HweIface) → (set_iface st iface ifc).ifaces iface ≡ ifc
  set_iface_self st tty ifc = refl
  set_iface_self st i2c ifc = refl
  set_iface_self st net ifc = refl
  set_iface_self st spi ifc = refl

pub find-update_dev :
    (dev d : HweDev) (list : List HweDev)
    → find_device_by_index list dev.index ≡ some d
    → find_device_by_index (update_dev dev list) dev.index ≡ some dev
unfolding find_device_by_index update_dev
find-update_dev dev d [] e = cc
find-update_dev dev d (x ∷ list) e = ground (arith, find-update_dev dev d list, ==_refl dev.index)

pub free_index :
    (ifc : HweIface) (i : ℕ)
    → find_free_dev_index ifc ≡ some i
    → length ifc.dev_indexes ≡ hwe_max_devices
    → (i < hwe_max_devices) × (test_bit ifc.dev_indexes i ≡ false)
unfolding find_free_dev_index
free_index ifc i e size =
    ground
      (arith, find_first_zero_bit-le ifc.dev_indexes, test_bit-find_first_zero_bit ifc.dev_indexes)

module _ {D : Type 0} (ops : DevOps D) where
  pub destroy_device_ifaces :
      (st : State D) (dev : HweDev) → (destroy_device ops st dev).ifaces ≡ st.ifaces
  unfolding destroy_device
  destroy_device_ifaces st dev = ground arith

  -- A device that is listed is taken out; its index is free, and the other devices stay.
  pub shutdown_dev-Registries :
      (st : State D) (dev d : HweDev)
      → Registries st
      → find_device_by_index (st.ifaces dev.iface).dev_list dev.index ≡ some d
      → Registries (shutdown_dev ops st dev)
  unfolding shutdown_dev
  shutdown_dev-Registries st dev d v found =
      let st' = destroy_device ops st dev in
      let back = sym (destroy_device_ifaces st dev) in
      let v' : Registries st' = subst (λ f. (i : Iface) → IsRegistry i (f i)) back v in
      let here : find_device_by_index (st'.ifaces dev.iface).dev_list dev.index ≡ some d =
        subst (λ f. find_device_by_index (f dev.iface).dev_list dev.index ≡ some d) back found in
      let at : find_device_by_index (st'.ifaces dev.iface).dev_list (clear_pairs dev).index
          ≡ some d =
        subst (λ n. find_device_by_index (st'.ifaces dev.iface).dev_list n ≡ some d)
          (sym (clear_pairs_same dev).0) here in
      set_iface-Registries st' dev.iface (del_dev (clear_pairs dev) (st'.ifaces dev.iface)) v'
        (del_dev-IsRegistry (clear_pairs dev) d dev.iface (st'.ifaces dev.iface) (v' dev.iface) at)

  module _ (env : DevEnv) (st : State D) (dev : HweDev) (v : Registries st) (inv : Inv dev)
      (linked : find_device_by_index (st.ifaces dev.iface).dev_list dev.index ≡ some dev) where
    updated : HweDev → State D
    updated made =
        set_iface st dev.iface (record (st.ifaces dev.iface) {
          dev_list = update_dev made (st.ifaces dev.iface).dev_list;
        })

    updated-Registries :
        (made : HweDev) → made.iface ≡ dev.iface → Inv made → Registries (updated made)
    unfolding updated
    updated-Registries made own inv' =
        set_iface-Registries st dev.iface _ v
          (update_dev-IsRegistry made dev.iface (st.ifaces dev.iface) (v dev.iface) own inv')

    finish_dev-Registries : (answer : Option ℕ) → Registries (finish_dev ops env st dev answer).0
    unfolding finish_dev updated
    finish_dev-Registries none =
        set_iface-Registries st dev.iface _ v
          (del_dev-IsRegistry dev dev dev.iface (st.ifaces dev.iface) (v dev.iface) linked)
    finish_dev-Registries (some priv) = elim (Bool-cases env.kobject_add) [
      | inl e ↦ elim (Bool-cases env.pairs_dir) [
        | inl e₂ ↦ rw (e, e₂) (updated-Registries ready refl inv_ready)
        | inr e₂ ↦ rw (e, e₂) failed
      ]
      | inr e ↦ rw e failed
    ]
      where
        made : HweDev
        made = record dev { device = some priv }

        inv' : Inv made
        inv' = record { size = inv.size; entries = inv.entries; counted = inv.counted }

        ready : HweDev
        ready = record made { pairs_kobj = true }

        inv_ready : Inv ready
        inv_ready = record { size = inv.size; entries = inv.entries; counted = inv.counted }

        failed : Registries (shutdown_dev ops (updated made) made)
        failed =
            shutdown_dev-Registries (updated made) made made (updated-Registries made refl inv') (
              subst (λ ifc. find_device_by_index ifc.dev_list dev.index ≡ some made)
                (sym (set_iface_self st dev.iface _))
                (find-update_dev made dev (st.ifaces dev.iface).dev_list linked))

  new_dev_at-Registries :
      (env : DevEnv) (st : State D) (iface : Iface) (free : Option ℕ)
      → Registries st
      → find_free_dev_index (st.ifaces iface) ≡ free
      → Registries (new_dev_at ops env st iface free).0
  unfolding new_dev_at finish_dev
  new_dev_at-Registries env st iface none v e = v
  new_dev_at-Registries env st iface (some idx) v e =
      let ifc = st.ifaces iface in
      let dev = blank_dev iface idx in
      let linked = set_iface st iface (add_dev dev ifc) in
      let made = ops.create linked.drivers iface idx in
      let lt = free_index ifc idx e (v iface).size in
      elim (Bool-cases env.kzalloc) [
        | inr no_memory ↦ rw no_memory v
        | inl memory ↦ rw memory (
            finish_dev-Registries env (record linked { drivers = made.0 }) dev
              (set_iface-Registries st iface (add_dev dev ifc) v (
                add_dev-IsRegistry dev iface ifc (v iface) refl (blank_dev-Inv iface idx) lt.0
                  lt.1))
              (blank_dev-Inv iface idx)
              (subst (λ x. find_device_by_index x.dev_list idx ≡ some dev)
                (sym (set_iface_self st iface (add_dev dev ifc)))
                (unfold add_dev find_device_by_index in ground (arith, ==_refl idx)))
              made.1)
      ]

  -- Whatever the kernel and the driver answer, creating a device leaves every interface with devices
  -- at distinct indexes, which the bitmap marks, and none else.
  pub new_dev-Registries :
      (env : DevEnv) (st : State D) (iface : Iface)
      → Registries st
      → Registries (new_dev ops env st iface).0
  unfolding new_dev
  new_dev-Registries env st iface v = new_dev_at-Registries env st iface _ v refl
