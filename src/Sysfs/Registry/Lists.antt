-- ===== src/Sysfs/Registry/Lists.antt =====
-- The invariant of an interface: its list of devices and its bitmap, and what links, unlinks and changes
-- a device.
use linux_hardware_devices_e.Prelude.{
  ℕ, ◌+◌, ◌<◌, ◌≡◌, ◌≢◌, refl, ap, sym, subst, ◌∙◌, Bool-cases, inl, inr, true, false, List, [],
  ◌∷◌, some, arith, All, length, length-set, length-replicate, get_or-set_self, get_or-set_ne, ◌==◌,
}
use linux_hardware_devices_e.Consts.{Iface, hwe_max_devices, hwe_max_pairs}
use linux_hardware_devices_e.Sysfs.Bitmap.{
  Bitmap, test_bit, set_bit, clear_bit, test_bit-set_bit, bitmap_weight, bitmap_weight-set_bit,
  bitmap_weight-clear_bit, bitmap_weight-replicate,
}
use linux_hardware_devices_e.Sysfs.Dev.{HweDev}
use linux_hardware_devices_e.Sysfs.Dev.Entries.{Inv}
use linux_hardware_devices_e.Sysfs.Registry.{
  HweIface, State, find_device_by_index, unlink, update_dev, blank_dev, add_dev, del_dev,
}

-- Every device has the invariant of its pairs, belongs to the interface, owns a bit, which is set,
-- and has an index of its own.
abbrev pub Devices : Iface → Bitmap → List HweDev → Type 0
Devices iface bits [] = Unit
Devices iface bits (d ∷ list) =
    (test_bit bits d.index ≡ true)
    × (d.iface ≡ iface)
    × Inv d
    × All (λ q. q.index ≢ d.index) list
    × Devices iface bits list

pub record IsRegistry (iface : Iface) (ifc : HweIface) : Type 0 where
  pub size : length ifc.dev_indexes ≡ hwe_max_devices
  pub devices : Devices iface ifc.dev_indexes ifc.dev_list
  pub counted : bitmap_weight ifc.dev_indexes ≡ length ifc.dev_list

abbrev pub Registries : {D : Type 0} → State D → Type 0
Registries st = (i : Iface) → IsRegistry i (st.ifaces i)

pub blank_dev-Inv : (iface : Iface) (i : ℕ) → Inv (blank_dev iface i)
blank_dev-Inv iface i = record {
  size = length-replicate hwe_max_pairs false;
  entries = tt;
  counted = bitmap_weight-replicate hwe_max_pairs;
}

Devices-set_bit :
    (iface : Iface) (bits : Bitmap) (i : ℕ) (list : List HweDev)
    → Devices iface bits list
    → Devices iface (set_bit i bits) list
Devices-set_bit iface bits i [] h = tt
Devices-set_bit iface bits i (d ∷ list) h =
    (test_bit-set_bit bits i d.index h.0, h.1, h.2, h.3, Devices-set_bit iface bits i list h.4)

Devices-fresh :
    (iface : Iface) (bits : Bitmap) (i : ℕ) (list : List HweDev)
    → Devices iface bits list
    → test_bit bits i ≡ false
    → All (λ q. q.index ≢ i) list
Devices-fresh iface bits i [] h t = tt
Devices-fresh iface bits i (d ∷ list) h t =
    ((λ e. cc (ap (test_bit bits) e, h.0)), Devices-fresh iface bits i list h.4 t)

pub add_dev-IsRegistry :
    (dev : HweDev) (iface : Iface) (ifc : HweIface)
    → IsRegistry iface ifc
    → dev.iface ≡ iface
    → Inv dev
    → dev.index < hwe_max_devices
    → test_bit ifc.dev_indexes dev.index ≡ false
    → IsRegistry iface (add_dev dev ifc)
unfolding add_dev
add_dev-IsRegistry dev iface ifc v own inv lt free =
    let bits = ifc.dev_indexes in
    let lt' : dev.index < length bits = omega (arith, v.size) in
    record {
      size = length-set bits dev.index true ∙ v.size;
      devices = (
        get_or-set_self bits dev.index true false lt',
        own,
        inv,
        Devices-fresh iface bits dev.index ifc.dev_list v.devices free,
        Devices-set_bit iface bits dev.index ifc.dev_list v.devices,
      );
      counted = omega (arith, bitmap_weight-set_bit bits dev.index lt' free, v.counted);
    }

unlink-All :
    (i j : ℕ) (list : List HweDev)
    → All (λ q. q.index ≢ j) list
    → All (λ q. q.index ≢ j) (unlink i list)
unfolding unlink
unlink-All i j [] h = tt
unlink-All i j (d ∷ list) h = ground (arith, unlink-All i j list h.1)

Devices-clear_bit_ne :
    (iface : Iface) (bits : Bitmap) (i : ℕ) (list : List HweDev)
    → All (λ q. q.index ≢ i) list
    → Devices iface bits list
    → Devices iface (clear_bit i bits) list
Devices-clear_bit_ne iface bits i [] a h = tt
Devices-clear_bit_ne iface bits i (d ∷ list) a h = (
  get_or-set_ne bits i d.index false false (λ e. a.0 (sym e)) ∙ h.0,
  h.1,
  h.2,
  h.3,
  Devices-clear_bit_ne iface bits i list a.1 h.4,
)

Devices-unlink :
    (iface : Iface) (bits : Bitmap) (i : ℕ) (list : List HweDev)
    → Devices iface bits list
    → Devices iface (clear_bit i bits) (unlink i list)
unfolding unlink
Devices-unlink iface bits i [] h = tt
Devices-unlink iface bits i (d ∷ list) h = elim (Bool-cases (d.index == i)) [
  | inl same ↦
      let e : d.index ≡ i = ground arith in
      rw same (rw e at (Devices-clear_bit_ne iface bits d.index list h.3 h.4))
  | inr other ↦ rw other (
    get_or-set_ne bits i d.index false false (λ e. ground arith) ∙ h.0,
    h.1,
    h.2,
    unlink-All i d.index list h.3,
    Devices-unlink iface bits i list h.4,
  )
]

length-unlink :
    (i : ℕ) (list : List HweDev) (d : HweDev)
    → find_device_by_index list i ≡ some d
    → length (unlink i list) + 1 ≡ length list
unfolding find_device_by_index unlink
length-unlink i [] d e = cc
length-unlink i (x ∷ list) d e = ground (arith, length-unlink i list d)

pub found_device :
    (iface : Iface) (bits : Bitmap) (i : ℕ) (list : List HweDev) (d : HweDev)
    → Devices iface bits list
    → find_device_by_index list i ≡ some d
    → (test_bit bits i ≡ true) × (d.index ≡ i) × (d.iface ≡ iface) × Inv d
unfolding find_device_by_index
found_device iface bits i [] d h e = cc
found_device iface bits i (x ∷ list) d h e = elim (Bool-cases (x.index == i)) [
  | inl same ↦
      let at : x.index ≡ i = ground arith in
      let it : x ≡ d = ground arith in
      subst (λ y. (test_bit bits i ≡ true) × (y.index ≡ i) × (y.iface ≡ iface) × Inv y) it
        (ap (test_bit bits) (sym at) ∙ h.0, at, h.1, h.2)
  | inr other ↦ found_device iface bits i list d h.4 (ground arith)
]

pub del_dev-IsRegistry :
    (dev d : HweDev) (iface : Iface) (ifc : HweIface)
    → IsRegistry iface ifc
    → find_device_by_index ifc.dev_list dev.index ≡ some d
    → IsRegistry iface (del_dev dev ifc)
unfolding del_dev
del_dev-IsRegistry dev d iface ifc v found =
    let bits = ifc.dev_indexes in
    let i = dev.index in
    record {
      size = length-set bits i false ∙ v.size;
      devices = Devices-unlink iface bits i ifc.dev_list v.devices;
      counted = omega (
        arith,
        v.counted,
        length-unlink i ifc.dev_list d found,
        bitmap_weight-clear_bit bits i (found_device iface bits i ifc.dev_list d v.devices found).0,
      );
    }

update_dev-All :
    (dev : HweDev) (j : ℕ) (list : List HweDev)
    → dev.index ≢ j
    → All (λ q. q.index ≢ j) list
    → All (λ q. q.index ≢ j) (update_dev dev list)
unfolding update_dev
update_dev-All dev j [] ne h = tt
update_dev-All dev j (d ∷ list) ne h = ground (arith, update_dev-All dev j list ne h.1)

Devices-update_dev :
    (iface : Iface) (bits : Bitmap) (dev : HweDev) (list : List HweDev)
    → Devices iface bits list
    → dev.iface ≡ iface
    → Inv dev
    → Devices iface bits (update_dev dev list)
unfolding update_dev
Devices-update_dev iface bits dev [] h own inv = tt
Devices-update_dev iface bits dev (d ∷ list) h own inv = elim (Bool-cases (d.index == dev.index)) [
  | inl same ↦
      let e : d.index ≡ dev.index = ground arith in
      rw same (
        ap (test_bit bits) (sym e) ∙ h.0,
        own,
        inv,
        subst (λ j. All (λ q. q.index ≢ j) list) e h.3,
        h.4,
      )
  | inr other ↦ rw other (
    h.0,
    h.1,
    h.2,
    update_dev-All dev d.index list (λ e. ground arith) h.3,
    Devices-update_dev iface bits dev list h.4 own inv,
  )
]

length-update_dev : (dev : HweDev) (list : List HweDev) → length (update_dev dev list) ≡ length list
unfolding update_dev
length-update_dev dev [] = refl
length-update_dev dev (d ∷ list) = ground (arith, length-update_dev dev list)

pub update_dev-IsRegistry :
    (dev : HweDev) (iface : Iface) (ifc : HweIface)
    → IsRegistry iface ifc
    → dev.iface ≡ iface
    → Inv dev
    → IsRegistry iface (record ifc { dev_list = update_dev dev ifc.dev_list })
update_dev-IsRegistry dev iface ifc v own inv = record {
  size = v.size;
  devices = Devices-update_dev iface ifc.dev_indexes dev ifc.dev_list v.devices own inv;
  counted = v.counted ∙ sym (length-update_dev dev ifc.dev_list);
}
