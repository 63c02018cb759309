-- ===== src/Emulator/Steps/Files.antt =====
-- Writes to the files of interfaces and devices keep the whole consistent.
use linux_hardware_devices_e.Prelude.{
  ℕ, ◌≡◌, ◌≢◌, refl, ap, sym, subst, ◌∙◌, Bool-cases, inl, inr, Bool, List, [], ◌∷◌, Option, none,
  some, Bytes, arith, All, ◌==◌, ==_refl, beq, length, if◌then◌else◌,
}
use linux_hardware_devices_e.Consts.{Iface, einval, Errno, Ret, err}
use linux_hardware_devices_e.Utils.Kernel.{KernelLib}
use linux_hardware_devices_e.Utils.Lookup.{str_to_iface}
use linux_hardware_devices_e.Sysfs.Bitmap.{Bitmap}
use linux_hardware_devices_e.Sysfs.Dev.{HweDev, DevAttr, AddEnv, dev_attr_store}
use linux_hardware_devices_e.Sysfs.Dev.Invariant.{dev_attr_store-Inv}
use linux_hardware_devices_e.Sysfs.Dev.Same.{dev_attr_store-SameDev}
use linux_hardware_devices_e.Sysfs.Registry.{
  DevEnv, kobject_name, find_device, find_device_by_index, new_dev,
}
use linux_hardware_devices_e.Sysfs.Registry.Lists.{Devices, found_device, update_dev-IsRegistry}
use linux_hardware_devices_e.Sysfs.Registry.Invariant.{
  set_iface-Registries, new_dev-Registries, shutdown_dev-Registries,
}
use linux_hardware_devices_e.Sysfs.Calls.{
  lock_iface_devs, unlock_iface_devs, device_at, put_dev, shutdown_found,
}
use linux_hardware_devices_e.Sysfs.Calls.Pairs.{device_at-lock_iface_devs}
use linux_hardware_devices_e.Sysfs.Files.{
  dev_name_size, copy_word, add_locked, uninstall_locked, iface_add_store, iface_uninstall_store,
}
use linux_hardware_devices_e.Handles.Shutdown.{shutdown_dev-Linked}
use linux_hardware_devices_e.Handles.Create.{new_dev-Linked}
use linux_hardware_devices_e.Handles.Calls.{put_dev-Linked}
use linux_hardware_devices_e.Drivers.{DriversEnv, dev_ops, owner, IsSound}
use linux_hardware_devices_e.Drivers.Laws.{dev_ops-Contract}
use linux_hardware_devices_e.Emulator.{Emulator}
use linux_hardware_devices_e.Emulator.Keeps.{IsConsistent, lock-IsConsistent, unlock-IsConsistent}

module _ (lib : KernelLib) (attr : DevAttr) (env : AddEnv) (st : Emulator) (iface : Iface) where
  -- A write to a file of a device, under the semaphore.
  unfoldable pub dev_store : HweDev → Bytes → Emulator
  dev_store dev buf =
      let st₁ = lock_iface_devs st iface in
      unlock_iface_devs (put_dev st₁ iface (dev_attr_store lib attr env dev buf).0) iface

  pub dev_store-IsConsistent :
      (i : ℕ) (dev : HweDev) (buf : Bytes)
      → device_at st iface i ≡ some dev
      → IsConsistent st
      → IsConsistent (dev_store dev buf)
  unfolding dev_store put_dev device_at
  dev_store-IsConsistent i dev buf at c =
      let st₁ = lock_iface_devs st iface in
      let c₁ = lock-IsConsistent st iface c in
      let at₁ : device_at st₁ iface i ≡ some dev = device_at-lock_iface_devs st iface i ∙ at in
      let dev' = (dev_attr_store lib attr env dev buf).0 in
      let (bit, index, own, inv) =
        found_device iface (st₁.ifaces iface).dev_indexes i (st₁.ifaces iface).dev_list dev
          (c₁.registries iface).devices at₁ in
      unlock-IsConsistent (put_dev st₁ iface dev') iface (record {
        registries = set_iface-Registries st₁ iface _ c₁.registries (
            update_dev-IsRegistry dev' iface (st₁.ifaces iface) (c₁.registries iface)
              ((dev_attr_store-SameDev lib env dev buf attr).iface ∙ own)
              (dev_attr_store-Inv lib env dev buf inv attr));
        linked =
            put_dev-Linked owner IsSound st₁ iface i dev dev' at₁
              (dev_attr_store-SameDev lib env dev buf attr) c₁.linked;
      })

-- A device that is found by its name is the one that is found by its index.
find_device-find_device_by_index :
    (iface : Iface) (bits : Bitmap) (list : List HweDev) (name : Bytes) (d : HweDev)
    → Devices iface bits list
    → find_device list name ≡ some d
    → (find_device_by_index list d.index ≡ some d) × (d.iface ≡ iface)
unfolding find_device find_device_by_index
find_device-find_device_by_index iface bits [] name d v e = absurd cc
find_device-find_device_by_index iface bits (x ∷ list) name d v e =
    elim (Bool-cases (beq (kobject_name x) name)) [
      | inl t ↦
          let found : some x ≡ some d =
            sym (ap (λ b. if b then some x else find_device list name) t) ∙ e in
          let it : x ≡ d = cc in
          subst
            (λ y.
              ((if x.index == y.index then some x else find_device_by_index list y.index) ≡ some y)
              × (y.iface ≡ iface))
            it
            (
              ap (λ b. if b then some x else find_device_by_index list x.index) (==_refl x.index),
              v.1,
            )
      | inr f ↦
          let rest =
            find_device-find_device_by_index iface bits list name d v.4
              (sym (ap (λ b. if b then some x else find_device list name) f) ∙ e) in
          (
            elim (Bool-cases (x.index == d.index)) [
              | inl s ↦
                  let same : x.index ≡ d.index = ground arith in
                  let gone = not_listed list x.index v.3 in
                  let bad : none ≡ some d =
                    sym gone ∙ ap (find_device_by_index list) same ∙ rest.0 in
                  absurd cc
              | inr s ↦ ap (λ b. if b then some x else find_device_by_index list d.index) s ∙ rest.0
            ],
            rest.1,
          )
    ]
  where
    not_listed :
        (l : List HweDev) (j : ℕ) → All (λ q. q.index ≢ j) l → find_device_by_index l j ≡ none
    not_listed [] j h = refl
    not_listed (q ∷ l) j h = ground (arith, not_listed l j h.1, h.0)

module _ (lib : KernelLib) (env : DriversEnv) where
  new_dev-IsConsistent :
      (dev_env : DevEnv) (st : Emulator) (iface : Iface)
      → IsConsistent st
      → IsConsistent (new_dev (dev_ops env) dev_env st iface).0
  new_dev-IsConsistent dev_env st iface c = record {
    registries = new_dev-Registries (dev_ops env) dev_env st iface c.registries;
    linked =
        new_dev-Linked (dev_ops env) owner IsSound (dev_ops-Contract env) dev_env st iface
          c.registries c.linked;
  }

  add_locked-IsConsistent :
      (dev_env : DevEnv) (st : Emulator) (buf : Bytes) (o : Option Iface)
      → IsConsistent st
      → IsConsistent (add_locked lib (dev_ops env) dev_env st buf o).0
  unfolding add_locked
  add_locked-IsConsistent dev_env st buf none c = c
  add_locked-IsConsistent dev_env st buf (some iface) c =
      unlock-IsConsistent _ iface
        (new_dev-IsConsistent dev_env _ iface (lock-IsConsistent st iface c))

  pub iface_add_store-IsConsistent :
      (dev_env : DevEnv) (st : Emulator) (name buf : Bytes)
      → IsConsistent st
      → IsConsistent (iface_add_store lib (dev_ops env) dev_env st name buf).0
  unfolding iface_add_store
  iface_add_store-IsConsistent dev_env st name buf c = elim (Bool-cases (length buf == 0)) [
    | inl e ↦ rw e c
    | inr e ↦ rw e (add_locked-IsConsistent dev_env st buf (str_to_iface name) c)
  ]

  shutdown_named-IsConsistent :
      (st : Emulator) (iface : Iface) (name : Bytes) (found : Option HweDev) (e : Errno) (n : ℕ)
      → find_device (st.ifaces iface).dev_list name ≡ found
      → IsConsistent st
      → IsConsistent (shutdown_found (dev_ops env) st found e n).0
  unfolding shutdown_found
  shutdown_named-IsConsistent st iface name none e n at c = c
  shutdown_named-IsConsistent st iface name (some d) e n at c =
      let (found, own) =
        find_device-find_device_by_index iface (st.ifaces iface).dev_indexes
          (st.ifaces iface).dev_list name d (c.registries iface).devices at in
      let listed : find_device_by_index (st.ifaces d.iface).dev_list d.index ≡ some d =
        ap (λ i. find_device_by_index (st.ifaces i).dev_list d.index) own ∙ found in
      record {
        registries = shutdown_dev-Registries (dev_ops env) st d d c.registries listed;
        linked =
            shutdown_dev-Linked (dev_ops env) owner IsSound (dev_ops-Contract env) st d c.registries
              c.linked listed;
      }

  uninstall_locked-IsConsistent :
      (st : Emulator) (buf : Bytes) (o : Option Iface)
      → IsConsistent st
      → IsConsistent (uninstall_locked lib (dev_ops env) st buf o).0
  unfolding uninstall_locked
  uninstall_locked-IsConsistent st buf none c = c
  uninstall_locked-IsConsistent st buf (some iface) c =
      let name = copy_word lib buf dev_name_size in
      let st₁ = lock_iface_devs st iface in
      let found = find_device (st₁.ifaces iface).dev_list name in
      let outcome = shutdown_found (dev_ops env) st₁ found einval (length buf) in
      let result : Bool → Emulator × Ret =
        λ b. if b then (st, err einval) else (unlock_iface_devs outcome.0 iface, outcome.1) in
      elim (Bool-cases (length name == 0)) [
        | inl e ↦ subst (λ b. IsConsistent (result b).0) (sym e) c
        | inr e ↦
            subst (λ b. IsConsistent (result b).0) (sym e)
              (unlock-IsConsistent outcome.0 iface (
                shutdown_named-IsConsistent st₁ iface name found einval (length buf) refl
                  (lock-IsConsistent st iface c)))
      ]

  pub iface_uninstall_store-IsConsistent :
      (st : Emulator) (name buf : Bytes)
      → IsConsistent st
      → IsConsistent (iface_uninstall_store lib (dev_ops env) st name buf).0
  unfolding iface_uninstall_store
  iface_uninstall_store-IsConsistent st name buf c = elim (Bool-cases (length buf == 0)) [
    | inl e ↦ rw e c
    | inr e ↦ rw e (uninstall_locked-IsConsistent st buf (str_to_iface name) c)
  ]
