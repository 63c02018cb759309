-- ===== src/Sysfs/Files/Names.antt =====
-- A device is found by the name of its object, which a write to `uninstall` gives, and `add` does what
-- hwe_add_device() does.
use linux_hardware_devices_e.Prelude.{
  ◌↔◌, ℕ, ◌<◌, ◌≡◌, ◌≢◌, refl, ap, sym, subst, ◌∙◌, false, ◌||◌, [], ◌++◌, Option, none, some,
  arith, Bytes, ◌==◌, length, length-append, if◌then◌else◌,
}
use linux_hardware_devices_e.Consts.{Iface, Ret, ok, err, einval, eio, enodev}
use linux_hardware_devices_e.Utils.Kernel.{KernelLib}
use linux_hardware_devices_e.Utils.Lookup.{iface_to_str, str_to_iface}
use linux_hardware_devices_e.Utils.Lookup.Find.{str_to_iface-iface_to_str}
use linux_hardware_devices_e.Sysfs.Bitmap.{test_bit-lt}
use linux_hardware_devices_e.Sysfs.Dev.{HweDev}
use linux_hardware_devices_e.Sysfs.Registry.{
  HweIface, DevOps, State, DevEnv, new_dev, kobject_name, find_device, shutdown_dev,
}
use linux_hardware_devices_e.Sysfs.Registry.Lists.{Registries, found_device}
use linux_hardware_devices_e.Sysfs.Registry.Invariant.{set_iface_self}
use linux_hardware_devices_e.Sysfs.Calls.{
  lock_iface_devs, unlock_iface_devs, device_at, shutdown_found, added_index, hwe_add_device,
}
use linux_hardware_devices_e.Sysfs.Files.{
  dev_name_size, copy_chars, copy_word, added_count, add_locked, uninstall_locked, iface_add_store,
  iface_uninstall_store,
}
use linux_hardware_devices_e.Sysfs.Files.Words.{
  find_device-kobject_name, Ends, copy_chars_plain, skip_spaces_plain, kobject_name-IsPlain,
  length-kobject_name,
}

copy_word-name :
    (lib : KernelLib) (d : HweDev) (rest : Bytes)
    → Ends lib rest
    → (0 < length (kobject_name d)) × (length (kobject_name d) < 15)
    → copy_word lib (kobject_name d ++ rest) dev_name_size ≡ kobject_name d
unfolding copy_word
copy_word-name lib d rest stop short =
    let name = kobject_name d in
    let plain = kobject_name-IsPlain lib d in
    let some_text : (length (name ++ rest) == 0) ≡ false =
      ground (arith, length-append name rest, short.0) in
    ap (λ s. if length s == 0 || false then [] else copy_chars lib 16 s)
      (skip_spaces_plain lib name rest plain short.0)
    ∙ ap (λ b. if b || false then [] else copy_chars lib 16 (name ++ rest)) some_text
    ∙ copy_chars_plain lib 16 name rest plain stop (omega (arith, short.1))

-- A device that is listed is found by its name while the semaphore is taken, and its name is short.
pub named :
    {D : Type 0} (st : State D) (iface : Iface) (i : ℕ) (d : HweDev)
    → Registries st
    → device_at st iface i ≡ some d
    → (find_device ((lock_iface_devs st iface).ifaces iface).dev_list (kobject_name d) ≡ some d)
      × ((0 < length (kobject_name d)) × (length (kobject_name d) < 15))
unfolding device_at lock_iface_devs
named st iface i d v e =
    let ifc = st.ifaces iface in
    let (bit, at, own, inv) =
      found_device iface ifc.dev_indexes i ifc.dev_list d (v iface).devices e in
    let lt : d.index < 256 = omega (arith, test_bit-lt ifc.dev_indexes i bit, (v iface).size, at) in
    (
      ap (λ (x : HweIface). find_device x.dev_list (kobject_name d)) (set_iface_self st iface _)
          ∙ find_device-kobject_name iface ifc.dev_indexes i ifc.dev_list d (v iface).devices e,
      length-kobject_name d lt,
    )

module _ (lib : KernelLib) {D : Type 0} (ops : DevOps D) where
  -- At a state with the invariant, a write to `uninstall` of an interface that begins with the name of
  -- one of its devices, alone or with a space behind it, shuts that device down, and no other, and
  -- takes the whole text; the semaphore is given back.
  pub iface_uninstall_store-kobject_name :
      (st : State D) (iface : Iface) (i : ℕ) (d : HweDev) (rest : Bytes)
      → Registries st
      → device_at st iface i ≡ some d
      → Ends lib rest
      → iface_uninstall_store lib ops st (iface_to_str iface) (kobject_name d ++ rest) ≡ (
        unlock_iface_devs (shutdown_dev ops (lock_iface_devs st iface) d) iface,
        ok (length (kobject_name d ++ rest)),
      )
  unfolding iface_uninstall_store uninstall_locked shutdown_found
  iface_uninstall_store-kobject_name st iface i d rest v e stop =
      let name = kobject_name d in
      let buf = name ++ rest in
      let locked = lock_iface_devs st iface in
      let (found, short) = named st iface i d v e in
      let some_text : (length buf == 0) ≡ false =
        ground (arith, length-append name rest, short.0) in
      let some_name : (length name == 0) ≡ false = ground (arith, short.0) in
      let word = copy_word-name lib d rest stop short in
      let gone : Option HweDev → State D × Ret =
        λ o. shutdown_found ops locked o einval (length buf) in
      let finish : State D × Ret → State D × Ret = λ x. (unlock_iface_devs x.0 iface, x.1) in
      ap
        (λ b.
          if b
          then (st, err einval)
          else uninstall_locked lib ops st buf (str_to_iface (iface_to_str iface)))
        some_text
      ∙ ap (uninstall_locked lib ops st buf) (str_to_iface-iface_to_str iface)
      ∙ ap
          (λ w.
            if length w == 0
            then (st, err einval)
            else finish (gone (find_device (locked.ifaces iface).dev_list w)))
          word
      ∙ ap
          (λ b.
            if b
            then (st, err einval)
            else finish (gone (find_device (locked.ifaces iface).dev_list name)))
          some_name
      ∙ ap (λ o. finish (gone o)) found

  result_iff :
      (found : Option HweDev) (n : ℕ)
      → (added_count lib ops found n ≡ ok n) ↔ (added_index ops found ≢ err enodev)
  unfolding added_count added_index
  result_iff none n = (λ e. absurd (cc), λ h. absurd (h refl))
  result_iff (some d) n = (λ e e'. cc, λ h. refl)

  -- A write of some text to `add` of an interface does to the state what hwe_add_device() does, and
  -- succeeds, with the length of the text, if and only if that does.
  pub iface_add_store-hwe_add_device :
      (env : DevEnv) (st : State D) (iface : Iface) (buf : Bytes)
      → 0 < length buf
      → ((iface_add_store lib ops env st (iface_to_str iface) buf).0
          ≡ (hwe_add_device ops env st iface).0)
        × (((iface_add_store lib ops env st (iface_to_str iface) buf).1 ≡ ok (length buf))
            ↔ ((hwe_add_device ops env st iface).1 ≢ err enodev))
  unfolding iface_add_store add_locked added_count hwe_add_device
  iface_add_store-hwe_add_device env st iface buf ne =
      let some_text : (length buf == 0) ≡ false = ground (arith, ne) in
      let same : iface_add_store lib ops env st (iface_to_str iface) buf
          ≡ add_locked lib ops env st buf (some iface) =
        ap
          (λ b.
            if b
            then (st, err eio)
            else add_locked lib ops env st buf (str_to_iface (iface_to_str iface)))
          some_text
        ∙ ap (add_locked lib ops env st buf) (str_to_iface-iface_to_str iface) in
      let dev = (new_dev ops env (lock_iface_devs st iface) iface).1 in
      (
        ap (λ x. x.0) same,
        subst (λ (r : Ret). (r ≡ ok (length buf)) ↔ (added_index ops dev ≢ err enodev))
            (sym (ap (λ x. x.1) same)) (result_iff dev (length buf)),
      )
