-- ===== src/Sysfs/Calls/Pairs.antt =====
-- hwe_add_pair() and hwe_get_pair() of kernel/hwe_sysfs.c: what they add and read, and where they do
-- not do what their callers expect.
use linux_hardware_devices_e.Prelude.{
  ℕ, ◌≡◌, ◌≢◌, refl, ap, sym, ◌∙◌, Option, none, some, arith, Bytes,
}
use linux_hardware_devices_e.Consts.{Iface, e2big, eexist, einval, enodev, Ret, ok, err, fault}
use linux_hardware_devices_e.Utils.Kernel.{KernelLib}
use linux_hardware_devices_e.Utils.Pair.{HwePair, Parsed, str_to_pair}
use linux_hardware_devices_e.Sysfs.Bitmap.{find_first_zero_bit}
use linux_hardware_devices_e.Sysfs.Dev.{HweDev, AddEnv, store_parsed}
use linux_hardware_devices_e.Sysfs.Dev.Replies.{Added, store_parsed_cases, store_parsed_same}
use linux_hardware_devices_e.Sysfs.Registry.{HweIface, State, find_device_by_index}
use linux_hardware_devices_e.Sysfs.Registry.Lists.{Registries, found_device}
use linux_hardware_devices_e.Sysfs.Registry.Invariant.{set_iface_self, find-update_dev}
use linux_hardware_devices_e.Sysfs.Calls.{
  lock_iface_devs, unlock_iface_devs, put_dev, device_at, release_unless_fault, add_pair_on, add_to,
  no_device, c_string, hwe_add_pair,
}

module _ {D : Type 0} where
  pub device_at-lock_iface_devs :
      (st : State D) (iface : Iface) (i : ℕ)
      → device_at (lock_iface_devs st iface) iface i ≡ device_at st iface i
  unfolding device_at lock_iface_devs
  device_at-lock_iface_devs st iface i =
      ap (λ (x : HweIface). find_device_by_index x.dev_list i) (set_iface_self st iface _)

  device_at-unlock_iface_devs :
      (st : State D) (iface : Iface) (i : ℕ)
      → device_at (unlock_iface_devs st iface) iface i ≡ device_at st iface i
  unfolding device_at unlock_iface_devs
  device_at-unlock_iface_devs st iface i =
      ap (λ (x : HweIface). find_device_by_index x.dev_list i) (set_iface_self st iface _)

  device_at-put_dev :
      (st : State D) (iface : Iface) (dev d : HweDev)
      → device_at st iface dev.index ≡ some d
      → device_at (put_dev st iface dev) iface dev.index ≡ some dev
  unfolding device_at put_dev
  device_at-put_dev st iface dev d e =
      ap (λ (x : HweIface). find_device_by_index x.dev_list dev.index) (set_iface_self st iface _)
      ∙ find-update_dev dev d (st.ifaces iface).dev_list e

  found_index :
      (st : State D) (iface : Iface) (i : ℕ) (dev : HweDev)
      → Registries st
      → device_at st iface i ≡ some dev
      → dev.index ≡ i
  unfolding device_at
  found_index st iface i dev v e =
      (found_device iface (st.ifaces iface).dev_indexes i (st.ifaces iface).dev_list dev
        (v iface).devices e).1

module _ (lib : KernelLib) where
  no_device_parsed :
      (s : Bytes) (q p : HwePair)
      → str_to_pair lib (c_string s) q ≡ Parsed.ok p
      → no_device lib s (some q) ≡ fault
  unfolding no_device
  no_device_parsed s q p parsed =
      ap
        (λ (r : Parsed HwePair). elim r as (λ _. Ret) [
          | Parsed.err e ↦ err einval
          | Parsed.ok p ↦ fault
        ])
        parsed

  no_device-ne-enodev : (s : Bytes) (memory : Option HwePair) → no_device lib s memory ≢ err enodev
  unfolding no_device
  no_device-ne-enodev s memory e = ground arith

  release_result :
      {D : Type 0} (st : State D) (iface : Iface) (ret : Ret)
      → (release_unless_fault st iface ret).1 ≡ ret
  unfolding release_unless_fault
  release_result st iface (ok n) = refl
  release_result st iface (err e) = refl
  release_result st iface fault = refl

  add_to_lookup :
      (env : AddEnv) (s : Bytes) (dev : HweDev) (n : ℕ) (memory : Option HwePair)
      → (add_to lib env s dev memory).1 ≡ ok n
      → (q p : HwePair) × (str_to_pair lib (c_string s) q ≡ Parsed.ok p)
        × Added dev (add_to lib env s dev memory).0 p
        × (n ≡ find_first_zero_bit dev.pairs_indexes)
        × ((add_to lib env s dev memory).0.index ≡ dev.index)
  unfolding add_to
  add_to_lookup env s dev n none e = cc
  add_to_lookup env s dev n (some q) e =
      let r = str_to_pair lib (c_string s) q in
      let x = store_parsed e2big eexist ok env dev r in
      let (p, parsed, added, result) =
        store_parsed_cases e2big eexist ok env dev x.0 n r (ap (λ ret. (x.0, ret)) e) in
      (q, p, parsed, added, ground arith, (store_parsed_same e2big eexist ok env dev r).1)

module _ (lib : KernelLib) (env : AddEnv) {D : Type 0} (st : State D) (iface : Iface)
    (dev_index : ℕ) (pair_str : Bytes) where
  by_device :
      (found : Option HweDev)
      → device_at st iface dev_index ≡ found
      → hwe_add_pair lib env st iface dev_index pair_str
        ≡ add_pair_on lib env (lock_iface_devs st iface) iface pair_str found
  unfolding hwe_add_pair
  by_device found e =
      ap (add_pair_on lib env (lock_iface_devs st iface) iface pair_str)
        (device_at-lock_iface_devs st iface dev_index ∙ e)

  -- A pair for a device that is not there, with memory and a text that is a pair: a null pointer is
  -- dereferenced, while the interface's semaphore is taken, and it is never given back.
  pub hwe_add_pair_missing :
      (q p : HwePair)
      → device_at st iface dev_index ≡ none
      → env.kmalloc ≡ some q
      → str_to_pair lib (c_string pair_str) q ≡ Parsed.ok p
      → hwe_add_pair lib env st iface dev_index pair_str ≡ (lock_iface_devs st iface, fault)
  unfolding add_pair_on release_unless_fault
  hwe_add_pair_missing q p missing memory parsed =
      by_device none missing
      ∙ ap (release_unless_fault (lock_iface_devs st iface) iface)
          (ap (no_device lib pair_str) memory ∙ no_device_parsed lib pair_str q p parsed)

  -- A pair for a device that is there is no matter of the drivers.
  pub hwe_add_pair_drivers :
      (dev : HweDev)
      → device_at st iface dev_index ≡ some dev
      → (hwe_add_pair lib env st iface dev_index pair_str).0.drivers ≡ st.drivers
  unfolding add_pair_on unlock_iface_devs lock_iface_devs put_dev
  hwe_add_pair_drivers dev found =
      ap (λ (x : State D × Ret). x.0.drivers) (by_device (some dev) found)

  -- A pair for a device that is not there is never answered with -ENODEV.
  pub hwe_add_pair-ne-enodev :
      device_at st iface dev_index ≡ none
      → (hwe_add_pair lib env st iface dev_index pair_str).1 ≢ err enodev
  unfolding add_pair_on
  hwe_add_pair-ne-enodev missing e = no_device-ne-enodev lib pair_str env.kmalloc (
      sym (release_result lib (lock_iface_devs st iface) iface (no_device lib pair_str env.kmalloc))
      ∙ sym (ap (λ (x : State D × Ret). x.1) (by_device none missing))
      ∙ e)

  -- At a state with the invariant, a call that succeeds for a device that is there stores the pair that the text up to its NUL says,
  -- at the first free index, which is the result: the device has it behind its other pairs, its request,
  -- which had no answer, has one if it is synchronous, and no other answer changes.
  pub hwe_add_pair_lookup :
      (dev : HweDev) (n : ℕ)
      → Registries st
      → device_at st iface dev_index ≡ some dev
      → (hwe_add_pair lib env st iface dev_index pair_str).1 ≡ ok n
      → (dev' : HweDev) × (q p : HwePair) × (device_at
            (hwe_add_pair lib env st iface dev_index pair_str).0
            iface
            dev_index
          ≡ some dev')
        × (str_to_pair lib (c_string pair_str) q ≡ Parsed.ok p)
        × Added dev dev' p
        × (n ≡ find_first_zero_bit dev.pairs_indexes)
  unfolding add_pair_on
  hwe_add_pair_lookup dev n v found result =
      let same = by_device (some dev) found in
      let made = add_to lib env pair_str dev env.kmalloc in
      let locked = lock_iface_devs st iface in
      let (q, p, parsed, added, at, index) =
        add_to_lookup lib env pair_str dev n env.kmalloc
          (sym (ap (λ (x : State D × Ret). x.1) same) ∙ result) in
      let here : made.0.index ≡ dev_index = index ∙ found_index st iface dev_index dev v found in
      let was : device_at locked iface made.0.index ≡ some dev =
        ap (device_at locked iface) here ∙ device_at-lock_iface_devs st iface dev_index ∙ found in
      (
        made.0,
        q,
        p,
        ap (λ (x : State D × Ret). device_at x.0 iface dev_index) same
            ∙ device_at-unlock_iface_devs (put_dev locked iface made.0) iface dev_index
            ∙ ap (device_at (put_dev locked iface made.0) iface) (sym here)
            ∙ device_at-put_dev locked iface made.0 dev was,
        parsed,
        added,
        at,
      )
