-- ===== src/Handles/Calls.antt =====
-- The calls of kernel/hwe_sysfs.c keep the links between the devices and their private data.
use linux_hardware_devices_e.Prelude.{
  ℕ, ◌≡◌, refl, ap, sym, subst, ◌∙◌, Bool-cases, Option-cases, inl, inr, List, [], ◌∷◌, ℤ, Option,
  none, some, Bytes, arith, ◌==◌, if◌then◌else◌,
}
use linux_hardware_devices_e.Consts.{Iface, e2big, eexist, Errno, Ret, ok, err, fault}
use linux_hardware_devices_e.Utils.Kernel.{KernelLib}
use linux_hardware_devices_e.Utils.Pair.{HwePair, str_to_pair}
use linux_hardware_devices_e.Sysfs.Dev.{HweDev, AddEnv}
use linux_hardware_devices_e.Sysfs.Dev.Same.{
  SameDev, unchanged-SameDev, pair_delete-SameDev, clear_pairs-SameDev, store_parsed-SameDev,
}
use linux_hardware_devices_e.Sysfs.Registry.{
  HweIface, DevOps, State, find_device_by_index, set_iface,
}
use linux_hardware_devices_e.Sysfs.Registry.Lists.{Registries, found_device}
use linux_hardware_devices_e.Sysfs.Registry.Invariant.{set_iface_self}
use linux_hardware_devices_e.Sysfs.Calls.{
  lock_iface_devs, unlock_iface_devs, c_string, pair_at, delete_at, add_to, device_at, put_dev,
  on_device, hwe_get_pair_count, hwe_delete_pair, hwe_clear_pairs, hwe_get_pair,
  release_unless_fault, add_pair_on, hwe_add_pair, hwe_add_device, shutdown_found,
  hwe_delete_device, Call, add_device, delete_device, pair_count, get_pair, add_pair, delete_pair,
  clear, without_text, run,
}
use linux_hardware_devices_e.Sysfs.Calls.Invariant.{lock-Registries}
use linux_hardware_devices_e.Handles.{Owner, Contract, handle_at, LinkedIn, Linked, device_of}
use linux_hardware_devices_e.Handles.Links.{LinkedIn-same, handle_at-update_dev}
use linux_hardware_devices_e.Handles.Shutdown.{Linked-by, set_iface_ne, shutdown_dev-Linked}
use linux_hardware_devices_e.Handles.Create.{new_dev-Linked}

pub find_device_by_index_sound :
    (list : List HweDev) (i : ℕ) (dev : HweDev)
    → find_device_by_index list i ≡ some dev
    → dev.index ≡ i
unfolding find_device_by_index
find_device_by_index_sound [] i dev e = cc
find_device_by_index_sound (d ∷ list) i dev e = elim (Bool-cases (d.index == i)) [
  | inl t ↦
      let it : d ≡ dev = ground arith in
      let at : d.index ≡ i = ground arith in ap (λ (x : HweDev). x.index) (sym it) ∙ at
  | inr f ↦ find_device_by_index_sound list i dev (ground arith)
]

module _ {D : Type 0} (owner : Owner D) (Valid : D → Type 0) where
  pub set_iface-Linked :
      (st : State D) (iface : Iface) (ifc : HweIface)
      → ((i : ℕ) → handle_at ifc.dev_list i ≡ handle_at (st.ifaces iface).dev_list i)
      → Linked owner Valid st
      → Linked owner Valid (set_iface st iface ifc)
  set_iface-Linked st iface ifc same l =
      Linked-by owner Valid st (set_iface st iface ifc) iface l l.valid
        (subst (λ (x : HweIface). LinkedIn (owner st.drivers iface) x.dev_list)
          (sym (set_iface_self st iface ifc))
          (LinkedIn-same (owner st.drivers iface) (owner st.drivers iface)
            (st.ifaces iface).dev_list ifc.dev_list (λ k. refl) same (l.links iface)))
        (λ j k e. refl) (λ j e. ap (λ (x : HweIface). x.dev_list) (set_iface_ne st iface j ifc e))

  pub lock-Linked :
      (st : State D) (iface : Iface)
      → Linked owner Valid st
      → Linked owner Valid (lock_iface_devs st iface)
  unfolding lock_iface_devs
  lock-Linked st iface l = set_iface-Linked st iface _ (λ i. refl) l

  pub unlock-Linked :
      (st : State D) (iface : Iface)
      → Linked owner Valid st
      → Linked owner Valid (unlock_iface_devs st iface)
  unfolding unlock_iface_devs
  unlock-Linked st iface l = set_iface-Linked st iface _ (λ i. refl) l

  pub release-Linked :
      (st : State D) (iface : Iface) (ret : Ret)
      → Linked owner Valid st
      → Linked owner Valid (release_unless_fault st iface ret).0
  unfolding release_unless_fault
  release-Linked st iface (ok n) l = unlock-Linked st iface l
  release-Linked st iface (err e) l = unlock-Linked st iface l
  release-Linked st iface fault l = l

  pub put_dev-Linked :
      (st : State D) (iface : Iface) (i : ℕ) (dev dev' : HweDev)
      → device_at st iface i ≡ some dev
      → SameDev dev dev'
      → Linked owner Valid st
      → Linked owner Valid (put_dev st iface dev')
  unfolding put_dev device_at
  put_dev-Linked st iface i dev dev' found same l =
      let list = (st.ifaces iface).dev_list in
      let at : dev'.index ≡ i = same.index ∙ find_device_by_index_sound list i dev found in
      let here : handle_at list dev'.index ≡ some dev.device =
        ap (handle_at list) at ∙ ap device_of found in
      set_iface-Linked st iface _
        (λ k.
          handle_at-update_dev dev' dev.device list k here ∙ elim (Bool-cases (dev'.index == k)) [
            | inl t ↦
                let e : dev'.index ≡ k = ground arith in
                ap (λ b. if b then some dev'.device else handle_at list k) t
                ∙ ap some same.device
                ∙ sym here
                ∙ ap (handle_at list) e
            | inr f ↦ ap (λ b. if b then some dev'.device else handle_at list k) f
          ])
        l

  on_device-Linked :
      (st : State D) (iface : Iface) (i : ℕ) (found : Option HweDev) (f : HweDev → HweDev × Ret)
      → device_at st iface i ≡ found
      → ((dev : HweDev) → SameDev dev (f dev).0)
      → Linked owner Valid st
      → Linked owner Valid (on_device st iface found f).0
  unfolding on_device
  on_device-Linked st iface i none f e same l = l
  on_device-Linked st iface i (some dev) f e same l =
      put_dev-Linked st iface i dev (f dev).0 e (same dev) l

delete_at-SameDev : (i : ℤ) (dev : HweDev) → SameDev dev (delete_at i dev).0
unfolding delete_at
delete_at-SameDev i dev = elim (Option-cases (pair_at dev.pair_list i)) [
  | inl e ↦ rw (delete_at, e) (unchanged-SameDev dev)
  | inr (p, e) ↦ rw (delete_at, e) (pair_delete-SameDev dev p)
]

module _ (lib : KernelLib) (env : AddEnv) where
  add_to-SameDev :
      (s : Bytes) (dev : HweDev) (memory : Option HwePair)
      → SameDev dev (add_to lib env s dev memory).0
  unfolding add_to
  add_to-SameDev s dev none = unchanged-SameDev dev
  add_to-SameDev s dev (some q) =
      store_parsed-SameDev e2big eexist ok env dev (str_to_pair lib (c_string s) q)

  add_pair_on-Linked :
      {D : Type 0} (owner : Owner D) (Valid : D → Type 0) (st : State D) (iface : Iface) (i : ℕ)
      (s : Bytes) (found : Option HweDev)
      → device_at st iface i ≡ found
      → Linked owner Valid st
      → Linked owner Valid (add_pair_on lib env st iface s found).0
  unfolding add_pair_on
  add_pair_on-Linked owner Valid st iface i s none e l = release-Linked owner Valid st iface _ l
  add_pair_on-Linked owner Valid st iface i s (some dev) e l =
      unlock-Linked owner Valid _ iface
        (put_dev-Linked owner Valid st iface i dev _ e (add_to-SameDev s dev env.kmalloc) l)

  pub hwe_add_pair-Linked :
      {D : Type 0} (owner : Owner D) (Valid : D → Type 0) (st : State D) (iface : Iface) (i : ℕ)
      (s : Bytes)
      → Linked owner Valid st
      → Linked owner Valid (hwe_add_pair lib env st iface i s).0
  unfolding hwe_add_pair
  hwe_add_pair-Linked owner Valid st iface i s l =
      add_pair_on-Linked owner Valid _ iface i s _ refl (lock-Linked owner Valid st iface l)

module _ (lib : KernelLib) {D : Type 0} (ops : DevOps D) (owner : Owner D) (Valid : D → Type 0)
    (laws : Contract ops owner Valid) where
  pub shutdown_found-Linked :
      (st : State D) (iface : Iface) (i : ℕ) (found : Option HweDev) (e : Errno) (n : ℕ)
      → device_at st iface i ≡ found
      → Registries st
      → Linked owner Valid st
      → Linked owner Valid (shutdown_found ops st found e n).0
  unfolding shutdown_found device_at
  shutdown_found-Linked st iface i none e n at v l = l
  shutdown_found-Linked st iface i (some dev) e n at v l =
      let (bit, index, own, inv) =
        found_device iface (st.ifaces iface).dev_indexes i (st.ifaces iface).dev_list dev
          (v iface).devices at in
      shutdown_dev-Linked ops owner Valid laws st dev v l (
        ap (λ f. find_device_by_index (st.ifaces f).dev_list dev.index) own
        ∙ ap (find_device_by_index (st.ifaces iface).dev_list) index
        ∙ at)

  -- At a state with the invariant of the interfaces in which every listed device has live private
  -- data of its driver and all live private data belong to a listed device, whatever the kernel
  -- answers, a call leaves it so: nothing is freed while it is in use, and nothing is lost.
  pub run-Linked :
      (c : Call) (st : State D) (iface : Iface)
      → Registries st
      → Linked owner Valid st
      → Linked owner Valid (run lib ops c st iface).0
  unfolding run without_text hwe_add_device hwe_delete_device hwe_get_pair_count hwe_get_pair
      hwe_add_pair hwe_delete_pair hwe_clear_pairs
  run-Linked (add_device env) st iface v l = unlock-Linked owner Valid _ iface (
      new_dev-Linked ops owner Valid laws env _ iface (lock-Registries st iface v)
        (lock-Linked owner Valid st iface l))
  run-Linked (delete_device i) st iface v l = unlock-Linked owner Valid _ iface (
      shutdown_found-Linked _ iface i _ _ 0 refl (lock-Registries st iface v)
        (lock-Linked owner Valid st iface l))
  run-Linked (pair_count i) st iface v l = unlock-Linked owner Valid _ iface (
      on_device-Linked owner Valid _ iface i _ _ refl (λ dev. unchanged-SameDev dev)
        (lock-Linked owner Valid st iface l))
  run-Linked (get_pair i pair_index idx) st iface v l =
      unlock-Linked owner Valid _ iface (lock-Linked owner Valid st iface l)
  run-Linked (add_pair env i s) st iface v l =
      hwe_add_pair-Linked lib env owner Valid st iface i s l
  run-Linked (delete_pair i pair_index) st iface v l = unlock-Linked owner Valid _ iface (
      on_device-Linked owner Valid _ iface i _ _ refl (delete_at-SameDev pair_index)
        (lock-Linked owner Valid st iface l))
  run-Linked (clear i) st iface v l = unlock-Linked owner Valid _ iface (
      on_device-Linked owner Valid _ iface i _ _ refl clear_pairs-SameDev
        (lock-Linked owner Valid st iface l))
