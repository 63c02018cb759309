-- ===== src/Sysfs/Calls/Invariant.antt =====
-- The calls of kernel/hwe_sysfs.c keep the invariant of the interfaces.
use linux_hardware_devices_e.Prelude.{
  ℕ, ◌≡◌, refl, ap, ◌∙◌, Option-cases, inl, inr, List, ℤ, pos, negsuc, Option, none, some, Bytes,
}
use linux_hardware_devices_e.Consts.{Iface, e2big, eexist, Errno, Ret, ok, err, fault}
use linux_hardware_devices_e.Utils.Kernel.{KernelLib}
use linux_hardware_devices_e.Utils.Pair.{HwePair, str_to_pair}
use linux_hardware_devices_e.Utils.Lookup.{get_pair_at_index}
use linux_hardware_devices_e.Utils.Lookup.Find.{get_pair_at_index_sound}
use linux_hardware_devices_e.Sysfs.Dev.{HweDev, AddEnv, pair_delete, clear_pairs}
use linux_hardware_devices_e.Sysfs.Dev.Entries.{store_parsed-Inv}
use linux_hardware_devices_e.Sysfs.Dev.Invariant.{
  pair_delete-Inv, clear_pairs-Inv, clear_pairs_same,
}
use linux_hardware_devices_e.Sysfs.Dev.Entries.{Inv}
use linux_hardware_devices_e.Sysfs.Dev.Replies.{store_parsed_same}
use linux_hardware_devices_e.Sysfs.Registry.{DevOps, State, find_device_by_index, set_iface}
use linux_hardware_devices_e.Sysfs.Registry.Lists.{Registries, found_device, update_dev-IsRegistry}
use linux_hardware_devices_e.Sysfs.Registry.Invariant.{
  set_iface-Registries, shutdown_dev-Registries, new_dev-Registries,
}
use linux_hardware_devices_e.Sysfs.Calls.{
  lock_iface_devs, unlock_iface_devs, put_dev, device_at, on_device, release_unless_fault,
  add_pair_on, add_to, delete_at, pair_at, c_string, shutdown_found, hwe_add_pair, hwe_delete_pair,
  hwe_clear_pairs, hwe_get_pair_count, hwe_get_pair, hwe_add_device, hwe_delete_device, Call,
  add_device, delete_device, pair_count, get_pair, add_pair, delete_pair, clear, run, without_text,
}

-- What an operation may do to a device that is listed.
record Keeps (iface : Iface) (dev : HweDev) : Type 0 where
  own : dev.iface ≡ iface
  inv : Inv dev

module _ {D : Type 0} where
  sem-Registries :
      (st : State D) (iface : Iface) (n : ℕ)
      → Registries st
      → Registries (set_iface st iface (record (st.ifaces iface) { sem = n }))
  sem-Registries st iface n v =
      let r = v iface in
      set_iface-Registries st iface _ v
        (record { size = r.size; devices = r.devices; counted = r.counted })

  pub lock-Registries :
      (st : State D) (iface : Iface) → Registries st → Registries (lock_iface_devs st iface)
  unfolding lock_iface_devs
  lock-Registries st iface v = sem-Registries st iface _ v

  pub unlock-Registries :
      (st : State D) (iface : Iface) → Registries st → Registries (unlock_iface_devs st iface)
  unfolding unlock_iface_devs
  unlock-Registries st iface v = sem-Registries st iface _ v

  put_dev-Registries :
      (st : State D) (iface : Iface) (dev : HweDev)
      → Registries st
      → Keeps iface dev
      → Registries (put_dev st iface dev)
  unfolding put_dev
  put_dev-Registries st iface dev v k =
      set_iface-Registries st iface _ v
        (update_dev-IsRegistry dev iface (st.ifaces iface) (v iface) k.own k.inv)

  found-Keeps :
      (st : State D) (iface : Iface) (i : ℕ) (dev : HweDev)
      → Registries st
      → device_at st iface i ≡ some dev
      → Keeps iface dev
  unfolding device_at
  found-Keeps st iface i dev v e =
      let (bit, at, own, inv) =
        found_device iface (st.ifaces iface).dev_indexes i (st.ifaces iface).dev_list dev
          (v iface).devices e in
      record { own = own; inv = inv }

  on_device-Registries :
      (st : State D) (iface : Iface) (i : ℕ) (found : Option HweDev) (f : HweDev → HweDev × Ret)
      → Registries st
      → device_at st iface i ≡ found
      → ((dev : HweDev) → Keeps iface dev → Keeps iface (f dev).0)
      → Registries (on_device st iface found f).0
  unfolding on_device
  on_device-Registries st iface i none f v e keeps = v
  on_device-Registries st iface i (some dev) f v e keeps =
      put_dev-Registries st iface (f dev).0 v (keeps dev (found-Keeps st iface i dev v e))

pair_at_index :
    (list : List HwePair) (i : ℤ) (p : HwePair)
    → pair_at list i ≡ some p
    → get_pair_at_index list p.index ≡ some p
unfolding pair_at
pair_at_index list (pos i) p e =
    ap (get_pair_at_index list) (get_pair_at_index_sound list i p e) ∙ e
pair_at_index list (negsuc i) p e = cc

delete_at-Keeps :
    (iface : Iface) (i : ℤ) (dev : HweDev) → Keeps iface dev → Keeps iface (delete_at i dev).0
unfolding delete_at pair_delete
delete_at-Keeps iface i dev k = elim (Option-cases (pair_at dev.pair_list i)) [
  | inl e ↦ rw (delete_at, e) k
  | inr (p, e) ↦
      rw (delete_at, e)
        (record {
          own = k.own;
          inv = pair_delete-Inv dev p k.inv (pair_at_index dev.pair_list i p e);
        })
]

clear_pairs-Keeps : (iface : Iface) (dev : HweDev) → Keeps iface dev → Keeps iface (clear_pairs dev)
clear_pairs-Keeps iface dev k = record {
  own = (clear_pairs_same dev).1 ∙ k.own;
  inv = (clear_pairs-Inv dev k.inv).0;
}

module _ (lib : KernelLib) (env : AddEnv) where
  add_to-Keeps :
      (iface : Iface) (s : Bytes) (dev : HweDev) (memory : Option HwePair)
      → Keeps iface dev
      → Keeps iface (add_to lib env s dev memory).0
  unfolding add_to
  add_to-Keeps iface s dev none k = k
  add_to-Keeps iface s dev (some q) k = record {
    own = (store_parsed_same e2big eexist ok env dev (str_to_pair lib (c_string s) q)).0 ∙ k.own;
    inv = store_parsed-Inv lib (c_string s) q e2big eexist ok env dev _ refl k.inv;
  }

  release-Registries :
      {D : Type 0} (st : State D) (iface : Iface) (ret : Ret)
      → Registries st
      → Registries (release_unless_fault st iface ret).0
  unfolding release_unless_fault
  release-Registries st iface (ok n) v = unlock-Registries st iface v
  release-Registries st iface (err e) v = unlock-Registries st iface v
  release-Registries st iface fault v = v

  add_pair_on-Registries :
      {D : Type 0} (st : State D) (iface : Iface) (i : ℕ) (s : Bytes) (found : Option HweDev)
      → Registries st
      → device_at st iface i ≡ found
      → Registries (add_pair_on lib env st iface s found).0
  unfolding add_pair_on
  add_pair_on-Registries st iface i s none v e = release-Registries st iface _ v
  add_pair_on-Registries st iface i s (some dev) v e =
      unlock-Registries (put_dev st iface (add_to lib env s dev env.kmalloc).0) iface (
        put_dev-Registries st iface _ v
          (add_to-Keeps iface s dev env.kmalloc (found-Keeps st iface i dev v e)))

module _ (lib : KernelLib) {D : Type 0} (ops : DevOps D) where
  shutdown_found-Registries :
      (st : State D) (iface : Iface) (i : ℕ) (found : Option HweDev) (e : Errno) (n : ℕ)
      → Registries st
      → device_at st iface i ≡ found
      → Registries (shutdown_found ops st found e n).0
  unfolding shutdown_found device_at
  shutdown_found-Registries st iface i none e n v at = v
  shutdown_found-Registries st iface i (some dev) e n v at =
      let (bit, index, own, inv) =
        found_device iface (st.ifaces iface).dev_indexes i (st.ifaces iface).dev_list dev
          (v iface).devices at in
      let listed : find_device_by_index (st.ifaces dev.iface).dev_list dev.index ≡ some dev =
        ap (λ f. find_device_by_index (st.ifaces f).dev_list dev.index) own
        ∙ ap (find_device_by_index (st.ifaces iface).dev_list) index
        ∙ at in
      shutdown_dev-Registries ops st dev dev v listed

  -- At a state with the invariant, whatever the kernel and the drivers answer, and whatever stands in
  -- uninitialised memory, a call leaves on every interface devices at distinct indexes, which the bitmap of the interface marks,
  -- and in every device valid pairs at distinct indexes, which the bitmap of the device marks,
  -- with no request answered twice.
  pub run-Registries :
      (c : Call) (st : State D) (iface : Iface)
      → Registries st
      → Registries (run lib ops c st iface).0
  unfolding run without_text hwe_add_device hwe_delete_device hwe_get_pair_count hwe_get_pair
      hwe_add_pair hwe_delete_pair hwe_clear_pairs
  run-Registries (add_device env) st iface v =
      unlock-Registries _ iface (new_dev-Registries ops env _ iface (lock-Registries st iface v))
  run-Registries (delete_device i) st iface v =
      unlock-Registries _ iface
        (shutdown_found-Registries _ iface i _ _ 0 (lock-Registries st iface v) refl)
  run-Registries (pair_count i) st iface v =
      unlock-Registries _ iface
        (on_device-Registries _ iface i _ _ (lock-Registries st iface v) refl (λ dev k. k))
  run-Registries (get_pair i pair_index idx) st iface v =
      unlock-Registries _ iface (lock-Registries st iface v)
  run-Registries (add_pair env i s) st iface v =
      add_pair_on-Registries lib env _ iface i s _ (lock-Registries st iface v) refl
  run-Registries (delete_pair i pair_index) st iface v = unlock-Registries _ iface (
      on_device-Registries _ iface i _ _ (lock-Registries st iface v) refl
        (delete_at-Keeps iface pair_index))
  run-Registries (clear i) st iface v = unlock-Registries _ iface (
      on_device-Registries _ iface i _ _ (lock-Registries st iface v) refl
        (clear_pairs-Keeps iface))

  pub run_get_pair :
      (st : State D) (iface : Iface) (dev_index : ℕ) (i idx : ℤ)
      → (run lib ops (get_pair dev_index i idx) st iface).0
        ≡ (hwe_get_pair st iface dev_index i idx).0
  unfolding run without_text
  run_get_pair st iface dev_index i idx = refl
