-- ===== src/Sysfs/Dev/Same.antt =====
-- What the files of a device never change of it: its place and its private data.
use linux_hardware_devices_e.Prelude.{
  ℕ, ◌≡◌, refl, Bool-cases, Option-cases, inl, inr, Option, none, some, Bytes, ◌==◌, length,
}
use linux_hardware_devices_e.Consts.{einval, Errno, Ret, ok}
use linux_hardware_devices_e.Utils.Kernel.{KernelLib}
use linux_hardware_devices_e.Utils.Pair.{HwePair, Parsed, str_to_pair}
use linux_hardware_devices_e.Utils.Lookup.{get_pair_at_index}
use linux_hardware_devices_e.Sysfs.Dev.{
  HweDev, DevAttr, AddEnv, count, add, delete, clear, pair_delete, clear_pairs, store_parsed,
  add_from, dev_add_store, dev_delete_store, dev_clear_store, dev_attr_store, delete_found,
}
use linux_hardware_devices_e.Sysfs.Dev.Invariant.{clear_pairs_same}
use linux_hardware_devices_e.Sysfs.Dev.Replies.{store_parsed_same}

pub record SameDev (dev dev' : HweDev) : Type 0 where
  pub iface : dev'.iface ≡ dev.iface
  pub index : dev'.index ≡ dev.index
  pub device : dev'.device ≡ dev.device

pub unchanged-SameDev : (dev : HweDev) → SameDev dev dev
unchanged-SameDev dev = record { iface = refl; index = refl; device = refl }

pub pair_delete-SameDev : (dev : HweDev) (p : HwePair) → SameDev dev (pair_delete dev p)
unfolding pair_delete
pair_delete-SameDev dev p = record { iface = refl; index = refl; device = refl }

pub clear_pairs-SameDev : (dev : HweDev) → SameDev dev (clear_pairs dev)
clear_pairs-SameDev dev =
    let same = clear_pairs_same dev in record { iface = same.1; index = same.0; device = same.2 }

pub store_parsed-SameDev :
    (full duplicate : Errno) (done : ℕ → Ret) (env : AddEnv) (dev : HweDev) (r : Parsed HwePair)
    → SameDev dev (store_parsed full duplicate done env dev r).0
store_parsed-SameDev full duplicate done env dev r =
    let same = store_parsed_same full duplicate done env dev r in
    record { iface = same.0; index = same.1; device = same.2 }

module _ (lib : KernelLib) (env : AddEnv) (dev : HweDev) (buf : Bytes) where
  add_from-SameDev : (memory : Option HwePair) → SameDev dev (add_from lib env dev buf memory).0
  unfolding add_from
  add_from-SameDev none = unchanged-SameDev dev
  add_from-SameDev (some q) =
      store_parsed-SameDev einval einval (λ idx. ok (length buf)) env dev (str_to_pair lib buf q)

  dev_delete_store-SameDev : SameDev dev (dev_delete_store lib dev buf).0
  unfolding dev_delete_store delete_found
  dev_delete_store-SameDev = elim (Bool-cases (length buf == 0)) [
    | inl e ↦ rw e (unchanged-SameDev dev)
    | inr e ↦ elim (Option-cases (lib.kstrtouint buf)) [
      | inl e₂ ↦ rw (e, e₂) (unchanged-SameDev dev)
      | inr (i, e₂) ↦ elim (Option-cases (get_pair_at_index dev.pair_list i)) [
        | inl e₃ ↦ rw (e, e₂, e₃) (unchanged-SameDev dev)
        | inr (p, e₃) ↦ rw (e, e₂, e₃) (pair_delete-SameDev dev p)
      ]
    ]
  ]

  dev_clear_store-SameDev : SameDev dev (dev_clear_store dev buf).0
  unfolding dev_clear_store
  dev_clear_store-SameDev = elim (Bool-cases (length buf == 0)) [
    | inl e ↦ rw e (unchanged-SameDev dev)
    | inr e ↦ rw e (clear_pairs-SameDev dev)
  ]

  pub dev_attr_store-SameDev :
      (attr : DevAttr) → SameDev dev (dev_attr_store lib attr env dev buf).0
  unfolding dev_attr_store dev_add_store
  dev_attr_store-SameDev count = unchanged-SameDev dev
  dev_attr_store-SameDev add = add_from-SameDev env.kmalloc
  dev_attr_store-SameDev delete = dev_delete_store-SameDev
  dev_attr_store-SameDev clear = dev_clear_store-SameDev
