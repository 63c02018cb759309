-- ===== src/Sysfs/Dev.antt =====
-- struct hwe_dev and the operations on one device's pairs: the handlers of the device's sysfs files
-- and what hwe_add_pair(), hwe_delete_pair() and hwe_clear_pairs() do to the device they find.
-- Each runs under the interface's semaphore. Where a node of a list is unlinked by its pointer, it is
-- the first node with its index.
pub mod Entries
pub mod Invariant
pub mod Replies
pub mod Same
use linux_hardware_devices_e.Prelude.{
  ℕ, ◌+◌, ◌≡◌, refl, Bool, true, false, List, [], ◌∷◌, ◌++◌, Option, none, some, Bytes, decimal,
  ◌==◌, length, replicate, if◌then◌else◌,
}
use linux_hardware_devices_e.Consts.{
  Iface, hwe_max_pairs, Errno, einval, e2big, eexist, enoent, eio, Ret, ok, err,
}
use linux_hardware_devices_e.Utils.Kernel.{KernelLib}
use linux_hardware_devices_e.Utils.Pair
use linux_hardware_devices_e.Utils.Pair.{HwePair, str_to_pair, Parsed}
use linux_hardware_devices_e.Utils.Lookup.{find_pair, get_pair_at_index}
use linux_hardware_devices_e.Sysfs.Bitmap.{
  Bitmap, set_bit, clear_bit, find_first_zero_bit, bitmap_weight,
}

-- `device` is the driver's private data, `none` for NULL; `pairs_kobj` says that the directory of
-- the pairs' files is there.
pub record HweDev : Type 0 where
  pub pair_list : List HwePair
  pub iface : Iface
  pub index : ℕ
  pub device : Option ℕ
  pub pairs_kobj : Bool
  pub pairs_indexes : Bitmap

-- What the kernel answers to a call that adds a pair: the memory that kmalloc() returns, with what
-- stands in it, and the error of sysfs_create_file(), `none` for 0.
pub record AddEnv : Type 0 where
  pub kmalloc : Option HwePair
  pub create_file : Option Errno

-- set_bit() and list_add_tail(), if the file could be made.
link_pair : AddEnv → HweDev → HwePair → ℕ → Ret → HweDev × Ret
link_pair env dev pair idx done = elim env.create_file [
  | some e ↦ (dev, err e)
  | none ↦ (
    record dev {
      pairs_indexes = set_bit idx dev.pairs_indexes;
      pair_list = dev.pair_list ++ record pair { index = idx; filename = decimal idx } ∷ [];
    },
    done,
  )
]

-- The checks behind the parser, with the errors of the two callers.
store_pair : Errno → Errno → (ℕ → Ret) → AddEnv → HweDev → HwePair → HweDev × Ret
store_pair full duplicate done env dev pair =
    let idx = find_first_zero_bit dev.pairs_indexes in
    if idx == hwe_max_pairs then (dev, err full) else elim (find_pair dev.pair_list pair.req) [
      | some p ↦ (dev, err duplicate)
      | none ↦ link_pair env dev pair idx (done idx)
    ]

-- From the parser's result on. What the parser refuses is freed.
unfoldable pub store_parsed :
    Errno → Errno → (ℕ → Ret) → AddEnv → HweDev → Parsed HwePair → HweDev × Ret
unfolding store_pair link_pair
store_parsed full duplicate done env dev (Parsed.err e) = (dev, err einval)
store_parsed full duplicate done env dev (Parsed.ok pair) =
    store_pair full duplicate done env dev pair

-- list_del() of the node with an index.
unfoldable pub list_del : ℕ → List HwePair → List HwePair
list_del i [] = []
list_del i (p ∷ list) = if p.index == i then list else p ∷ list_del i list

unfoldable pub pair_delete : HweDev → HwePair → HweDev
unfolding list_del
pair_delete dev pair = record dev {
  pairs_indexes = clear_bit pair.index dev.pairs_indexes;
  pair_list = list_del pair.index dev.pair_list;
}

-- The loop over the entries that the list had at first.
delete_each : List HwePair → HweDev → HweDev
delete_each [] dev = dev
delete_each (p ∷ rest) dev = delete_each rest (pair_delete dev p)

unfoldable pub clear_pairs : HweDev → HweDev
unfolding delete_each pair_delete
clear_pairs dev = delete_each dev.pair_list dev

-- The attributes of a device; `count` can be read, and the others can be written.
pub data DevAttr : Type 0 where
  count add delete clear : DevAttr

-- The file `count`: the text, whose length is the result.
unfoldable pub dev_count_show : HweDev → Bytes
dev_count_show dev = decimal (bitmap_weight dev.pairs_indexes)

unfoldable pub dev_clear_store : HweDev → Bytes → HweDev × Ret
dev_clear_store dev buf =
    if length buf == 0 then (dev, err eio) else (clear_pairs dev, ok (length buf))

delete_found : HweDev → Bytes → Option HwePair → HweDev × Ret
delete_found dev buf none = (dev, err einval)
delete_found dev buf (some pair) = (pair_delete dev pair, ok (length buf))

module _ (lib : KernelLib) where
  open lib use {kstrtouint}

  -- From the result of kmalloc() on.
  add_from : AddEnv → HweDev → Bytes → Option HwePair → HweDev × Ret
  add_from env dev buf none = (dev, err einval)
  add_from env dev buf (some pair) =
      store_parsed einval einval (λ idx. ok (length buf)) env dev (str_to_pair lib buf pair)

  -- The file `add`; the result is the length of the text.
  unfoldable pub dev_add_store : AddEnv → HweDev → Bytes → HweDev × Ret
  unfolding add_from
  dev_add_store env dev buf = add_from env dev buf env.kmalloc

  -- The file `delete`.
  unfoldable pub dev_delete_store : HweDev → Bytes → HweDev × Ret
  unfolding delete_found
  dev_delete_store dev buf = if length buf == 0 then (dev, err einval) else elim (kstrtouint buf) [
    | none ↦ (dev, err einval)
    | some index ↦ delete_found dev buf (get_pair_at_index dev.pair_list index)
  ]

  -- dev_attr_store(): an attribute with no `store` gives -EIO.
  unfoldable pub dev_attr_store : DevAttr → AddEnv → HweDev → Bytes → HweDev × Ret
  dev_attr_store count env dev buf = (dev, err eio)
  dev_attr_store add env dev buf = dev_add_store env dev buf
  dev_attr_store delete env dev buf = dev_delete_store dev buf
  dev_attr_store clear env dev buf = dev_clear_store dev buf

-- dev_attr_show(): `none` is the result -EIO.
unfoldable pub dev_attr_show : DevAttr → HweDev → Option Bytes
dev_attr_show count dev = some (dev_count_show dev)
dev_attr_show add dev = none
dev_attr_show delete dev = none
dev_attr_show clear dev = none
