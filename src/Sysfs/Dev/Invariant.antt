-- ===== src/Sysfs/Dev/Invariant.antt =====
-- Deleting and clearing pairs, and every write to a file of a device, keeps the invariant of its pairs.
use linux_hardware_devices_e.Prelude.{
  ℕ, ◌+◌, ◌≡◌, refl, sym, subst, ◌∙◌, Bool-cases, Option-cases, inl, inr, true, false, List, [],
  ◌∷◌, Option, none, some, arith, Bytes, All, length, length-set, get_or-set_ne, ◌==◌, ==_refl,
}
use linux_hardware_devices_e.Consts.{einval}
use linux_hardware_devices_e.Utils.Kernel.{KernelLib}
use linux_hardware_devices_e.Utils.Pair.{HwePair, str_to_pair}
use linux_hardware_devices_e.Utils.Lookup.{get_pair_at_index}
use linux_hardware_devices_e.Utils.Lookup.Find.{get_pair_at_index_sound}
use linux_hardware_devices_e.Sysfs.Bitmap.{Bitmap, test_bit, clear_bit, bitmap_weight-clear_bit}
use linux_hardware_devices_e.Sysfs.Dev.{
  HweDev, AddEnv, list_del, pair_delete, delete_each, clear_pairs, add_from, dev_add_store,
  dev_delete_store, dev_clear_store, dev_attr_store, DevAttr, count, add, delete, clear,
}
use linux_hardware_devices_e.Sysfs.Dev.Entries.{Apart, Entries, Inv, store_parsed-Inv}

list_del-Apart :
    (p : HwePair) (i : ℕ) (list : List HwePair)
    → All (Apart p) list
    → All (Apart p) (list_del i list)
unfolding list_del
list_del-Apart p i [] h = tt
list_del-Apart p i (x ∷ list) h = ground (arith, list_del-Apart p i list h.1)

Entries-clear_bit_ne :
    (bits : Bitmap) (p : HwePair) (list : List HwePair)
    → All (Apart p) list
    → Entries bits list
    → Entries (clear_bit p.index bits) list
Entries-clear_bit_ne bits p [] a h = tt
Entries-clear_bit_ne bits p (x ∷ list) a h = (
  get_or-set_ne bits p.index x.index false false (λ e. a.0.0 (sym e)) ∙ h.0,
  h.1,
  h.2,
  Entries-clear_bit_ne bits p list a.1 h.3,
)

pub Entries-list_del :
    (bits : Bitmap) (i : ℕ) (list : List HwePair)
    → Entries bits list
    → Entries (clear_bit i bits) (list_del i list)
unfolding list_del
Entries-list_del bits i [] h = tt
Entries-list_del bits i (x ∷ list) h = elim (Bool-cases (x.index == i)) [
  | inl same ↦
      let e : x.index ≡ i = ground arith in
      rw same (rw e at (Entries-clear_bit_ne bits x list h.2 h.3))
  | inr other ↦ rw other (
    get_or-set_ne bits i x.index false false (λ e. ground arith) ∙ h.0,
    h.1,
    list_del-Apart x i list h.2,
    Entries-list_del bits i list h.3,
  )
]

pub found_bit :
    (bits : Bitmap) (i : ℕ) (list : List HwePair) (p : HwePair)
    → Entries bits list
    → get_pair_at_index list i ≡ some p
    → test_bit bits i ≡ true
unfolding get_pair_at_index
found_bit bits i [] p h e = cc
found_bit bits i (x ∷ list) p h e = elim (Bool-cases (i == x.index)) [
  | inl same ↦ let same' : i ≡ x.index = ground arith in rw same' h.0
  | inr other ↦ found_bit bits i list p h.3 (ground arith)
]

length-list_del :
    (i : ℕ) (list : List HwePair) (p : HwePair)
    → get_pair_at_index list i ≡ some p
    → length (list_del i list) + 1 ≡ length list
unfolding get_pair_at_index list_del
length-list_del i [] p e = cc
length-list_del i (x ∷ list) p e = ground (arith, length-list_del i list p)

-- Deleting an entry of the list keeps the invariant.
pub pair_delete-Inv :
    (dev : HweDev) (p : HwePair)
    → Inv dev
    → get_pair_at_index dev.pair_list p.index ≡ some p
    → Inv (pair_delete dev p)
unfolding pair_delete
pair_delete-Inv dev p v found =
    let bits = dev.pairs_indexes in
    let list = dev.pair_list in
    record {
      size = length-set bits p.index false ∙ v.size;
      entries = Entries-list_del bits p.index list v.entries;
      counted = omega (
        arith,
        v.counted,
        length-list_del p.index list p found,
        bitmap_weight-clear_bit bits p.index (found_bit bits p.index list p v.entries found),
      );
    }

-- The loop of clear_pairs() deletes the first entry of what is left, until nothing is.
delete_each-Inv :
    (list : List HwePair) (dev : HweDev)
    → dev.pair_list ≡ list
    → Inv dev
    → Inv (delete_each list dev) × ((delete_each list dev).pair_list ≡ [])
unfolding delete_each
delete_each-Inv [] dev e v = (v, e)
delete_each-Inv (p ∷ rest) dev e v =
    delete_each-Inv rest (pair_delete dev p)
      (unfold pair_delete list_del in rw e (ground (arith, ==_refl p.index)))
      (pair_delete-Inv dev p v (unfold get_pair_at_index in rw e (ground (arith, ==_refl p.index))))

pub clear_pairs-Inv :
    (dev : HweDev) → Inv dev → Inv (clear_pairs dev) × ((clear_pairs dev).pair_list ≡ [])
unfolding clear_pairs
clear_pairs-Inv dev v = delete_each-Inv dev.pair_list dev refl v

module _ (lib : KernelLib) (env : AddEnv) (dev : HweDev) (buf : Bytes) (v : Inv dev) where
  add_from-Inv : (memory : Option HwePair) → Inv (add_from lib env dev buf memory).0
  unfolding add_from
  add_from-Inv none = v
  add_from-Inv (some pair) =
      store_parsed-Inv lib buf pair einval einval _ env dev (str_to_pair lib buf pair) refl v

  dev_add_store-Inv : Inv (dev_add_store lib env dev buf).0
  unfolding dev_add_store
  dev_add_store-Inv = add_from-Inv env.kmalloc

  dev_delete_store-Inv : Inv (dev_delete_store lib dev buf).0
  unfolding dev_delete_store
  dev_delete_store-Inv = elim (Bool-cases (length buf == 0)) [
    | inl e ↦ rw e v
    | inr e ↦ elim (Option-cases (lib.kstrtouint buf)) [
      | inl e₂ ↦ rw (e, e₂) v
      | inr (i, e₂) ↦ elim (Option-cases (get_pair_at_index dev.pair_list i)) [
        | inl e₃ ↦ rw (e, e₂, e₃) v
        | inr (p, e₃) ↦
            rw (e, e₂, e₃)
              (pair_delete-Inv dev p v (
                subst (λ j. get_pair_at_index dev.pair_list j ≡ some p)
                  (sym (get_pair_at_index_sound dev.pair_list i p e₃)) e₃))
      ]
    ]
  ]

  dev_clear_store-Inv : Inv (dev_clear_store dev buf).0
  unfolding dev_clear_store
  dev_clear_store-Inv = ground (arith, (clear_pairs-Inv dev v).0)

  -- Whatever is written to whichever file of a device with the invariant, and whatever the kernel
  -- answers, the pairs stay valid, with distinct indexes and requests and a bitmap that marks exactly
  -- their indexes.
  pub dev_attr_store-Inv : (attr : DevAttr) → Inv (dev_attr_store lib attr env dev buf).0
  unfolding dev_attr_store
  dev_attr_store-Inv count = v
  dev_attr_store-Inv add = dev_add_store-Inv
  dev_attr_store-Inv delete = dev_delete_store-Inv
  dev_attr_store-Inv clear = dev_clear_store-Inv

delete_each_same :
    (list : List HwePair) (dev : HweDev)
    → ((delete_each list dev).index ≡ dev.index)
      × ((delete_each list dev).iface ≡ dev.iface)
      × ((delete_each list dev).device ≡ dev.device)
unfolding delete_each pair_delete
delete_each_same [] dev = (refl, refl, refl)
delete_each_same (p ∷ list) dev = delete_each_same list (pair_delete dev p)

-- Clearing the pairs changes nothing else of the device.
pub clear_pairs_same :
    (dev : HweDev)
    → ((clear_pairs dev).index ≡ dev.index)
      × ((clear_pairs dev).iface ≡ dev.iface)
      × ((clear_pairs dev).device ≡ dev.device)
unfolding clear_pairs
clear_pairs_same dev = delete_each_same dev.pair_list dev
