-- ===== src/Sysfs/Dev/Replies.antt =====
-- What the operations on a device's pairs do to the answers that the drivers find.
use linux_hardware_devices_e.Prelude.{
  ℕ, ◌≡◌, ◌≢◌, refl, ap, sym, ◌∙◌, Bool-cases, inl, inr, true, false, List, [], ◌∷◌, ◌++◌, Option,
  none, some, arith, Bytes, decimal, All, length, ◌==◌, if◌then◌else◌,
}
use linux_hardware_devices_e.Consts.{Errno, einval, Ret, ok, err}
use linux_hardware_devices_e.Utils.Kernel.{KernelLib}
use linux_hardware_devices_e.Utils.Pair.{HwePair, Parsed, str_to_pair}
use linux_hardware_devices_e.Utils.Lookup.{answers, find_pair, get_pair_at_index}
use linux_hardware_devices_e.Utils.Lookup.Find.{
  Unanswered, find_pair-Unanswered, find_pair-append, answers_sound, get_pair_at_index_sound,
}
use linux_hardware_devices_e.Sysfs.Bitmap.{
  Bitmap, test_bit, clear_bit, test_bit-clear_bit, find_first_zero_bit, bitmap_weight,
  bitmap_weight_zero,
}
use linux_hardware_devices_e.Sysfs.Dev.{
  HweDev, AddEnv, link_pair, store_pair, store_parsed, list_del, pair_delete, clear_pairs, add_from,
  dev_add_store, dev_delete_store, dev_clear_store, dev_count_show,
}
use linux_hardware_devices_e.Sysfs.Dev.Entries.{Apart, Entries, Inv}
use linux_hardware_devices_e.Sysfs.Dev.Invariant.{clear_pairs-Inv}

-- The entry that is made of a parsed pair.
abbrev pub stored : HweDev → HwePair → HwePair
stored dev p =
    let idx = find_first_zero_bit dev.pairs_indexes in
    record p { index = idx; filename = decimal idx }

-- The answers of a list behind which `p` stands.
abbrev pub answer_or : HwePair → HwePair → Bytes → Option HwePair → Option HwePair
answer_or p entry r (some q) = some q
answer_or p entry r none = if answers p r then some entry else none

-- An accepted pair: where it stands, and what is found from now on.
pub record Added (dev dev' : HweDev) (p : HwePair) : Type 0 where
  pub list : dev'.pair_list ≡ dev.pair_list ++ stored dev p ∷ []
  pub new : find_pair dev.pair_list p.req ≡ none
  pub found :
      (r : Bytes)
      → find_pair dev'.pair_list r ≡ answer_or p (stored dev p) r (find_pair dev.pair_list r)

found_append :
    (list : List HwePair) (p q : HwePair) (r : Bytes)
    → answers q r ≡ answers p r
    → find_pair (list ++ q ∷ []) r ≡ answer_or p q r (find_pair list r)
found_append list p q r e = ground (arith, find_pair-append list q r)

store_pair_cases :
    (full duplicate : Errno) (done : ℕ → Ret) (env : AddEnv) (dev dev' : HweDev) (p : HwePair)
    (n : ℕ)
    → store_pair full duplicate done env dev p ≡ (dev', ok n)
    → Added dev dev' p × (done (find_first_zero_bit dev.pairs_indexes) ≡ ok n)
unfolding store_pair link_pair
store_pair_cases full duplicate done env dev dev' p n h =
    let list : dev'.pair_list ≡ dev.pair_list ++ stored dev p ∷ [] = ground arith in
    (
      record {
        list = list;
        new = ground arith;
        found = λ r.
            ap (λ (l : List HwePair). find_pair l r) list
            ∙ found_append dev.pair_list p (stored dev p) r (unfold answers in refl);
      },
      ground arith,
    )

pub store_parsed_cases :
    (full duplicate : Errno) (done : ℕ → Ret) (env : AddEnv) (dev dev' : HweDev) (n : ℕ)
    (r : Parsed HwePair)
    → store_parsed full duplicate done env dev r ≡ (dev', ok n)
    → (p : HwePair) × (r ≡ Parsed.ok p)
      × Added dev dev' p
      × (done (find_first_zero_bit dev.pairs_indexes) ≡ ok n)
unfolding store_parsed
store_parsed_cases full duplicate done env dev dev' n (Parsed.err e) h = ground arith
store_parsed_cases full duplicate done env dev dev' n (Parsed.ok p) h =
    let (added, result) = store_pair_cases full duplicate done env dev dev' p n h in
    (p, refl, added, result)

module _ (lib : KernelLib) (env : AddEnv) (dev dev' : HweDev) (buf : Bytes) where
  add_from_lookup :
      (memory : Option HwePair) (n : ℕ)
      → add_from lib env dev buf memory ≡ (dev', ok n)
      → (q p : HwePair) × (memory ≡ some q)
        × (str_to_pair lib buf q ≡ Parsed.ok p)
        × (n ≡ length buf)
        × Added dev dev' p
  unfolding add_from
  add_from_lookup none n h = ground arith
  add_from_lookup (some q) n h =
      let (p, parsed, added, result) =
        store_parsed_cases einval einval _ env dev dev' n (str_to_pair lib buf q) h in
      (q, p, refl, parsed, ground arith, added)

  -- A write to `add` that succeeds took the whole text and parsed it as a pair. The pair stands behind
  -- the others, at the first free index; no answer that the device had is changed, and the request of
  -- the new pair, which had no answer, has the new one if the pair is synchronous.
  pub dev_add_store_lookup :
      (n : ℕ)
      → dev_add_store lib env dev buf ≡ (dev', ok n)
      → (q p : HwePair) × (env.kmalloc ≡ some q)
        × (str_to_pair lib buf q ≡ Parsed.ok p)
        × (n ≡ length buf)
        × Added dev dev' p
  unfolding dev_add_store
  dev_add_store_lookup n h = add_from_lookup env.kmalloc n h

-- An operation that fails leaves the device as it was.
pub store_parsed_fails :
    (full duplicate : Errno) (done : ℕ → Ret) (env : AddEnv) (dev : HweDev) (r : Parsed HwePair)
    (e : Errno)
    → ((i : ℕ) → done i ≢ err e)
    → (store_parsed full duplicate done env dev r).1 ≡ err e
    → (store_parsed full duplicate done env dev r).0 ≡ dev
unfolding store_parsed
store_parsed_fails full duplicate done env dev (Parsed.err x) e ne h = refl
store_parsed_fails full duplicate done env dev (Parsed.ok p) e ne h =
    ground (arith, ne (find_first_zero_bit dev.pairs_indexes))

-- Unless it is the entry at the index.
abbrev pub unless_at : ℕ → Option HwePair → Option HwePair
unless_at i none = none
unless_at i (some q) = if q.index == i then none else some q

Apart-Unanswered :
    (x : HwePair) (r : Bytes) (list : List HwePair)
    → answers x r ≡ true
    → All (Apart x) list
    → Unanswered r list
Apart-Unanswered x r [] h a = tt
Apart-Unanswered x r (y ∷ list) h a =
    let (sync, same) = answers_sound x r h in
    (λ sync' e. a.0.1 sync' sync (e ∙ sym same), Apart-Unanswered x r list h a.1)

find_pair_ne :
    (x : HwePair) (r : Bytes) (list : List HwePair)
    → All (Apart x) list
    → unless_at x.index (find_pair list r) ≡ find_pair list r
unfolding find_pair
find_pair_ne x r [] a = refl
find_pair_ne x r (y ∷ list) a =
    let apart = a.0.0 in ground (arith, apart, find_pair_ne x r list a.1)

find_pair-list_del :
    (bits : Bitmap) (i : ℕ) (r : Bytes) (list : List HwePair)
    → Entries bits list
    → find_pair (list_del i list) r ≡ unless_at i (find_pair list r)
unfolding find_pair list_del
find_pair-list_del bits i r [] h = refl
find_pair-list_del bits i r (x ∷ list) h = elim (Bool-cases (x.index == i)) [
  | inl same ↦
      let e : x.index ≡ i = ground arith in
      let rest = find_pair_ne x r list h.2 in
      let gone = λ (h' : answers x r ≡ true).
        find_pair-Unanswered list r (Apart-Unanswered x r list h' h.2) in
      elim (Bool-cases (answers x r)) [
        | inl hit ↦ rw (same, hit) (rw same (gone hit))
        | inr miss ↦ rw (same, miss) (rw e at (sym rest))
      ]
  | inr other ↦ ground (arith, find_pair-list_del bits i r list h.3)
]

dev_delete_store_hit :
    (lib : KernelLib) (dev : HweDev) (buf : Bytes) (i : ℕ) (p : HwePair)
    → buf ≢ []
    → lib.kstrtouint buf ≡ some i
    → get_pair_at_index dev.pair_list i ≡ some p
    → dev_delete_store lib dev buf ≡ (pair_delete dev p, ok (length buf))
unfolding dev_delete_store
dev_delete_store_hit lib dev [] i p ne read found = absurd (ne refl)
dev_delete_store_hit lib dev (c ∷ buf) i p ne read found = rw (read, found) (ground arith)

module _ (lib : KernelLib) (dev : HweDev) (buf : Bytes) (v : Inv dev) where
  -- On a device with the invariant, a write to `delete` that names an index at which there is a pair
  -- succeeds, takes the answers of that pair away, and no others, and frees the index.
  pub dev_delete_store_lookup :
      (i : ℕ) (p : HwePair)
      → buf ≢ []
      → lib.kstrtouint buf ≡ some i
      → get_pair_at_index dev.pair_list i ≡ some p
      → ((dev_delete_store lib dev buf).1 ≡ ok (length buf))
        × ((r : Bytes)
            → find_pair (dev_delete_store lib dev buf).0.pair_list r
              ≡ unless_at i (find_pair dev.pair_list r))
        × (test_bit (dev_delete_store lib dev buf).0.pairs_indexes i ≡ false)
  unfolding pair_delete
  dev_delete_store_lookup i p ne read found =
      let hit = dev_delete_store_hit lib dev buf i p ne read found in
      let at : p.index ≡ i = get_pair_at_index_sound dev.pair_list i p found in
      (
        ap (λ (x : HweDev × Ret). x.1) hit,
        λ r.
            ap (λ (x : HweDev × Ret). find_pair x.0.pair_list r) hit
            ∙ ap (λ (j : ℕ). find_pair (list_del j dev.pair_list) r) at
            ∙ find_pair-list_del dev.pairs_indexes i r dev.pair_list v.entries,
        ap (λ (x : HweDev × Ret). test_bit x.0.pairs_indexes i) hit
            ∙ ap (λ (j : ℕ). test_bit (clear_bit j dev.pairs_indexes) i) at
            ∙ test_bit-clear_bit dev.pairs_indexes i,
      )

module _ (dev : HweDev) (v : Inv dev) where
  -- The file `count` of a device with the invariant tells how many pairs there are.
  pub dev_count_show-length : dev_count_show dev ≡ decimal (length dev.pair_list)
  unfolding dev_count_show
  dev_count_show-length = ap decimal v.counted

  -- A write to `clear` of some text, on a device with the invariant, leaves no pair, no answer and no
  -- index taken, and the count 0.
  pub dev_clear_store_lookup :
      (buf : Bytes)
      → buf ≢ []
      → (dev_clear_store dev buf ≡ (clear_pairs dev, ok (length buf)))
        × ((clear_pairs dev).pair_list ≡ [])
        × ((i : ℕ) → test_bit (clear_pairs dev).pairs_indexes i ≡ false)
        × (dev_count_show (clear_pairs dev) ≡ decimal 0)
  unfolding dev_clear_store dev_count_show
  dev_clear_store_lookup buf ne =
      let (v', empty) = clear_pairs-Inv dev v in
      let none_set : bitmap_weight (clear_pairs dev).pairs_indexes ≡ 0 =
        v'.counted ∙ ap length empty in
      (
        ground (arith, ne),
        empty,
        λ i. bitmap_weight_zero (clear_pairs dev).pairs_indexes i none_set,
        ap decimal none_set,
      )

pub store_parsed_same :
    (full duplicate : Errno) (done : ℕ → Ret) (env : AddEnv) (dev : HweDev) (r : Parsed HwePair)
    → ((store_parsed full duplicate done env dev r).0.iface ≡ dev.iface)
      × ((store_parsed full duplicate done env dev r).0.index ≡ dev.index)
      × ((store_parsed full duplicate done env dev r).0.device ≡ dev.device)
unfolding store_parsed store_pair link_pair
store_parsed_same full duplicate done env dev (Parsed.err e) = (refl, refl, refl)
store_parsed_same full duplicate done env dev (Parsed.ok p) =
    (ground arith, ground arith, ground arith)
