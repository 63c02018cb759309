-- ===== src/Sysfs/Dev/Entries.antt =====
-- The invariant of the pairs of a device, and that storing a pair keeps it.
use linux_hardware_devices_e.Prelude.{
  ℕ, ◌<◌, ◌≡◌, ◌≢◌, ap, sym, ◌∙◌, Bool-cases, Option-cases, inl, inr, true, false, List, [], ◌∷◌,
  ◌++◌, arith, Bytes, decimal, All, All-append, length, length-append, length-set, get_or-set_self,
  ◌==◌,
}
use linux_hardware_devices_e.Consts.{hwe_max_pairs, Errno, Ret}
use linux_hardware_devices_e.Utils.Kernel.{KernelLib}
use linux_hardware_devices_e.Utils.Pair.{HwePair, Parsed, str_to_pair}
use linux_hardware_devices_e.Utils.Pair.Valid.{IsValid, str_to_pair-IsValid}
use linux_hardware_devices_e.Utils.Lookup.{find_pair}
use linux_hardware_devices_e.Utils.Lookup.Find.{Unanswered, find_pair-none}
use linux_hardware_devices_e.Sysfs.Bitmap.{
  Bitmap, test_bit, set_bit, find_first_zero_bit, bitmap_weight, bitmap_weight-set_bit,
  find_first_zero_bit-le, test_bit-set_bit, test_bit-find_first_zero_bit,
}
use linux_hardware_devices_e.Sysfs.Dev.{HweDev, AddEnv, link_pair, store_pair, store_parsed}

-- Two entries have different indexes and, if both are synchronous, different requests.
abbrev pub Apart : HwePair → HwePair → Type 0
Apart p q = (q.index ≢ p.index) × (q.async_rx ≡ false → p.async_rx ≡ false → q.req ≢ p.req)

-- Every entry is valid, owns a bit, which is set, and is apart from all others.
abbrev pub Entries : Bitmap → List HwePair → Type 0
Entries bits [] = Unit
Entries bits (p ∷ list) =
    (test_bit bits p.index ≡ true) × IsValid p × All (Apart p) list × Entries bits list

-- The number of set bits is the number of entries, so no bit is set without an entry.
pub record Inv (dev : HweDev) : Type 0 where
  pub size : length dev.pairs_indexes ≡ hwe_max_pairs
  pub entries : Entries dev.pairs_indexes dev.pair_list
  pub counted : bitmap_weight dev.pairs_indexes ≡ length dev.pair_list

Entries-set_bit :
    (bits : Bitmap) (i : ℕ) (list : List HwePair)
    → Entries bits list
    → Entries (set_bit i bits) list
Entries-set_bit bits i [] h = tt
Entries-set_bit bits i (p ∷ list) h =
    (test_bit-set_bit bits i p.index h.0, h.1, h.2, Entries-set_bit bits i list h.3)

Entries-append :
    (bits : Bitmap) (list : List HwePair) (p : HwePair)
    → Entries bits list
    → All (λ x. Apart x p) list
    → test_bit bits p.index ≡ true
    → IsValid p
    → Entries bits (list ++ p ∷ [])
Entries-append bits [] p h a t v = (t, v, tt, tt)
Entries-append bits (x ∷ list) p h a t v = (
  h.0,
  h.1,
  All-append (Apart x) list (p ∷ []) h.2 (a.0, tt),
  Entries-append bits list p h.3 a.1 t v,
)

-- A pair at a free index, with a request that the list does not answer, is apart from all entries.
Entries-Apart :
    (bits : Bitmap) (list : List HwePair) (p : HwePair)
    → Entries bits list
    → test_bit bits p.index ≡ false
    → Unanswered p.req list
    → All (λ x. Apart x p) list
Entries-Apart bits [] p h t u = tt
Entries-Apart bits (x ∷ list) p h t u = (
  (λ e. cc (ap (test_bit bits) e, h.0), λ sync sync' e. u.0 sync' (sym e)),
  Entries-Apart bits list p h.3 t u.1,
)

link_pair-Inv :
    (env : AddEnv) (dev : HweDev) (pair : HwePair) (r : Ret)
    → Inv dev
    → IsValid pair
    → find_first_zero_bit dev.pairs_indexes ≢ hwe_max_pairs
    → Unanswered pair.req dev.pair_list
    → Inv (link_pair env dev pair (find_first_zero_bit dev.pairs_indexes) r).0
unfolding link_pair
link_pair-Inv env dev pair r v valid room u =
    let bits = dev.pairs_indexes in
    let idx = find_first_zero_bit bits in
    let free = test_bit-find_first_zero_bit bits in
    let p = record pair { index = idx; filename = decimal idx } in
    let lt : idx < length bits = omega (arith, v.size, find_first_zero_bit-le bits) in
    elim (Option-cases env.create_file) [
      | inl ok' ↦ rw ok' (record {
        size = length-set bits idx true ∙ v.size;
        entries =
            Entries-append (set_bit idx bits) dev.pair_list p
              (Entries-set_bit bits idx dev.pair_list v.entries)
              (Entries-Apart bits dev.pair_list p v.entries free u)
              (get_or-set_self bits idx true false lt) valid';
        counted = omega (
          arith,
          bitmap_weight-set_bit bits idx lt free,
          v.counted,
          length-append dev.pair_list (p ∷ []),
        );
      })
      | inr (e, failed) ↦ rw failed v
    ]
  where
    valid' : IsValid (record pair {
      index = find_first_zero_bit dev.pairs_indexes;
      filename = decimal (find_first_zero_bit dev.pairs_indexes);
    })
    valid' = record {
      request = record { req_bytes = valid.req_bytes; sync = valid.sync; async = valid.async };
      resp_bytes = valid.resp_bytes;
      resp_size = valid.resp_size;
    }

store_pair-Inv :
    (full duplicate : Errno) (done : ℕ → Ret) (env : AddEnv) (dev : HweDev) (pair : HwePair)
    → Inv dev
    → IsValid pair
    → Inv (store_pair full duplicate done env dev pair).0
unfolding store_pair
store_pair-Inv full duplicate done env dev pair v valid =
    let idx = find_first_zero_bit dev.pairs_indexes in
    elim (Bool-cases (idx == hwe_max_pairs)) [
      | inl e ↦ rw e v
      | inr e ↦ elim (Option-cases (find_pair dev.pair_list pair.req)) [
        | inl new ↦
            rw (e, new)
              (link_pair-Inv env dev pair (done idx) v valid (ground arith)
                (find_pair-none dev.pair_list pair.req new))
        | inr (p, old) ↦ rw (e, old) v
      ]
    ]

-- The parser's result, whichever it is, leaves a device with the invariant.
pub store_parsed-Inv :
    (lib : KernelLib) (str : Bytes) (q : HwePair) (full duplicate : Errno) (done : ℕ → Ret)
    (env : AddEnv) (dev : HweDev) (r : Parsed HwePair)
    → str_to_pair lib str q ≡ r
    → Inv dev
    → Inv (store_parsed full duplicate done env dev r).0
unfolding store_parsed
store_parsed-Inv lib str q full duplicate done env dev (Parsed.err e) h v = v
store_parsed-Inv lib str q full duplicate done env dev (Parsed.ok p) h v =
    store_pair-Inv full duplicate done env dev p v (str_to_pair-IsValid lib str q p h)
