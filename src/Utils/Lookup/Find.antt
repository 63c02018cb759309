-- ===== src/Utils/Lookup/Find.antt =====
-- What the searches find.
use linux_hardware_devices_e.Prelude.{
  ℕ, ◌+◌, ◌≡◌, ◌≢◌, refl, ap, true, false, List, [], ◌∷◌, ◌++◌, none, some, arith, Bytes, beq_refl,
  beq_iff, All, length, if◌then◌else◌,
}
use linux_hardware_devices_e.Consts.{Iface, tty, i2c, net, spi}
use linux_hardware_devices_e.Utils.Pair.{HwePair}
use linux_hardware_devices_e.Utils.Lookup.{
  iface_to_str, str_to_iface, answers, find_pair, get_pair_at_index, list_entry_count,
}

-- The name of an interface is read as the interface.
-- The name of each interface is read as that interface.
pub str_to_iface-iface_to_str : (i : Iface) → str_to_iface (iface_to_str i) ≡ some i
unfolding iface_to_str str_to_iface
str_to_iface-iface_to_str tty = refl
str_to_iface-iface_to_str i2c = refl
str_to_iface-iface_to_str net = refl
str_to_iface-iface_to_str spi = refl

pub answers_sound :
    (p : HwePair) (r : Bytes) → answers p r ≡ true → (p.async_rx ≡ false) × (p.req ≡ r)
unfolding answers
answers_sound p r h = ground (arith, beq_iff p.req r)

pub answers_self : (p : HwePair) → p.async_rx ≡ false → answers p p.req ≡ true
unfolding answers
answers_self p h = ground (arith, beq_refl p.req)

pub find_pair_sound :
    (list : List HwePair) (r : Bytes) (p : HwePair)
    → find_pair list r ≡ some p
    → (p.async_rx ≡ false) × (p.req ≡ r)
unfolding find_pair
find_pair_sound [] r p h = cc
find_pair_sound (x ∷ list) r p h = ground (arith, beq_iff x.req r, find_pair_sound list r p)

-- No synchronous pair of the list has the request.
abbrev pub Unanswered : Bytes → List HwePair → Type 0
Unanswered r = All (λ p. p.async_rx ≡ false → p.req ≢ r)

pub find_pair-none : (list : List HwePair) (r : Bytes) → find_pair list r ≡ none → Unanswered r list
unfolding find_pair
find_pair-none [] r h = tt
find_pair-none (x ∷ list) r h =
    (λ sync e. ground (arith, beq_iff x.req r, ap length e), find_pair-none list r (ground arith))

pub find_pair-Unanswered :
    (list : List HwePair) (r : Bytes) → Unanswered r list → find_pair list r ≡ none
unfolding find_pair
find_pair-Unanswered [] r h = refl
find_pair-Unanswered (x ∷ list) r h =
    ground (arith, beq_iff x.req r, h.0, find_pair-Unanswered list r h.1)

pub find_pair-append :
    (list : List HwePair) (p : HwePair) (r : Bytes)
    → find_pair (list ++ p ∷ []) r
      ≡ elim (find_pair list r) [ some q ↦ some q | none ↦ if answers p r then some p else none ]
unfolding find_pair
find_pair-append [] p r = refl
find_pair-append (x ∷ list) p r = ground (arith, find_pair-append list p r)

pub get_pair_at_index_sound :
    (list : List HwePair) (i : ℕ) (p : HwePair) → get_pair_at_index list i ≡ some p → p.index ≡ i
unfolding get_pair_at_index
get_pair_at_index_sound [] i p h = cc
get_pair_at_index_sound (x ∷ list) i p h = ground (arith, get_pair_at_index_sound list i p)

pub list_entry_count-eq-length :
    (list : List HwePair) (ret : ℕ) → list_entry_count list ret ≡ ret + length list
unfolding list_entry_count
list_entry_count-eq-length [] ret = omega arith
list_entry_count-eq-length (x ∷ list) ret = omega (arith, list_entry_count-eq-length list (ret + 1))
