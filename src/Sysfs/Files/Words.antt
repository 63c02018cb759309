-- ===== src/Sysfs/Files/Words.antt =====
-- The name of a device as a word: no two devices share it, and the copy of a word takes it whole.
use linux_hardware_devices_e.Prelude.{
  ℕ, zero, suc, ◌<◌, ◌≤◌, ◌≡◌, ◌≢◌, refl, ap, sym, subst, ◌∙◌, Bool-cases, inl, inr, Bool, true,
  false, not, ◌&&◌, List, [], ◌∷◌, ◌++◌, some, arith, Bytes, beq, beq_iff, beq_refl, decimal,
  decimal-injective, decimal-IsDigit, IsDigit, All, All-append, ◌==◌, ltb, leb, ltb→lt, every_below,
  every_below_sound, length, length-append, drop, drop-append_self, if◌then◌else◌,
}
use linux_hardware_devices_e.Consts.{Iface, tty, i2c, net, spi}
use linux_hardware_devices_e.Utils.Kernel.{KernelLib}
use linux_hardware_devices_e.Utils.Lookup.{iface_to_str}
use linux_hardware_devices_e.Sysfs.Bitmap.{Bitmap}
use linux_hardware_devices_e.Sysfs.Dev.{HweDev}
use linux_hardware_devices_e.Sysfs.Registry.{kobject_name, find_device, find_device_by_index}
use linux_hardware_devices_e.Sysfs.Registry.Lists.{Devices, found_device}
use linux_hardware_devices_e.Sysfs.Files.{skip_spaces, copy_chars}

-- Two devices of an interface with the same name have the same index.
kobject_name-injective :
    (a b : HweDev) → a.iface ≡ b.iface → kobject_name a ≡ kobject_name b → a.index ≡ b.index
unfolding kobject_name
kobject_name-injective a b own e =
    let n = length (iface_to_str b.iface) in
    let same : iface_to_str b.iface ++ decimal a.index ≡ iface_to_str b.iface ++ decimal b.index =
      subst (λ i. iface_to_str i ++ decimal a.index ≡ iface_to_str b.iface ++ decimal b.index) own
        e in
    decimal-injective a.index b.index (
      sym (drop-append_self (iface_to_str b.iface) (decimal a.index))
      ∙ ap (drop n) same
      ∙ drop-append_self (iface_to_str b.iface) (decimal b.index))

pub find_device-kobject_name :
    (iface : Iface) (bits : Bitmap) (i : ℕ) (list : List HweDev) (d : HweDev)
    → Devices iface bits list
    → find_device_by_index list i ≡ some d
    → find_device list (kobject_name d) ≡ some d
unfolding find_device find_device_by_index
find_device-kobject_name iface bits i [] d v e = cc
find_device-kobject_name iface bits i (x ∷ list) d v e = elim (Bool-cases (x.index == i)) [
  | inl t ↦
      (let found : some x ≡ some d =
          sym (ap (λ b. if b then some x else find_device_by_index list i) t) ∙ e in
        let same : x ≡ d = cc in
        ap
          (λ (y : HweDev).
            if beq (kobject_name x) (kobject_name y)
            then some x
            else find_device list (kobject_name y))
          (sym same)
        ∙ ap (λ b. if b then some x else find_device list (kobject_name x))
            (beq_refl (kobject_name x))
        ∙ found)
  | inr f ↦
      (let found : find_device_by_index list i ≡ some d =
          sym (ap (λ b. if b then some x else find_device_by_index list i) f) ∙ e in
        let (bit, at, own, inv) = found_device iface bits i list d v.4 found in
        let other : beq (kobject_name x) (kobject_name d) ≡ false =
          elim (Bool-cases (beq (kobject_name x) (kobject_name d))) [
            | inr ne ↦ ne
            | inl hit ↦
                let same : x.index ≡ d.index =
                  kobject_name-injective x d (v.1 ∙ sym own)
                    ((beq_iff (kobject_name x) (kobject_name d)).0 hit) in
                absurd (ground (arith, same, at, f))
          ] in
        ap (λ b. if b then some x else find_device list (kobject_name d)) other
        ∙ find_device-kobject_name iface bits i list d v.4 found)
]

-- The bytes of a name are printed, are no spaces and are not 0.
pub IsPlain : KernelLib → ℕ → Type 0
IsPlain lib c = (c ≢ 0) × (lib.isspace c ≡ false) × (lib.isprint c ≡ true)

-- What stands behind the name in the text: nothing, or a space first.
abbrev pub Ends : KernelLib → Bytes → Type 0
Ends lib [] = Unit
Ends lib (c ∷ s) = lib.isspace c ≡ true

abbrev every : (ℕ → Bool) → Bytes → Bool
every test [] = true
every test (c ∷ s) = test c && every test s

module _ (lib : KernelLib) where
  ascii-IsPlain : (c : ℕ) → 33 ≤ c → c ≤ 126 → IsPlain lib c
  unfolding IsPlain
  ascii-IsPlain c low high = (
    omega arith,
    lib.isspace_ascii c (omega arith) ∙ ground arith,
    lib.isprint_ascii c (omega arith) ∙ ground arith,
  )

  pub copy_chars_plain :
      (n : ℕ) (s rest : Bytes)
      → All (IsPlain lib) s
      → Ends lib rest
      → length s < n
      → copy_chars lib n (s ++ rest) ≡ s
  unfolding copy_chars IsPlain
  copy_chars_plain zero s rest h stop fits = absurd (omega (arith, fits))
  copy_chars_plain (suc zero) [] rest h stop fits = refl
  copy_chars_plain (suc zero) (c ∷ s) rest h stop fits = absurd (omega (arith, fits))
  copy_chars_plain (suc (suc n)) [] [] h stop fits = refl
  copy_chars_plain (suc (suc n)) [] (c ∷ rest) h stop fits =
      let fails : (not (c == 0) && (not (lib.isspace c) && lib.isprint c)) ≡ false =
        ground (arith, stop) in
      ap (λ b. if b then c ∷ copy_chars lib (suc n) rest else []) fails
  copy_chars_plain (suc (suc n)) (c ∷ s) rest h stop fits =
      let passes : (not (c == 0) && (not (lib.isspace c) && lib.isprint c)) ≡ true =
        ground (arith, h.0) in
      ap (λ b. if b then c ∷ copy_chars lib (suc n) (s ++ rest) else []) passes
      ∙ ap (◌∷◌ c) (copy_chars_plain (suc n) s rest h.1 stop (omega (arith, fits)))

  text-IsPlain : (s : Bytes) → every (λ c. leb 33 c && leb c 126) s ≡ true → All (IsPlain lib) s
  text-IsPlain [] h = tt
  text-IsPlain (c ∷ s) h =
      (ascii-IsPlain c (ground (arith, h)) (ground (arith, h)), text-IsPlain s (ground (arith, h)))

  pub skip_spaces_plain :
      (s rest : Bytes)
      → All (IsPlain lib) s
      → 0 < length s
      → skip_spaces lib (s ++ rest) ≡ s ++ rest
  unfolding skip_spaces IsPlain
  skip_spaces_plain [] rest h ne = absurd (omega (arith, ne))
  skip_spaces_plain (c ∷ s) rest h ne =
      ap (λ b. if b then skip_spaces lib (s ++ rest) else c ∷ s ++ rest) h.0.1

  digits-IsPlain : (s : Bytes) → All IsDigit s → All (IsPlain lib) s
  digits-IsPlain [] h = tt
  digits-IsPlain (c ∷ s) h =
      (ascii-IsPlain c (omega (arith, h.0)) (omega (arith, h.0)), digits-IsPlain s h.1)

  iface_to_str-IsPlain : (i : Iface) → All (IsPlain lib) (iface_to_str i)
  unfolding iface_to_str
  iface_to_str-IsPlain tty = text-IsPlain (b't' ∷ b't' ∷ b'y' ∷ []) refl
  iface_to_str-IsPlain i2c = text-IsPlain (b'i' ∷ b'2' ∷ b'c' ∷ []) refl
  iface_to_str-IsPlain net = text-IsPlain (b'n' ∷ b'e' ∷ b't' ∷ []) refl
  iface_to_str-IsPlain spi = text-IsPlain (b's' ∷ b'p' ∷ b'i' ∷ []) refl

  pub kobject_name-IsPlain : (d : HweDev) → All (IsPlain lib) (kobject_name d)
  unfolding kobject_name
  kobject_name-IsPlain d =
      All-append (IsPlain lib) (iface_to_str d.iface) (decimal d.index)
        (iface_to_str-IsPlain d.iface) (digits-IsPlain (decimal d.index) (decimal-IsDigit d.index))

length-iface_to_str : (i : Iface) → length (iface_to_str i) ≡ 3
unfolding iface_to_str
length-iface_to_str tty = refl
length-iface_to_str i2c = refl
length-iface_to_str net = refl
length-iface_to_str spi = refl

short_table : every_below (λ k. ltb (length (decimal k)) 4) 256 ≡ true
unfolding every_below decimal
short_table = refl

short_index : (n : ℕ) → n < 256 → ltb (length (decimal n)) 4 ≡ true
short_index n h = every_below_sound (λ k. ltb (length (decimal k)) 4) 256 n h short_table

-- A name fits the buffer.
pub length-kobject_name :
    (d : HweDev) → d.index < 256 → (0 < length (kobject_name d)) × (length (kobject_name d) < 15)
unfolding kobject_name
length-kobject_name d h =
    let total = length-append (iface_to_str d.iface) (decimal d.index) in
    let three = length-iface_to_str d.iface in
    let short : length (decimal d.index) < 4 = ltb→lt _ 4 (short_index d.index h) in
    (omega (arith, total, three), omega (arith, total, three, short))
