-- ===== src/I2c/Chip.antt =====
-- The chip of 256 bytes of kernel/hwe_i2c.c, and what the loops of its block commands copy.
use linux_hardware_devices_e.Prelude.{
  ℕ, zero, suc, some, none, lt→ltb, leb, ◌-◌, if◌then◌else◌, ◌+◌, ◌<◌, ◌≤◌, ◌≡◌, refl, ap, sym, ◌⊎◌,
  inl, inr, ◌∙◌, arith, Bytes, length, get_or, set, length-set, get_or-set_self, get_or-set_ne,
}
use linux_hardware_devices_e.I2c.{i2c_chip_size, HweChip, ◌>>=◌, fetch, put, copy_bytes, block_len}

pub record IsChip (chip : HweChip) : Type 0 where
  pub size : length chip.dat ≡ i2c_chip_size
  pub inside : chip.pos < 256

-- What is copied where every access is inside of its array.
abbrev pub copied : ℕ → Bytes → ℕ → Bytes → ℕ → Bytes
copied zero dst d src s = dst
copied (suc len) dst d src s = copied len (set dst d (get_or src s 0)) (d + 1) src (s + 1)

pub fetch_inside : (xs : Bytes) (i : ℕ) → i < length xs → fetch xs i ≡ some (get_or xs i 0)
unfolding fetch
fetch_inside xs i h = ap (λ b. if b then some (get_or xs i 0) else none) (lt→ltb i (length xs) h)

pub put_inside : (xs : Bytes) (i x : ℕ) → i < length xs → put xs i x ≡ some (set xs i x)
unfolding put
put_inside xs i x h = ap (λ b. if b then some (set xs i x) else none) (lt→ltb i (length xs) h)

pub copy_bytes-copied :
    (len : ℕ) (dst : Bytes) (d : ℕ) (src : Bytes) (s : ℕ)
    → d + len ≤ length dst
    → s + len ≤ length src
    → copy_bytes len dst d src s ≡ some (copied len dst d src s)
unfolding copy_bytes
copy_bytes-copied zero dst d src s to from = refl
copy_bytes-copied (suc len) dst d src s to from =
    ap (λ o. o >>= λ x. put dst d x >>= λ dst'. copy_bytes len dst' (d + 1) src (s + 1))
      (fetch_inside src s (omega (arith, from)))
    ∙ ap (λ o. o >>= λ dst'. copy_bytes len dst' (d + 1) src (s + 1))
        (put_inside dst d (get_or src s 0) (omega (arith, to)))
    ∙ copy_bytes-copied len (set dst d (get_or src s 0)) (d + 1) src (s + 1)
        (omega (arith, to, length-set dst d (get_or src s 0))) (omega (arith, from))

pub length-copied :
    (len : ℕ) (dst : Bytes) (d : ℕ) (src : Bytes) (s : ℕ)
    → length (copied len dst d src s) ≡ length dst
length-copied zero dst d src s = refl
length-copied (suc len) dst d src s =
    length-copied len (set dst d (get_or src s 0)) (d + 1) src (s + 1)
    ∙ length-set dst d (get_or src s 0)

-- Below the range and above it nothing changes.
pub copied_outside :
    (len : ℕ) (dst : Bytes) (d : ℕ) (src : Bytes) (s i : ℕ)
    → (i < d) ⊎ (d + len ≤ i)
    → get_or (copied len dst d src s) i 0 ≡ get_or dst i 0
copied_outside zero dst d src s i h = refl
copied_outside (suc len) dst d src s i h =
    copied_outside len (set dst d (get_or src s 0)) (d + 1) src (s + 1) i
      (elim h [ inl a ↦ inl (omega (arith, a)) | inr b ↦ inr (omega (arith, b)) ])
    ∙ get_or-set_ne dst d i (get_or src s 0) 0 (omega (arith, h))

-- In the range stand the bytes of the source.
pub copied_inside :
    (len : ℕ) (dst : Bytes) (d : ℕ) (src : Bytes) (s i : ℕ)
    → i < len
    → d + len ≤ length dst
    → get_or (copied len dst d src s) (d + i) 0 ≡ get_or src (s + i) 0
copied_inside zero dst d src s i h fits = absurd (omega (arith, h))
copied_inside (suc len) dst d src s zero h fits =
    let e : d + 0 ≡ d = omega arith in
    let e' : s + 0 ≡ s = omega arith in
    ap (λ k. get_or (copied len (set dst d (get_or src s 0)) (d + 1) src (s + 1)) k 0) e
    ∙ copied_outside len (set dst d (get_or src s 0)) (d + 1) src (s + 1) d (inl (omega arith))
    ∙ get_or-set_self dst d (get_or src s 0) 0 (omega (arith, fits))
    ∙ sym (ap (λ k. get_or src k 0) e')
copied_inside (suc len) dst d src s (suc i) h fits =
    let e : d + suc i ≡ d + 1 + i = omega arith in
    let e' : s + suc i ≡ s + 1 + i = omega arith in
    let fits' : d + 1 + len ≤ length (set dst d (get_or src s 0)) =
      omega (arith, fits, length-set dst d (get_or src s 0)) in
    ap (λ k. get_or (copied len (set dst d (get_or src s 0)) (d + 1) src (s + 1)) k 0) e
    ∙ copied_inside len (set dst d (get_or src s 0)) (d + 1) src (s + 1) i (omega (arith, h)) fits'
    ∙ sym (ap (λ k. get_or src k 0) e')

pub block_len-le : (command b : ℕ) → command < 256 → block_len command b ≤ 32
unfolding block_len
block_len-le command b h = ground arith

pub block_len-fits : (command b : ℕ) → command < 256 → command + block_len command b ≤ 256
unfolding block_len
block_len-fits command b h = ground arith

-- How many bytes a block command moves at a command byte: what is asked for, but at most 32, and at
-- most what is left of the chip.
abbrev least : ℕ → ℕ → ℕ
least a b = if leb a b then a else b

abbrev pub moved : ℕ → ℕ → ℕ
moved command asked = least asked (least 32 (256 - command))

pub block_len-moved : (command b : ℕ) → block_len command b ≡ moved command b
unfolding block_len
block_len-moved command b = ground arith
