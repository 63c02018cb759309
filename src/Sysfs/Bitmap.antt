-- ===== src/Sysfs/Bitmap.antt =====
-- The bitmap routines that kernel/hwe_sysfs.c uses on `dev_indexes` and `pairs_indexes`: set_bit(),
-- clear_bit(), find_first_zero_bit() and bitmap_weight(), over a list of a bitmap's bits.
use linux_hardware_devices_e.Prelude.{
  ℕ, zero, suc, ◌+◌, ◌<◌, ◌≤◌, ◌≡◌, refl, Bool, true, false, List, [], ◌∷◌, arith, length, get_or,
  set, replicate, if◌then◌else◌,
}

abbrev pub Bitmap : Type 0
Bitmap = List Bool

abbrev pub test_bit : Bitmap → ℕ → Bool
test_bit bits i = get_or bits i false

abbrev pub set_bit : ℕ → Bitmap → Bitmap
set_bit i bits = set bits i true

abbrev pub clear_bit : ℕ → Bitmap → Bitmap
clear_bit i bits = set bits i false

-- The bitmap's size, if no bit is zero.
unfoldable pub find_first_zero_bit : Bitmap → ℕ
find_first_zero_bit [] = 0
find_first_zero_bit (b ∷ bits) = if b then suc (find_first_zero_bit bits) else 0

unfoldable pub bitmap_weight : Bitmap → ℕ
bitmap_weight [] = 0
bitmap_weight (b ∷ bits) = if b then suc (bitmap_weight bits) else bitmap_weight bits

pub find_first_zero_bit-le : (bits : Bitmap) → find_first_zero_bit bits ≤ length bits
unfolding find_first_zero_bit
find_first_zero_bit-le [] = omega arith
find_first_zero_bit-le (b ∷ bits) = ground (arith, find_first_zero_bit-le bits)

pub test_bit-find_first_zero_bit :
    (bits : Bitmap) → test_bit bits (find_first_zero_bit bits) ≡ false
unfolding find_first_zero_bit
test_bit-find_first_zero_bit [] = refl
test_bit-find_first_zero_bit (true ∷ bits) = test_bit-find_first_zero_bit bits
test_bit-find_first_zero_bit (false ∷ bits) = refl

pub bitmap_weight-set_bit :
    (bits : Bitmap) (i : ℕ)
    → i < length bits
    → test_bit bits i ≡ false
    → bitmap_weight (set_bit i bits) ≡ bitmap_weight bits + 1
unfolding bitmap_weight
bitmap_weight-set_bit [] i lt h = elim lt [ ]
bitmap_weight-set_bit (b ∷ bits) zero lt h = ground arith
bitmap_weight-set_bit (b ∷ bits) (suc i) lt h =
    ground (arith, bitmap_weight-set_bit bits i (omega arith) h)

pub bitmap_weight-clear_bit :
    (bits : Bitmap) (i : ℕ)
    → test_bit bits i ≡ true
    → bitmap_weight (clear_bit i bits) + 1 ≡ bitmap_weight bits
unfolding bitmap_weight
bitmap_weight-clear_bit [] i h = cc
bitmap_weight-clear_bit (b ∷ bits) zero h = ground arith
bitmap_weight-clear_bit (b ∷ bits) (suc i) h = ground (arith, bitmap_weight-clear_bit bits i h)

pub bitmap_weight-le : (bits : Bitmap) → bitmap_weight bits ≤ length bits
unfolding bitmap_weight
bitmap_weight-le [] = omega arith
bitmap_weight-le (b ∷ bits) = ground (arith, bitmap_weight-le bits)

-- A full bitmap is one with no zero bit.
pub bitmap_weight_full :
    (bits : Bitmap) → find_first_zero_bit bits ≡ length bits → bitmap_weight bits ≡ length bits
unfolding find_first_zero_bit bitmap_weight
bitmap_weight_full [] h = refl
bitmap_weight_full (b ∷ bits) h = ground (arith, bitmap_weight_full bits)

pub bitmap_weight_zero : (bits : Bitmap) (i : ℕ) → bitmap_weight bits ≡ 0 → test_bit bits i ≡ false
unfolding bitmap_weight
bitmap_weight_zero [] i h = refl
bitmap_weight_zero (b ∷ bits) zero h = ground arith
bitmap_weight_zero (b ∷ bits) (suc i) h = ground (arith, bitmap_weight_zero bits i)

pub test_bit-set_bit :
    (bits : Bitmap) (i j : ℕ) → test_bit bits j ≡ true → test_bit (set_bit i bits) j ≡ true
test_bit-set_bit [] i j h = cc
test_bit-set_bit (b ∷ bits) zero zero h = refl
test_bit-set_bit (b ∷ bits) zero (suc j) h = h
test_bit-set_bit (b ∷ bits) (suc i) zero h = h
test_bit-set_bit (b ∷ bits) (suc i) (suc j) h = test_bit-set_bit bits i j h

pub test_bit-clear_bit : (bits : Bitmap) (i : ℕ) → test_bit (clear_bit i bits) i ≡ false
test_bit-clear_bit [] i = refl
test_bit-clear_bit (b ∷ bits) zero = refl
test_bit-clear_bit (b ∷ bits) (suc i) = test_bit-clear_bit bits i

pub bitmap_weight-replicate : (n : ℕ) → bitmap_weight (replicate n false) ≡ 0
unfolding bitmap_weight
bitmap_weight-replicate zero = refl
bitmap_weight-replicate (suc n) = bitmap_weight-replicate n

pub test_bit-lt : (bits : Bitmap) (i : ℕ) → test_bit bits i ≡ true → i < length bits
test_bit-lt [] i h = cc
test_bit-lt (b ∷ bits) zero h = omega arith
test_bit-lt (b ∷ bits) (suc i) h = omega (arith, test_bit-lt bits i h)
