-- ===== src/Utils/Hex/RoundTrip.antt =====
-- What the hexadecimal reader and printer have to do with one another.
use linux_hardware_devices_e.Prelude.{
  ℕ, zero, suc, ◌*◌, ◌/◌, ◌%◌, ◌<◌, ◌≡◌, refl, Bool, true, false, ◌&&◌, [], ◌∷◌, ◌++◌, none, some,
  arith, Bytes, IsByte, All, length, get_or, every_below, every_below_sound, ◌==◌, >>=-eq-some,
}
use linux_hardware_devices_e.Utils.Hex.{hex_asc, hex_to_bin, hex2bin, bin2hex, isxdigit, is_hex_str}

reads_back : ℕ → Bool
reads_back d = elim (hex_to_bin (get_or hex_asc d 0)) [
  | none ↦ false
  | some v ↦ v == d && isxdigit (get_or hex_asc d 0)
]

digit_table : every_below reads_back 16 ≡ true
unfolding every_below reads_back hex_to_bin
digit_table = refl

hex_to_bin_digit :
    (d : ℕ)
    → d < 16
    → (hex_to_bin (get_or hex_asc d 0) ≡ some d) × (isxdigit (get_or hex_asc d 0) ≡ true)
unfolding reads_back
hex_to_bin_digit d h = ground (arith, every_below_sound reads_back 16 d h digit_table)

-- The hexadecimal print of bytes, with any text behind it, is read back as these bytes.
pub hex2bin-bin2hex :
    (bs rest : Bytes) → All IsByte bs → hex2bin (length bs) (bin2hex bs ++ rest) ≡ some bs
unfolding hex2bin bin2hex
hex2bin-bin2hex [] rest h = refl
hex2bin-bin2hex (b ∷ bs) rest h = ground (
  arith,
  hex_to_bin_digit (b / 16 % 16) (omega arith),
  hex_to_bin_digit (b % 16) (omega arith),
  hex2bin-bin2hex bs rest h.1,
)

pub length-bin2hex : (bs : Bytes) → length (bin2hex bs) ≡ length bs * 2
unfolding bin2hex
length-bin2hex [] = refl
length-bin2hex (b ∷ bs) = omega (arith, length-bin2hex bs)

pub is_hex_str-bin2hex :
    (bs rest : Bytes) → is_hex_str (bin2hex bs ++ rest) (length (bin2hex bs)) ≡ true
unfolding is_hex_str bin2hex
is_hex_str-bin2hex [] rest = refl
is_hex_str-bin2hex (b ∷ bs) rest = ground (
  arith,
  hex_to_bin_digit (b / 16 % 16) (omega arith),
  hex_to_bin_digit (b % 16) (omega arith),
  is_hex_str-bin2hex bs rest,
)

hex_to_bin-lt : (c v : ℕ) → hex_to_bin c ≡ some v → v < 16
unfolding hex_to_bin
hex_to_bin-lt c v h = ground arith

pub bin2hex-isxdigit : (bs : Bytes) → All (λ c. isxdigit c ≡ true) (bin2hex bs)
unfolding bin2hex
bin2hex-isxdigit [] = tt
bin2hex-isxdigit (b ∷ bs) = (
  (hex_to_bin_digit (b / 16 % 16) (omega arith)).1,
  ((hex_to_bin_digit (b % 16) (omega arith)).1, bin2hex-isxdigit bs),
)

-- What is read has the length asked for and consists of bytes.
pub hex2bin_sound : (n : ℕ) (s bs : Bytes) → hex2bin n s ≡ some bs → (length bs ≡ n) × All IsByte bs
unfolding hex2bin
hex2bin_sound zero s bs h = ground arith
hex2bin_sound (suc n) [] bs h = cc
hex2bin_sound (suc n) (x ∷ []) bs h = cc
hex2bin_sound (suc n) (x ∷ y ∷ s) bs h =
    let (hi, ehi, h₁) = >>=-eq-some (hex_to_bin x) _ h in
    let (lo, elo, h₂) = >>=-eq-some (hex_to_bin y) _ h₁ in
    let (dst, edst, h₃) = >>=-eq-some (hex2bin n s) _ h₂ in
    ground (arith, hex_to_bin-lt x hi ehi, hex_to_bin-lt y lo elo, hex2bin_sound n s dst edst)
