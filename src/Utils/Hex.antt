-- ===== src/Utils/Hex.antt =====
-- hex_to_bin(), hex2bin() and bin2hex() of tests/kernel_utils.c, is_hex_str() of kernel/hwe_utils.c.
pub mod RoundTrip
use linux_hardware_devices_e.Prelude.{
  ℕ, zero, suc, ◌+◌, ◌-◌, ◌*◌, ◌/◌, ◌%◌, ◌≡◌, refl, Bool, true, ◌&&◌, ◌||◌, [], ◌∷◌, Option, none,
  some, Bytes, codes, is_digit, leb, ◌>>=◌, get_or, if◌then◌else◌,
}

abbrev hex_asc : Bytes
hex_asc = codes "0123456789abcdef"

abbrev tolower : ℕ → ℕ
tolower c = if leb b'A' c && leb c b'Z' then c + 32 else c

-- `none` is the result -1.
pub hex_to_bin : ℕ → Option ℕ
hex_to_bin ch =
    if is_digit ch
    then some (ch - b'0')
    else let low = tolower ch in
      if leb b'a' low && leb low b'f' then some (low - b'a' + 10) else none

-- Behind the text stands a NUL, which is no hexadecimal digit.
unfoldable pub hex2bin : ℕ → Bytes → Option Bytes
unfolding hex_to_bin
hex2bin zero src = some []
hex2bin (suc count) [] = none
hex2bin (suc count) (h ∷ []) = none
hex2bin (suc count) (h ∷ l ∷ src) = do
  hi ← hex_to_bin h
  lo ← hex_to_bin l
  dst ← hex2bin count src
  some ((hi * 16 + lo) ∷ dst)

hex_asc_hi : ℕ → ℕ
hex_asc_hi x = get_or hex_asc (x / 16 % 16) 0

hex_asc_lo : ℕ → ℕ
hex_asc_lo x = get_or hex_asc (x % 16) 0

unfoldable pub bin2hex : Bytes → Bytes
unfolding hex_asc_hi hex_asc_lo
bin2hex [] = []
bin2hex (b ∷ src) = hex_asc_hi b ∷ hex_asc_lo b ∷ bin2hex src

-- isxdigit()
abbrev pub isxdigit : ℕ → Bool
isxdigit c = is_digit c || (leb b'a' c && leb c b'f') || (leb b'A' c && leb c b'F')

-- A text that is shorter than `size` goes on with a NUL.
unfoldable pub is_hex_str : Bytes → ℕ → Bool
is_hex_str str zero = true
is_hex_str [] (suc size) = isxdigit 0
is_hex_str (c ∷ str) (suc size) = isxdigit c && is_hex_str str size

hex2bin_mixed_case : hex2bin 2 (codes "1aFF0") ≡ some (26 ∷ 255 ∷ [])
unfolding hex2bin
hex2bin_mixed_case = refl

bin2hex_bytes : bin2hex (26 ∷ 255 ∷ []) ≡ codes "1aff"
unfolding bin2hex
bin2hex_bytes = refl
