-- ===== src/Utils/Kernel.antt =====
-- The kernel's own routines that the driver calls and this repository does not hold. A client takes
-- them as a section's parameter; the laws are what their documentation says on the inputs that
-- matter here. Tests/Plain.antt has a choice that meets the laws.
use linux_hardware_devices_e.Prelude.{
  ℕ, ◌<◌, ◌^◌, ◌≡◌, ◌≢◌, Bool, false, ◌&&◌, ◌||◌, [], ◌∷◌, ◌++◌, Bytes, All, IsDigit, is_digit,
  value, decimal, Option, some, ℤ, pos, leb, ◌==◌,
}

-- isalpha(), isspace() and isprint() on ASCII.
abbrev pub ascii_alpha : ℕ → Bool
ascii_alpha c = (leb b'A' c && leb c b'Z') || (leb b'a' c && leb c b'z')

abbrev pub ascii_space : ℕ → Bool
ascii_space c = c == 32 || (leb 9 c && leb c 13)

abbrev pub ascii_print : ℕ → Bool
ascii_print c = leb 32 c && leb c 126

-- A text whose first byte is no decimal digit.
abbrev pub Stops : Bytes → Type 0
Stops [] = Unit
Stops (c ∷ s) = is_digit c ≡ false

pub record KernelLib : Type 0 where
  -- The number read, and the rest of the text behind it.
  pub simple_strtoull : Bytes → ℕ × Bytes
  pub msecs_to_jiffies : ℕ → ℕ
  -- The number that a whole text spells, with no error.
  pub kstrtouint : Bytes → Option ℕ
  pub kstrtol : Bytes → Option ℤ
  pub isalpha : ℕ → Bool
  pub isspace : ℕ → Bool
  pub isprint : ℕ → Bool
  pub strtoull_digits :
      (ds rest : Bytes)
      → ds ≢ []
      → All IsDigit ds
      → value 0 ds < 2 ^ 64
      → Stops rest
      → simple_strtoull (ds ++ rest) ≡ (value 0 ds, rest)
  pub isalpha_ascii : (c : ℕ) → c < 128 → isalpha c ≡ ascii_alpha c
  pub isspace_ascii : (c : ℕ) → c < 128 → isspace c ≡ ascii_space c
  pub isprint_ascii : (c : ℕ) → c < 128 → isprint c ≡ ascii_print c
  pub kstrtouint-decimal : (n : ℕ) → n < 2 ^ 32 → kstrtouint (decimal n) ≡ some n
  pub kstrtol-decimal : (n : ℕ) → n < 2 ^ 63 → kstrtol (decimal n) ≡ some (pos n)
