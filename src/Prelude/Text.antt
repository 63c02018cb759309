-- ===== src/Prelude/Text.antt =====
-- Texts as lists of byte values: literals, comparison, and the decimal print `%u` of a number.
use Prim.Native.Nat.{ℕ, zero, suc, ◌+◌, ◌-◌, ◌*◌, ◌/◌, ◌%◌, ◌≤◌, ◌<◌}
use Prim.Native.Char.{code}
use Prim.Native.String.{String}
use mathlib.Core.Path.{◌≡◌, refl, ap, ◌∙◌, sym}
use mathlib.Core.Logic.{◌≢◌, ◌↔◌}
use mathlib.Core.Bool.{Bool, true, false, ◌&&◌}
use mathlib.Core.List.{List, [], ◌∷◌, ◌++◌, foldl, foldl-append}
use native.Mathlib.Omega.{arith}
use linux_hardware_devices_e.Prelude.Tests.{ltb, leb, ◌==◌, if◌then◌else◌}
use linux_hardware_devices_e.Prelude.Lists.{length, length-append, All, All-append}

abbrev pub Bytes : Type 0
Bytes = List ℕ

-- The code points of a literal: its bytes, for an ASCII text.
abbrev pub codes : String → Bytes
codes String.[] = []
codes (String.◌∷◌ c s) = code c ∷ codes s

-- strcmp() or memcmp() gives 0.
unfoldable pub beq : Bytes → Bytes → Bool
beq [] [] = true
beq [] (y ∷ ys) = false
beq (x ∷ xs) [] = false
beq (x ∷ xs) (y ∷ ys) = x == y && beq xs ys

pub beq_sound : (xs ys : Bytes) → beq xs ys ≡ true → xs ≡ ys
unfolding beq
beq_sound [] [] h = refl
beq_sound [] (y ∷ ys) h = cc
beq_sound (x ∷ xs) [] h = cc
beq_sound (x ∷ xs) (y ∷ ys) h = ground (arith, beq_sound xs ys)

pub beq_refl : (xs : Bytes) → beq xs xs ≡ true
unfolding beq
beq_refl [] = refl
beq_refl (x ∷ xs) = ground (arith, beq_refl xs)

pub beq_iff : (xs ys : Bytes) → (beq xs ys ≡ true) ↔ (xs ≡ ys)
beq_iff xs ys = (beq_sound xs ys, λ e. ap (beq xs) (sym e) ∙ beq_refl xs)

-- The number that decimal digits spell behind `n`.
abbrev pub value : ℕ → Bytes → ℕ
value = foldl (λ n c. n * 10 + (c - b'0'))

abbrev pub IsByte : ℕ → Type 0
IsByte b = b < 256

-- isdigit()
abbrev pub is_digit : ℕ → Bool
is_digit c = leb b'0' c && leb c b'9'

abbrev pub IsDigit : ℕ → Type 0
IsDigit c = (b'0' ≤ c) × (c ≤ b'9')

decimal_fuel : ℕ → ℕ → Bytes
decimal_fuel zero n = []
decimal_fuel (suc f) n =
    let rest = decimal_fuel f (n / 10) ++ (b'0' + n % 10) ∷ [] in
    if ltb n 10 then (b'0' + n) ∷ [] else rest

-- printf("%u"): `n + 1` rounds are more than the digits of `n`.
unfoldable pub decimal : ℕ → Bytes
unfolding decimal_fuel
decimal n = decimal_fuel (suc n) n

value-decimal_fuel : (f n : ℕ) → n < f → value 0 (decimal_fuel f n) ≡ n
unfolding decimal_fuel
value-decimal_fuel zero n h = elim h [ ]
value-decimal_fuel (suc f) n h = grind (arith, foldl-append, value-decimal_fuel f (n / 10))

decimal_fuel-IsDigit : (f n : ℕ) → All IsDigit (decimal_fuel f n)
unfolding decimal_fuel
decimal_fuel-IsDigit zero n = tt
decimal_fuel-IsDigit (suc f) n = ground (
  arith,
  All-append IsDigit (decimal_fuel f (n / 10)) ((b'0' + n % 10) ∷ []),
  decimal_fuel-IsDigit f (n / 10),
)

length-decimal_fuel :
    (f n : ℕ) → n < f → (0 < length (decimal_fuel f n)) × (length (decimal_fuel f n) ≤ n / 10 + 1)
unfolding decimal_fuel
length-decimal_fuel zero n h = elim h [ ]
length-decimal_fuel (suc f) n h = ground (
  arith,
  length-append (decimal_fuel f (n / 10)) ((b'0' + n % 10) ∷ []),
  length-decimal_fuel f (n / 10),
)

pub value-decimal : (n : ℕ) → value 0 (decimal n) ≡ n
unfolding decimal
value-decimal n = value-decimal_fuel (suc n) n (omega arith)

pub decimal-IsDigit : (n : ℕ) → All IsDigit (decimal n)
unfolding decimal
decimal-IsDigit n = decimal_fuel-IsDigit (suc n) n

pub length-decimal : (n : ℕ) → (0 < length (decimal n)) × (length (decimal n) ≤ n / 10 + 1)
unfolding decimal
length-decimal n = length-decimal_fuel (suc n) n (omega arith)

pub decimal-ne-nil : (n : ℕ) → decimal n ≢ []
decimal-ne-nil n e = omega (arith, length-decimal n, ap length e)

-- Different numbers have different prints.
pub decimal-injective : (m n : ℕ) → decimal m ≡ decimal n → m ≡ n
decimal-injective m n e = sym (value-decimal m) ∙ ap (value 0) e ∙ value-decimal n

-- Signed numbers: `negsuc n` is -(n + 1).
pub data ℤ : Type 0 where
  pos : ℕ → ℤ
  negsuc : ℕ → ℤ
