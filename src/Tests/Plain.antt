-- ===== src/Tests/Plain.antt =====
-- A plain choice of the kernel's routines, on texts of ASCII.
use linux_hardware_devices_e.Prelude.{
  ℕ, ◌+◌, ◌-◌, ◌*◌, ◌^◌, ◌<◌, ◌≡◌, refl, ap, sym, ◌∙◌, true, [], ◌∷◌, ◌++◌, append-nil, Option,
  none, some, arith, Bytes, All, IsDigit, is_digit, value, value-decimal, decimal, decimal-IsDigit,
  ℤ, pos, ltb, lt→ltb, if◌then◌else◌,
}
use linux_hardware_devices_e.Utils.Kernel.{KernelLib, Stops, ascii_alpha, ascii_space, ascii_print}

-- The digits at the beginning of a text, with the number so far.
unfoldable pub scan : ℕ → Bytes → ℕ × Bytes
scan n [] = (n, [])
scan n (c ∷ s) = let rest = scan (n * 10 + (c - 48)) s in if is_digit c then rest else (n, c ∷ s)

scan-Stops : (n : ℕ) (rest : Bytes) → Stops rest → scan n rest ≡ (n, rest)
unfolding scan
scan-Stops n [] h = refl
scan-Stops n (c ∷ s) h = ap (λ b. if b then scan (n * 10 + (c - 48)) s else (n, c ∷ s)) h

pub scan_digits :
    (n : ℕ) (ds rest : Bytes)
    → All IsDigit ds
    → Stops rest
    → scan n (ds ++ rest) ≡ (value n ds, rest)
unfolding scan
scan_digits n [] rest h stop = scan-Stops n rest stop
scan_digits n (d ∷ ds) rest h stop =
    let digit : is_digit d ≡ true = ground (arith, h.0) in
    ap (λ b. if b then scan (n * 10 + (d - 48)) (ds ++ rest) else (n, d ∷ ds ++ rest)) digit
    ∙ scan_digits (n * 10 + (d - 48)) ds rest h.1 stop

unfoldable pub to_number : ℕ → ℕ × Bytes → Option ℕ
to_number limit (n, []) = if ltb n limit then some n else none
to_number limit (n, c ∷ s) = none

pub scan-decimal : (n : ℕ) → scan 0 (decimal n) ≡ (n, [])
scan-decimal n =
    ap (scan 0) (sym (append-nil (decimal n)))
    ∙ scan_digits 0 (decimal n) [] (decimal-IsDigit n) tt
    ∙ ap (λ k. (k, [])) (value-decimal n)

pub to_number-decimal : (limit n : ℕ) → n < limit → to_number limit (scan 0 (decimal n)) ≡ some n
unfolding to_number
to_number-decimal limit n h =
    ap (to_number limit) (scan-decimal n) ∙ ap (λ b. if b then some n else none) (lt→ltb n limit h)

abbrev pub to_integer : Option ℕ → Option ℤ
to_integer none = none
to_integer (some n) = some (pos n)

abbrev pub plain : KernelLib
plain = record {
  simple_strtoull = scan 0;
  msecs_to_jiffies = λ m. m;
  kstrtouint = λ s. to_number (2 ^ 32) (scan 0 s);
  kstrtol = λ s. to_integer (to_number (2 ^ 63) (scan 0 s));
  isalpha = ascii_alpha;
  isspace = ascii_space;
  isprint = ascii_print;
  strtoull_digits = λ ds rest ne digits lt stop. scan_digits 0 ds rest digits stop;
  isalpha_ascii = λ c h. refl;
  isspace_ascii = λ c h. refl;
  isprint_ascii = λ c h. refl;
  kstrtouint-decimal = λ n h. to_number-decimal (2 ^ 32) n h;
  kstrtol-decimal = λ n h. ap to_integer (to_number-decimal (2 ^ 63) n h);
}
