-- ===== src/Utils/Time.antt =====
-- hwe_str_to_time() and hwe_time_to_str() of kernel/hwe_utils.c.
pub mod Bounds
pub mod Layout
pub mod RoundTrip
use Prim.Native.Nat.{min}
use linux_hardware_devices_e.Prelude.{
  ℕ, zero, suc, ◌+◌, ◌-◌, ◌*◌, ◌/◌, ◌%◌, ◌^◌, ◌≡◌, refl, Bool, true, false, not, ◌&&◌, ◌||◌, List,
  [], ◌∷◌, ◌++◌, Bytes, codes, decimal, beq, ltb, ◌==◌, length, get_or, take, drop, if◌then◌else◌,
}
use linux_hardware_devices_e.Consts.{int_max, uint_max}
use linux_hardware_devices_e.Utils.Kernel.{KernelLib}

-- *s, of a text that ends with a NUL.
abbrev pub char : Bytes → ℕ
char s = get_or s 0 0

pub record Pattern : Type 0 where
  pub unit : Bytes
  pub max : ℕ
  pub mult : ℕ

abbrev hours : Pattern
hours = record { unit = codes "h"; max = int_max; mult = 60 * 60 * 1000 }

abbrev minutes : Pattern
minutes = record { unit = codes "m"; max = 59; mult = 60 * 1000 }

abbrev seconds : Pattern
seconds = record { unit = codes "s"; max = 59; mult = 1 * 1000 }

abbrev milliseconds : Pattern
milliseconds = record { unit = codes "ms"; max = 999; mult = 1 }

-- The array, without the entry that ends it.
abbrev pattern_table : List Pattern
pattern_table = hours ∷ minutes ∷ seconds ∷ milliseconds ∷ []

-- IS_SEP
abbrev pub is_sep : ℕ → Bool
is_sep c = c == 0 || c == b',' || c == b'='

-- `!p->unit`
abbrev at_end : List Pattern → Bool
at_end [] = true
at_end (p ∷ ps) = false

-- What follows the loop; the results are the time and `*end_ptr`.
finish : Bytes → ℕ → Bytes → ℕ × Bytes
finish s ret ep = (if is_sep (char s) then ret else 0, ep)

module _ (lib : KernelLib) where
  open lib use {simple_strtoull, isalpha}

  -- The test of the `for` loop that looks for the unit.
  matches : Pattern → Bytes → Bool
  matches p ep = beq p.unit (take (length p.unit) ep) && not (isalpha (get_or ep (length p.unit) 0))

  -- From the `for` loop of one round to the end. `p` goes on through the table in both loops, so
  -- the table's rest is the recursion. A text points into `str`; two such pointers are equal if
  -- what follows them is equally long.
  scan_units : List Pattern → Bytes → Bytes → ℕ → Bytes → ℕ → ℕ × Bytes
  scan_units [] str s n ep ret = finish s 0 s
  scan_units (p ∷ ps) str s n ep ret =
      let other_unit = scan_units ps str s n ep ret in
      let total = (ret + n * p.mult) % 2 ^ 64 in
      let s' = drop (length p.unit) ep in
      let next = simple_strtoull s' in
      let round = scan_units ps str s' next.0 next.1 total in
      if not (matches p ep)
      then other_unit
      else if ltb p.max n
      then finish s 0 s
      else if ltb uint_max total
      then finish s 0 str
      else if at_end ps || is_sep (char s')
      then finish s' total s'
      else if length s' == length next.1
      then finish s' 0 next.1
      else round

  unfoldable pub str_to_time : Bytes → ℕ × Bytes
  unfolding scan_units matches finish beq
  str_to_time str =
      let first = simple_strtoull str in
      if length str == length first.1
      then finish str 0 first.1
      else scan_units pattern_table str str first.0 first.1 0

-- scnprintf(): the text cut to the buffer, which holds the NUL too.
pub scnprintf : ℕ → Bytes → Bytes
scnprintf zero text = []
scnprintf (suc size) text = take size text

abbrev is_set : ℕ → Bool
is_set n = not (n == 0)

-- The text written into a buffer of `size` bytes.
unfoldable pub time_to_str : ℕ → ℕ → Bytes
unfolding scnprintf
time_to_str size t =
    let ms = t % 1000 in
    let t' = t / 1000 in
    let h = t' / 3600 in
    let m = (t' - 3600 * h) / 60 in
    let s = t' - 3600 * h - m * 60 in
    let out₁ = if is_set h then scnprintf size (decimal h ++ codes "h") else [] in
    let out₂ =
      if is_set m || is_set h && (is_set s || is_set ms)
      then out₁ ++ scnprintf (size - length out₁) (decimal m ++ codes "m")
      else out₁ in
    let out₃ =
      if is_set s || (is_set h || is_set m) && is_set ms
      then out₂ ++ scnprintf (size - length out₂) (decimal s ++ codes "s")
      else out₂ in
    if is_set ms then out₃ ++ scnprintf (size - length out₃) (decimal ms ++ codes "ms") else out₃

time_to_str_gap : time_to_str 100 3605004 ≡ codes "1h0m5s4ms"
unfolding time_to_str decimal
time_to_str_gap = refl
