-- ===== src/Utils/Time/Layout.antt =====
-- How hwe_time_to_str() lays out a time, with no part cut off in a buffer of 300 bytes or more.
use linux_hardware_devices_e.Prelude.{
  ℕ, zero, suc, ◌+◌, ◌-◌, ◌*◌, ◌/◌, ◌%◌, ◌<◌, ◌≤◌, ◌≡◌, refl, Bool, true, false, ◌&&◌, ◌||◌, ◌⊎◌,
  inl, All-append, All-map, [], ◌++◌, append_assoc, arith, Bytes, decimal, All, IsDigit,
  decimal-IsDigit, length-decimal, length, length-append, take_all, if◌then◌else◌,
}
use linux_hardware_devices_e.Consts.{uint_max}
use linux_hardware_devices_e.Utils.Time.{
  Pattern, hours, minutes, seconds, milliseconds, scnprintf, is_set, time_to_str,
}

scnprintf_fits : (size : ℕ) (text : Bytes) → length text < size → scnprintf size text ≡ text
unfolding scnprintf
scnprintf_fits zero text h = elim h [ ]
scnprintf_fits (suc size) text h = take_all size text (omega arith)

-- The text of `time_to_str` with the four parts and the tests as arguments.
abbrev layout :
    Bool → Bool → Bool → Bool → (ℕ → Bytes → Bytes) → Bytes → Bytes → Bytes → Bytes → ℕ → Bytes
layout bh bm bs bms cut H M S MS size =
    let out₁ = if bh then cut size H else [] in
    let out₂ = if bm || bh && (bs || bms) then out₁ ++ cut (size - length out₁) M else out₁ in
    let out₃ = if bs || (bh || bm) && bms then out₂ ++ cut (size - length out₂) S else out₂ in
    if bms then out₃ ++ cut (size - length out₃) MS else out₃

abbrev whole : ℕ → Bytes → Bytes
whole size text = text

layout_fits :
    (bh bm bs bms : Bool) (H M S MS : Bytes) (size : ℕ)
    → length H + length M + length S + length MS < size
    → layout bh bm bs bms scnprintf H M S MS size ≡ layout bh bm bs bms whole H M S MS size
layout_fits true true true true H M S MS size h = grind (arith, scnprintf_fits, length-append)
layout_fits _ _ _ _ H M S MS size h = grind (arith, scnprintf_fits, length-append)

-- From the milliseconds, the seconds and the minutes on, with what follows.
abbrev pub tail_ms : Bool → Bytes → Bytes → Bytes
tail_ms bms MS rest = if bms then MS ++ rest else rest

abbrev pub tail_s : Bool → Bool → Bytes → Bytes → Bytes → Bytes
tail_s bs bms S MS rest = if bs || bms then S ++ tail_ms bms MS rest else rest

abbrev pub tail_m : Bool → Bool → Bool → Bytes → Bytes → Bytes → Bytes → Bytes
tail_m bm bs bms M S MS rest = if bm || (bs || bms) then M ++ tail_s bs bms S MS rest else rest

abbrev pub time_text : Bool → Bool → Bool → Bool → Bytes → Bytes → Bytes → Bytes → Bytes → Bytes
time_text bh bm bs bms H M S MS rest =
    if bh
    then H ++ tail_m bm bs bms M S MS rest
    else if bm
    then M ++ tail_s bs bms S MS rest
    else if bs
    then S ++ tail_ms bms MS rest
    else tail_ms bms MS rest

layout_text :
    (bh bm bs bms : Bool) (H M S MS : Bytes) (size : ℕ) (rest : Bytes)
    → layout bh bm bs bms whole H M S MS size ++ rest ≡ time_text bh bm bs bms H M S MS rest
layout_text true true true true H M S MS size rest = simp append_assoc
layout_text false false false false H M S MS size rest = refl
layout_text _ _ _ _ H M S MS size rest = grind (arith, append_assoc)

-- The four numbers of a time.
abbrev pub hour_of : ℕ → ℕ
hour_of t = t / 1000 / 3600

abbrev pub minute_of : ℕ → ℕ
minute_of t = (t / 1000 - 3600 * hour_of t) / 60

abbrev pub second_of : ℕ → ℕ
second_of t = t / 1000 - 3600 * hour_of t - minute_of t * 60

-- A number with its unit.
abbrev pub part : ℕ → Pattern → Bytes
part n p = decimal n ++ p.unit

abbrev pub text_of : ℕ → Bytes → Bytes
text_of t =
    time_text (is_set (hour_of t)) (is_set (minute_of t)) (is_set (second_of t)) (is_set (t % 1000))
      (part (hour_of t) hours) (part (minute_of t) minutes) (part (second_of t) seconds)
      (part (t % 1000) milliseconds)

parts_short :
    (t : ℕ)
    → t ≤ uint_max
    → length (part (hour_of t) hours)
        + length (part (minute_of t) minutes)
        + length (part (second_of t) seconds)
        + length (part (t % 1000) milliseconds)
      < 300
parts_short t h =
    let H = length-decimal (hour_of t) in
    let M = length-decimal (minute_of t) in
    let S = length-decimal (second_of t) in
    let MS = length-decimal (t % 1000) in
    rw (length-append, length-append, length-append, length-append) (omega arith)

-- A digit or a lower case letter.
abbrev pub IsAlnum : ℕ → Type 0
IsAlnum c = IsDigit c ⊎ ((b'a' ≤ c) × (c ≤ b'z'))

part-IsAlnum : (n : ℕ) (p : Pattern) → All IsAlnum p.unit → All IsAlnum (part n p)
part-IsAlnum n p h =
    All-append IsAlnum (decimal n) p.unit
      (All-map IsDigit IsAlnum (decimal n) (λ c d. inl d) (decimal-IsDigit n)) h

layout-IsAlnum :
    (bh bm bs bms : Bool) (H M S MS : Bytes) (size : ℕ)
    → All IsAlnum H
    → All IsAlnum M
    → All IsAlnum S
    → All IsAlnum MS
    → All IsAlnum (layout bh bm bs bms whole H M S MS size)
layout-IsAlnum true true true true H M S MS size hh hm hs hms = grind (arith, All-append)
layout-IsAlnum false false false false H M S MS size hh hm hs hms = tt
layout-IsAlnum _ _ _ _ H M S MS size hh hm hs hms = grind (arith, All-append)

length-layout :
    (bh bm bs bms : Bool) (H M S MS : Bytes) (size : ℕ)
    → length (layout bh bm bs bms whole H M S MS size) ≤ length H + length M + length S + length MS
length-layout true true true true H M S MS size = grind (arith, length-append)
length-layout _ _ _ _ H M S MS size = grind (arith, length-append)

module _ (size t : ℕ) (room : 300 ≤ size) (fits : t ≤ uint_max) where
  time_to_str-layout :
      time_to_str size t
      ≡ layout
          (is_set (hour_of t))
          (is_set (minute_of t))
          (is_set (second_of t))
          (is_set (t % 1000))
          whole
          (part (hour_of t) hours)
          (part (minute_of t) minutes)
          (part (second_of t) seconds)
          (part (t % 1000) milliseconds)
          size
  unfolding time_to_str
  time_to_str-layout =
      layout_fits (is_set (hour_of t)) (is_set (minute_of t)) (is_set (second_of t))
        (is_set (t % 1000)) (part (hour_of t) hours) (part (minute_of t) minutes)
        (part (second_of t) seconds) (part (t % 1000) milliseconds) size
        (omega (arith, parts_short t fits))

  pub time_to_str-append : (rest : Bytes) → time_to_str size t ++ rest ≡ text_of t rest
  time_to_str-append rest = rw time_to_str-layout (
      layout_text (is_set (hour_of t)) (is_set (minute_of t)) (is_set (second_of t))
        (is_set (t % 1000)) (part (hour_of t) hours) (part (minute_of t) minutes)
        (part (second_of t) seconds) (part (t % 1000) milliseconds) size rest)

  pub time_to_str-IsAlnum : All IsAlnum (time_to_str size t)
  time_to_str-IsAlnum = rw time_to_str-layout (
      layout-IsAlnum (is_set (hour_of t)) (is_set (minute_of t)) (is_set (second_of t))
        (is_set (t % 1000)) (part (hour_of t) hours) (part (minute_of t) minutes)
        (part (second_of t) seconds) (part (t % 1000) milliseconds) size
        (part-IsAlnum _ hours (omega arith)) (part-IsAlnum _ minutes (omega arith))
        (part-IsAlnum _ seconds (omega arith)) (part-IsAlnum _ milliseconds (omega arith)))

  pub length-time_to_str : length (time_to_str size t) < 300
  length-time_to_str = rw time_to_str-layout (
      omega (
        arith,
        length-layout (is_set (hour_of t)) (is_set (minute_of t)) (is_set (second_of t))
            (is_set (t % 1000)) (part (hour_of t) hours) (part (minute_of t) minutes)
            (part (second_of t) seconds) (part (t % 1000) milliseconds) size,
        parts_short t fits,
      ))
