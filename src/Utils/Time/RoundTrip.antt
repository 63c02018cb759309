-- ===== src/Utils/Time/RoundTrip.antt =====
-- A printed time is read back.
use linux_hardware_devices_e.Prelude.{
  ℕ, zero, suc, ◌+◌, ◌*◌, ◌%◌, ◌^◌, ◌<◌, ◌≤◌, ◌≡◌, ◌≢◌, refl, ap, ◌∙◌, true, false, ◌||◌, inl, inr,
  List, [], ◌∷◌, ◌++◌, append_assoc, arith, Bytes, codes, decimal, All, IsDigit, value-decimal,
  decimal-IsDigit, decimal-ne-nil, length-decimal, beq, beq_refl, ◌==◌, length-append,
  take-append_self, drop-append_self, get_or-append_self, Bool-cases, le→ltb,
}
use linux_hardware_devices_e.Consts.{uint_max}
use linux_hardware_devices_e.Utils.Kernel.{KernelLib, Stops}
use linux_hardware_devices_e.Utils.Time.Layout.{
  tail_ms, tail_s, tail_m, time_text, hour_of, minute_of, second_of, part, time_to_str-append,
}
use linux_hardware_devices_e.Utils.Time.{
  char, Pattern, hours, minutes, seconds, milliseconds, pattern_table, finish, matches, scan_units,
  str_to_time, is_set, time_to_str,
}

head_IsDigit : (xs rest : Bytes) → xs ≢ [] → All IsDigit xs → IsDigit (char (xs ++ rest))
head_IsDigit [] rest ne h = absurd (ne refl)
head_IsDigit (x ∷ xs) rest ne h = h.0

module _ (lib : KernelLib) where
  open lib use {simple_strtoull, isalpha, strtoull_digits, isalpha_ascii}

  strtoull_decimal :
      (n : ℕ) (rest : Bytes)
      → n < 2 ^ 64
      → Stops rest
      → simple_strtoull (decimal n ++ rest) ≡ (n, rest)
  strtoull_decimal n rest h stop = rw (
    strtoull_digits (decimal n) rest (decimal-ne-nil n) (decimal-IsDigit n) (rw value-decimal h)
        stop,
    value-decimal,
  )

  -- The unit stands in front of a text that goes on with no letter.
  matches_unit :
      (p : Pattern) (rest : Bytes)
      → isalpha (char rest) ≡ false
      → matches lib p (p.unit ++ rest) ≡ true
  unfolding matches
  matches_unit p rest h =
      rw (take-append_self p.unit rest, beq_refl p.unit, get_or-append_self p.unit rest 0, h)

  module _ (p : Pattern) (ps : List Pattern) (str s : Bytes) (n ret : ℕ) (n_le : n ≤ p.max)
      (fits : ret + n * p.mult ≤ uint_max) where
    -- The last unit.
    scan_units_last :
        (rest : Bytes)
        → scan_units lib (p ∷ ps) str s n (p.unit ++ b'=' ∷ rest) ret
          ≡ (ret + n * p.mult, b'=' ∷ rest)
    unfolding scan_units finish
    scan_units_last rest =
        rw
          (
            matches_unit p (b'=' ∷ rest) (isalpha_ascii b'=' (omega arith)),
            drop-append_self p.unit (b'=' ∷ rest),
            le→ltb p.max n n_le,
          )
          (ground arith)

  decimal_no_alpha : (n : ℕ) (rest : Bytes) → isalpha (char (decimal n ++ rest)) ≡ false
  decimal_no_alpha n rest =
      let d = head_IsDigit (decimal n) rest (decimal-ne-nil n) (decimal-IsDigit n) in
      rw (isalpha_ascii (char (decimal n ++ rest)) (omega arith)) (ground arith)

  -- A unit that more units follow.
  scan_units_more :
      (p q : Pattern) (ps : List Pattern) (str s : Bytes) (n ret n' : ℕ) (rest : Bytes)
      → n ≤ p.max
      → ret + n * p.mult ≤ uint_max
      → n' < 2 ^ 64
      → Stops rest
      → scan_units lib (p ∷ q ∷ ps) str s n (p.unit ++ (decimal n' ++ rest)) ret
        ≡ scan_units lib (q ∷ ps) str (decimal n' ++ rest) n' rest (ret + n * p.mult)
  unfolding scan_units finish
  scan_units_more p q ps str s n ret n' rest n_le fits h stop =
      let d = head_IsDigit (decimal n') rest (decimal-ne-nil n') (decimal-IsDigit n') in
      let e : (ret + n * p.mult) % 2 ^ 64 ≡ ret + n * p.mult = omega arith in
      rw
        (
          matches_unit p (decimal n' ++ rest) (decimal_no_alpha n' rest),
          drop-append_self p.unit (decimal n' ++ rest),
          le→ltb p.max n n_le,
          strtoull_decimal n' rest h stop,
          e,
        )
        (ground (arith, length-append (decimal n') rest, length-decimal n'))

  str_to_time_start :
      (n : ℕ) (rest : Bytes)
      → n < 2 ^ 64
      → Stops rest
      → str_to_time lib (decimal n ++ rest)
        ≡ scan_units lib pattern_table (decimal n ++ rest) (decimal n ++ rest) n rest 0
  unfolding str_to_time
  str_to_time_start n rest h stop =
      rw (strtoull_decimal n rest h stop)
        (ground (arith, length-append (decimal n) rest, length-decimal n))

  scan_units_skip :
      (p : Pattern) (ps : List Pattern) (str s : Bytes) (n ret : ℕ) (ep : Bytes)
      → matches lib p ep ≡ false
      → scan_units lib (p ∷ ps) str s n ep ret ≡ scan_units lib ps str s n ep ret
  unfolding scan_units
  scan_units_skip p ps str s n ret ep h = rw h

  module _ (str r : Bytes) where
    rest : Bytes
    rest = b'=' ∷ r

    read_seconds :
        (x : Bytes) (s ms ret : ℕ)
        → s ≤ 59
        → ms ≤ 999
        → ret + s * 1000 + ms ≤ uint_max
        → scan_units lib
            (seconds ∷ milliseconds ∷ [])
            str
            x
            s
            (codes "s" ++ tail_ms (is_set ms) (part ms milliseconds) rest)
            ret
          ≡ (ret + s * 1000 + ms, rest)
    unfolding rest
    read_seconds x s ms ret hs hms fits = elim (Bool-cases (ms == 0)) [
      | inl e ↦ rw e (
          scan_units_last seconds (milliseconds ∷ []) str x s ret hs (omega arith) r
          ∙ ap (λ (t : ℕ). (t, b'=' ∷ r)) (ground arith))
      | inr e ↦
          rw (e, append_assoc)
            (scan_units_more seconds milliseconds [] str x s ret ms _ hs (omega arith) (omega arith)
                refl
              ∙ scan_units_last milliseconds [] str _ ms _ hms (omega arith) r
              ∙ ap (λ (t : ℕ). (t, b'=' ∷ r)) (omega arith))
    ]

    read_minutes :
        (x : Bytes) (m s ms ret : ℕ)
        → m ≤ 59
        → s ≤ 59
        → ms ≤ 999
        → ret + m * 60000 + s * 1000 + ms ≤ uint_max
        → scan_units lib
            (minutes ∷ seconds ∷ milliseconds ∷ [])
            str
            x
            m
            (codes "m"
              ++ tail_s (is_set s) (is_set ms) (part s seconds) (part ms milliseconds) rest)
            ret
          ≡ (ret + m * 60000 + s * 1000 + ms, rest)
    unfolding rest
    read_minutes x m s ms ret hm hs hms fits = elim (Bool-cases (is_set s || is_set ms)) [
      | inl e ↦
          rw (e, append_assoc)
            (scan_units_more minutes seconds (milliseconds ∷ []) str x m ret s _ hm (omega arith)
                (omega arith) refl
              ∙ read_seconds _ s ms (ret + m * 60000) hs hms fits)
      | inr e ↦ rw e (
          scan_units_last minutes (seconds ∷ milliseconds ∷ []) str x m ret hm (omega arith) r
          ∙ ap (λ (t : ℕ). (t, b'=' ∷ r)) (ground arith))
    ]

    read_hours :
        (x : Bytes) (h m s ms : ℕ)
        → h ≤ 2000
        → m ≤ 59
        → s ≤ 59
        → ms ≤ 999
        → h * 3600000 + m * 60000 + s * 1000 + ms ≤ uint_max
        → scan_units lib pattern_table str x h
            (codes "h"
              ++ tail_m
                  (is_set m)
                  (is_set s)
                  (is_set ms)
                  (part m minutes)
                  (part s seconds)
                  (part ms milliseconds)
                  rest)
            0
          ≡ (h * 3600000 + m * 60000 + s * 1000 + ms, rest)
    unfolding rest
    read_hours x h m s ms hh hm hs hms fits =
        elim (Bool-cases (is_set m || (is_set s || is_set ms))) [
          | inl e ↦
              rw (e, append_assoc)
                (scan_units_more hours minutes (seconds ∷ milliseconds ∷ []) str x h 0 m _
                    (omega arith) (omega arith) (omega arith) refl
                  ∙ read_minutes _ m s ms (0 + h * 3600000) hm hs hms (omega arith)
                  ∙ ap (λ (t : ℕ). (t, b'=' ∷ r)) (omega arith))
          | inr e ↦ rw e (
              scan_units_last hours (minutes ∷ seconds ∷ milliseconds ∷ []) str x h 0 (omega arith)
                (omega arith) r
              ∙ ap (λ (t : ℕ). (t, b'=' ∷ r)) (ground arith))
        ]

  unit_ne :
      (rest : Bytes)
      → (matches lib hours (codes "m" ++ rest) ≡ false)
        × (matches lib hours (codes "s" ++ rest) ≡ false)
        × (matches lib minutes (codes "s" ++ rest) ≡ false)
        × (matches lib hours (codes "ms" ++ rest) ≡ false)
        × (matches lib minutes (codes "ms" ++ rest) ≡ false)
        × (matches lib seconds (codes "ms" ++ rest) ≡ false)
  unfolding matches beq
  unit_ne rest = (refl, refl, refl, refl, rw (isalpha_ascii b's' (omega arith)), refl)

  is_set-suc : (n : ℕ) → is_set (suc n) ≡ true
  is_set-suc n = ground arith

  read_text :
      (h m s ms : ℕ) (r : Bytes)
      → h ≤ 2000
      → m ≤ 59
      → s ≤ 59
      → ms ≤ 999
      → h * 3600000 + m * 60000 + s * 1000 + ms ≤ uint_max
      → 0 < h + m + s + ms
      → str_to_time lib (
          time_text
            (is_set h)
            (is_set m)
            (is_set s)
            (is_set ms)
            (part h hours)
            (part m minutes)
            (part s seconds)
            (part ms milliseconds)
            (b'=' ∷ r))
        ≡ (h * 3600000 + m * 60000 + s * 1000 + ms, b'=' ∷ r)
  unfolding rest
  read_text (suc h) m s ms r hh hm hs hms fits set =
      rw (is_set-suc h, append_assoc)
        (str_to_time_start (suc h) _ (omega arith) refl
          ∙ read_hours _ r _ (suc h) m s ms hh hm hs hms fits)
  read_text zero (suc m) s ms r hh hm hs hms fits set =
      rw (is_set-suc m, append_assoc)
        (str_to_time_start (suc m) _ (omega arith) refl
          ∙ scan_units_skip hours _ _ _ _ _ _ (unit_ne _).0
          ∙ read_minutes _ r _ (suc m) s ms 0 hm hs hms (omega arith)
          ∙ ap (λ (n : ℕ). (n, b'=' ∷ r)) (omega arith))
  read_text zero zero (suc s) ms r hh hm hs hms fits set =
      rw (is_set-suc s, append_assoc)
        (str_to_time_start (suc s) _ (omega arith) refl
          ∙ scan_units_skip hours _ _ _ _ _ _ (unit_ne _).1
          ∙ scan_units_skip minutes _ _ _ _ _ _ (unit_ne _).2
          ∙ read_seconds _ r _ (suc s) ms 0 hs hms (omega arith)
          ∙ ap (λ (n : ℕ). (n, b'=' ∷ r)) (omega arith))
  read_text zero zero zero (suc ms) r hh hm hs hms fits set =
      rw (is_set-suc ms, append_assoc)
        (str_to_time_start (suc ms) _ (omega arith) refl
          ∙ scan_units_skip hours _ _ _ _ _ _ (unit_ne _).3
          ∙ scan_units_skip minutes _ _ _ _ _ _ (unit_ne _).4
          ∙ scan_units_skip seconds _ _ _ _ _ _ (unit_ne _).5
          ∙ scan_units_last milliseconds [] _ _ (suc ms) 0 hms (omega arith) r
          ∙ ap (λ (n : ℕ). (n, b'=' ∷ r)) (omega arith))
  read_text zero zero zero zero r hh hm hs hms fits set = absurd (omega arith)

  -- Every time from one millisecond to UINT_MAX, printed into a buffer of at least 300 bytes, is read
  -- back from any text that begins with the print and goes on with '='.
  pub str_to_time-time_to_str :
      (size t : ℕ) (r : Bytes)
      → 300 ≤ size
      → 0 < t
      → t ≤ uint_max
      → str_to_time lib (time_to_str size t ++ b'=' ∷ r) ≡ (t, b'=' ∷ r)
  str_to_time-time_to_str size t r hs pos_t fits =
      rw (time_to_str-append size t hs fits (b'=' ∷ r)) (
        read_text (hour_of t) (minute_of t) (second_of t) (t % 1000) r (omega arith) (omega arith)
          (omega arith) (omega arith) (omega arith) (omega arith)
        ∙ ap (λ (n : ℕ). (n, b'=' ∷ r)) (omega arith))
