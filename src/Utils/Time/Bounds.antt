-- ===== src/Utils/Time/Bounds.antt =====
-- The time that is read fits the function's result type.
use linux_hardware_devices_e.Prelude.{
  ℕ, ◌+◌, ◌*◌, ◌%◌, ◌^◌, ◌≤◌, List, [], ◌∷◌, arith, Bytes, length, drop,
}
use linux_hardware_devices_e.Consts.{uint_max}
use linux_hardware_devices_e.Utils.Kernel.{KernelLib}
use linux_hardware_devices_e.Utils.Time.{Pattern, finish, pattern_table, scan_units, str_to_time}

module _ (lib : KernelLib) where
  open lib use {simple_strtoull}

  scan_units-le :
      (ps : List Pattern) (str s : Bytes) (n : ℕ) (ep : Bytes) (ret : ℕ)
      → (scan_units lib ps str s n ep ret).0 ≤ uint_max
  unfolding scan_units finish
  scan_units-le [] str s n ep ret = ground arith
  scan_units-le (p ∷ ps) str s n ep ret =
      let total = (ret + n * p.mult) % 2 ^ 64 in
      let s' = drop (length p.unit) ep in
      let next = simple_strtoull s' in
      ground (arith, scan_units-le ps str s n ep ret, scan_units-le ps str s' next.0 next.1 total)

  pub str_to_time-le : (s : Bytes) → (str_to_time lib s).0 ≤ uint_max
  unfolding str_to_time
  str_to_time-le s =
      ground (arith, scan_units-le pattern_table s s (simple_strtoull s).0 (simple_strtoull s).1 0)
