-- ===== src/Utils/Pair/RoundTrip.antt =====
-- A printed pair is read back.
use linux_hardware_devices_e.Prelude.{
  ℕ, zero, suc, ◌+◌, ◌-◌, ◌*◌, ◌/◌, ◌%◌, ◌^◌, ◌<◌, ◌≤◌, ◌≡◌, refl, true, false, inl, inr, [], ◌∷◌,
  ◌++◌, append-nil, arith, Bytes, IsByte, codes, beq, All, length, length-append, ◌==◌,
  if◌then◌else◌, Bool-cases,
}
use linux_hardware_devices_e.Consts.{hwe_max_request, hwe_max_response, hwe_max_pair_str}
use linux_hardware_devices_e.Utils.Kernel.{KernelLib}
use linux_hardware_devices_e.Utils.Hex.{bin2hex, is_hex_str}
use linux_hardware_devices_e.Utils.Hex.RoundTrip.{
  hex2bin-bin2hex, length-bin2hex, is_hex_str-bin2hex,
}
use linux_hardware_devices_e.Utils.Time.{time_to_str}
use linux_hardware_devices_e.Utils.Time.RoundTrip.{str_to_time-time_to_str}
use linux_hardware_devices_e.Utils.Pair.{
  HwePair, PairError, long_response, odd_response, bad_response, long_request, odd_request,
  bad_request, text, ok, or_err, up_to_newline, check_hex, timer_request, parse_request,
  parse_response, print_request, str_to_pair, pair_to_str,
}
use linux_hardware_devices_e.Utils.Pair.Valid.{IsValid}
use linux_hardware_devices_e.Utils.Pair.Print.{
  strnchr_found, strnchr_missing, bin2hex-Passes, print_request-Passes, pair_to_str_text,
  length-print_request-le,
}

check_hex-bin2hex :
    (limit : ℕ) (long odd bad : PairError) (bs rest : Bytes)
    → All IsByte bs
    → length bs ≤ limit
    → check_hex limit long odd bad (bin2hex bs ++ rest) (length bs * 2) ≡ ok bs
unfolding check_hex
check_hex-bin2hex limit long odd bad bs rest h le =
    let half : length bs * 2 / 2 ≡ length bs = omega arith in
    rw (half, hex2bin-bin2hex bs rest h) (ground arith)

up_to_newline-bin2hex : (bs : Bytes) → up_to_newline (bin2hex bs) ≡ length bs * 2
unfolding up_to_newline
up_to_newline-bin2hex bs =
    rw
      (
        strnchr_missing (bin2hex bs) (length (bin2hex bs)) b'\n' (bin2hex-Passes b'\n' bs refl)
            (omega arith),
        up_to_newline,
      )
      (length-bin2hex bs)

parse_response-bin2hex :
    (bs : Bytes) (q : HwePair)
    → All IsByte bs
    → (0 < length bs) × (length bs ≤ hwe_max_response)
    → parse_response (bin2hex bs) q ≡ ok (record q { resp = bs })
unfolding parse_response
parse_response-bin2hex bs q h size =
    let read =
      check_hex-bin2hex hwe_max_response long_response odd_response bad_response bs [] h size.1 in
    rw (up_to_newline-bin2hex bs) (ground (arith, read, append-nil (bin2hex bs)))

-- What the parser makes of the print of `p`, in the pair `q` that it fills.
abbrev pub keyed : KernelLib → HwePair → HwePair → HwePair
keyed lib p q =
    if p.async_rx
    then record q {
      req = [];
      async_rx = true;
      period_ms = p.period_ms;
      period = lib.msecs_to_jiffies p.period_ms;
      time = 0;
    }
    else record q { req = p.req; async_rx = false }

abbrev pub reparsed : KernelLib → HwePair → HwePair → HwePair
reparsed lib p q = record (keyed lib p q) { resp = p.resp }

module _ (lib : KernelLib) (p q : HwePair) (v : IsValid p) where
  tail : Bytes
  tail = b'=' ∷ bin2hex p.resp

  parse_request_sync :
      p.async_rx ≡ false
      → parse_request lib (bin2hex p.req ++ tail) (length p.req * 2) q
        ≡ ok (record q { req = p.req; async_rx = false })
  unfolding parse_request
  parse_request_sync sync =
      let read =
        check_hex-bin2hex hwe_max_request long_request odd_request bad_request p.req tail
          v.req_bytes (v.sync sync).1 in
      let hex = is_hex_str-bin2hex p.req tail in
      ground (arith, read, hex, length-bin2hex p.req, v.sync sync)

  parse_request_timer :
      p.async_rx ≡ true
      → (sz : ℕ) → 0 < sz
      → parse_request lib
          (codes "timer:" ++ time_to_str (hwe_max_pair_str + 1 - 6) (p.period_ms % 2 ^ 32) ++ tail)
          sz
          q
        ≡ ok (record q {
          req = [];
          async_rx = true;
          period_ms = p.period_ms;
          period = lib.msecs_to_jiffies p.period_ms;
          time = 0;
        })
  unfolding parse_request timer_request is_hex_str tail beq
  parse_request_timer async zero h = elim h [ ]
  parse_request_timer async (suc sz) h =
      let size = hwe_max_pair_str + 1 - 6 in
      let range = v.async async in
      let fits : p.period_ms % 2 ^ 32 ≡ p.period_ms = omega arith in
      let read =
        str_to_time-time_to_str lib size p.period_ms (bin2hex p.resp) (omega arith) range.0
          range.1 in
      rw (fits, read) (ground arith)

  printed : Bytes
  printed = print_request p ++ tail

  parse_request-printed :
      parse_request lib printed (length (print_request p)) q ≡ ok (keyed lib p q)
  unfolding printed print_request
  parse_request-printed = elim (Bool-cases p.async_rx) [
    | inl async ↦ rw async (
        parse_request_timer async
          (length (codes "timer:" ++ time_to_str (hwe_max_pair_str + 1 - 6) (p.period_ms % 2 ^ 32)))
          (omega arith))
    | inr sync ↦ rw (sync, length-bin2hex p.req) (parse_request_sync sync)
  ]

  print_request-ne-nil : 0 < length (print_request p)
  unfolding print_request
  print_request-ne-nil = ground (arith, v.sync, length-bin2hex p.req)

  -- A pair that is valid is printed; the text and its NUL fit the static buffer, and the text is
  -- read back as a pair with the same request or period, and the same response.
  pub str_to_pair-pair_to_str :
      (s : Bytes) × (pair_to_str p ≡ text s)
      × (length s ≤ hwe_max_pair_str)
      × (str_to_pair lib s q ≡ ok (reparsed lib p q))
  unfolding str_to_pair printed tail or_err
  str_to_pair-pair_to_str =
      let n = length (print_request p) in
      let total = length-append (print_request p) tail in
      let found =
        strnchr_found (print_request p) (bin2hex p.resp) (length printed) b'='
          (print_request-Passes p) (omega (arith, total)) in
      let request = parse_request-printed in
      let response = parse_response-bin2hex p.resp (keyed lib p q) v.resp_bytes v.resp_size in
      let sz : length printed - length tail ≡ n = omega (arith, total) in
      let nonempty : (length printed == 0) ≡ false = ground (arith, total, print_request-ne-nil) in
      (
        printed,
        pair_to_str_text p v,
        length-print_request-le p v,
        rw (nonempty, found, sz, request) response,
      )
