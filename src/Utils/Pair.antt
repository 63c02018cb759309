-- ===== src/Utils/Pair.antt =====
-- struct hwe_pair of kernel/hwemu.h, str_to_pair() and pair_to_str() of kernel/hwe_utils.c, and
-- strnchr() of tests/kernel_utils.c. A buffer with its size is the list of the bytes in use.
pub mod Valid
pub mod Print
pub mod RoundTrip
pub mod Samples
use linux_hardware_devices_e.Prelude.{
  ℕ, zero, suc, ◌+◌, ◌-◌, ◌*◌, ◌/◌, ◌%◌, ◌^◌, Bool, true, false, not, ◌&&◌, ◌||◌, [], ◌∷◌, ◌++◌,
  Option, none, some, Bytes, codes, beq, ltb, ◌==◌, length, take, drop, if◌then◌else◌,
}
use linux_hardware_devices_e.Consts.{hwe_max_request, hwe_max_response, hwe_max_pair_str}
use linux_hardware_devices_e.Utils.Kernel.{KernelLib}
use linux_hardware_devices_e.Utils.Hex.{hex2bin, bin2hex, is_hex_str}
use linux_hardware_devices_e.Utils.Time.{char, str_to_time, time_to_str}

-- `req_size` and `resp_size` are the lengths. The pair's device is the one whose list holds it.
pub record HwePair : Type 0 where
  pub req : Bytes
  pub resp : Bytes
  pub index : ℕ
  pub filename : Bytes
  pub async_rx : Bool
  pub period_ms : ℕ
  pub period : ℕ
  pub time : ℕ

-- The messages of str_to_pair().
pub data PairError : Type 0 where
  empty_string missing_eq empty_request long_request odd_request bad_request : PairError
  bad_definition empty_response long_response odd_response bad_response : PairError

pub data Parsed {ℓ} (A : Type ℓ) : Type ℓ where
  ok : A → Parsed A
  err : PairError → Parsed A

infixl 5 ◌>>=◌
abbrev pub ◌>>=◌ {ℓ κ} : {A : Type ℓ} {B : Type κ} → Parsed A → (A → Parsed B) → Parsed B
ok a >>= f = f a
err e >>= f = err e

-- The text from the byte that is found on. A text ends with a NUL.
pub strnchr : Bytes → ℕ → ℕ → Option Bytes
strnchr s zero c = none
strnchr [] (suc count) c = if 0 == c then some [] else none
strnchr (x ∷ s) (suc count) c =
    let rest = strnchr s count c in if x == c then some (x ∷ s) else if x == 0 then none else rest

or_err {ℓ} : {A : Type ℓ} → Option A → PairError → Parsed A
or_err none e = err e
or_err (some a) e = ok a

-- What both halves of the pair are checked and converted by, with their own messages.
check_hex : ℕ → PairError → PairError → PairError → Bytes → ℕ → Parsed Bytes
unfolding or_err
check_hex limit long odd bad s sz =
    if ltb (limit * 2) sz
    then err long
    else if not (sz % 2 == 0)
    then err odd
    else or_err (hex2bin (sz / 2) s) bad

-- The length in front of a newline, or of the whole text.
up_to_newline : Bytes → ℕ
up_to_newline s = elim (strnchr s (length s) b'\n') [
  | none ↦ length s
  | some e ↦ length s - length e
]

-- The part behind the '='; a newline may end it.
parse_response : Bytes → HwePair → Parsed HwePair
parse_response s pair = do
  let sz = up_to_newline s
  if sz == 0 then err empty_response else do
    resp ← check_hex hwe_max_response long_response odd_response bad_response s sz
    ok (record pair { resp = resp })

module _ (lib : KernelLib) where
  open lib use {msecs_to_jiffies}

  timer_request : Bytes → HwePair → Parsed HwePair
  timer_request s pair =
      let s' = if beq (take 6 s) (codes "timer:") then drop 6 s else s in
      let time = str_to_time lib s' in
      if time.0 == 0 || not (char time.1 == b'=')
      then err bad_definition
      else ok (record pair {
        req = [];
        async_rx = true;
        period_ms = time.0;
        period = msecs_to_jiffies time.0;
        time = 0;
      })

  -- The part in front of the '=', `sz` bytes of `s`.
  parse_request : Bytes → ℕ → HwePair → Parsed HwePair
  parse_request s sz pair =
      if sz == 0
      then err empty_request
      else if is_hex_str s sz
      then (do
        req ← check_hex hwe_max_request long_request odd_request bad_request s sz
        ok (record pair { req = req; async_rx = false }))
      else timer_request s pair

  -- The buffer holds `str`, `str_size` is its length, and a NUL stands behind it.
  pub str_to_pair : Bytes → HwePair → Parsed HwePair
  str_to_pair str pair = if length str == 0 then err empty_string else do
    e ← or_err (strnchr str (length str) b'=') missing_eq
    keyed ← parse_request str (length str - length e) pair
    parse_response (drop 1 e) keyed

-- The text in `buf`, or one of the two messages.
pub data Printed : Type 0 where
  text : Bytes → Printed
  request_range response_range : Printed

out_of_range : ℕ → ℕ → Bool
out_of_range size limit = ltb size 1 || ltb limit size

-- The text that is written in front of the '='; `buf` has room for `hwe_max_pair_str + 1` bytes.
pub print_request : HwePair → Bytes
print_request pair =
    if pair.async_rx
    then codes "timer:" ++ time_to_str (hwe_max_pair_str + 1 - 6) (pair.period_ms % 2 ^ 32)
    else bin2hex pair.req

unfoldable pub pair_to_str : HwePair → Printed
unfolding out_of_range print_request
pair_to_str pair =
    if not pair.async_rx && out_of_range (length pair.req) hwe_max_request
    then request_range
    else if out_of_range (length pair.resp) hwe_max_response
    then response_range
    else text (print_request pair ++ b'=' ∷ bin2hex pair.resp)
