-- ===== src/Tests/Pairs.antt =====
-- Pairs as texts and back.
use linux_hardware_devices_e.Prelude.{
  ◌≡◌, ◌≤◌, refl, true, [], ◌∷◌, ◌++◌, arith, Bytes, codes, length,
}
use linux_hardware_devices_e.Consts.{hwe_max_pair_str}
use linux_hardware_devices_e.Utils.Pair.{HwePair, Parsed, str_to_pair, pair_to_str, text}
use linux_hardware_devices_e.Utils.Pair.Valid.{IsValid, str_to_pair-IsValid}
use linux_hardware_devices_e.Utils.Pair.RoundTrip.{reparsed, str_to_pair-pair_to_str}
use linux_hardware_devices_e.Utils.Time.{str_to_time, time_to_str}
use linux_hardware_devices_e.Utils.Time.RoundTrip.{str_to_time-time_to_str}
use linux_hardware_devices_e.Utils.Pair.Samples.{memory, sync_pair, sync_text, sync_text_parsed}
use linux_hardware_devices_e.Tests.Plain.{plain}

abbrev pub timer_pair : HwePair
timer_pair = record {
  req = [];
  resp = 16 ∷ [];
  index = 0;
  filename = [];
  async_rx = true;
  period_ms = 3661001;
  period = 0;
  time = 0;
}

pub timer_pair-IsValid : IsValid timer_pair
timer_pair-IsValid = record {
  request = record {
    req_bytes = tt;
    sync = λ e. absurd (cc);
    async = λ e. (omega arith, omega arith, refl);
  };
  resp_bytes = (omega arith, tt);
  resp_size = (omega arith, omega arith);
}

str_to_pair-pair_to_str_example :
    (s : Bytes) × (pair_to_str timer_pair ≡ text s)
    × (length s ≤ hwe_max_pair_str)
    × (str_to_pair plain s memory ≡ Parsed.ok (reparsed plain timer_pair memory))
str_to_pair-pair_to_str_example = str_to_pair-pair_to_str plain timer_pair memory timer_pair-IsValid

str_to_pair-IsValid_example : IsValid sync_pair
str_to_pair-IsValid_example = str_to_pair-IsValid plain sync_text memory sync_pair sync_text_parsed

str_to_time-time_to_str_example :
    str_to_time plain (time_to_str 300 3661001 ++ b'=' ∷ codes "10") ≡ (3661001, b'=' ∷ codes "10")
str_to_time-time_to_str_example =
    str_to_time-time_to_str plain 300 3661001 (codes "10") (omega arith) (omega arith) (omega arith)
