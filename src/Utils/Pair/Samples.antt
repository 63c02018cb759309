-- ===== src/Utils/Pair/Samples.antt =====
-- Texts that the parser is run on.
use linux_hardware_devices_e.Prelude.{◌≡◌, refl, true, false, [], ◌∷◌, Bytes, codes}
use linux_hardware_devices_e.Utils.Pair.{
  HwePair, Parsed, strnchr, or_err, up_to_newline, check_hex, timer_request, parse_request,
  parse_response, str_to_pair,
}
use linux_hardware_devices_e.Utils.Hex.{hex2bin, is_hex_str}
use linux_hardware_devices_e.Tests.Plain.{plain}

-- Memory that holds nothing of use.
abbrev pub memory : HwePair
memory = record {
  req = [];
  resp = [];
  index = 7;
  filename = [];
  async_rx = true;
  period_ms = 1;
  period = 1;
  time = 5;
}

abbrev pub sync_pair : HwePair
sync_pair = record memory { req = 1 ∷ 171 ∷ []; resp = 255 ∷ []; async_rx = false }

abbrev pub sync_text : Bytes
sync_text = codes "01ab=FF"

pub sync_text_parsed : str_to_pair plain sync_text memory ≡ Parsed.ok sync_pair
unfolding str_to_pair or_err strnchr up_to_newline check_hex timer_request parse_request
    parse_response hex2bin is_hex_str
sync_text_parsed = refl
