-- ===== src/Utils/Pair/Valid.antt =====
-- The pairs that the parser makes, and that it makes no other.
use linux_hardware_devices_e.Prelude.{
  ℕ, ◌<◌, ◌≤◌, ◌/◌, ◌≡◌, refl, true, false, Bool-cases, inl, inr, arith, Bytes, IsByte, All, length,
  Option-cases, drop, ◌-◌, ◌==◌,
}
use linux_hardware_devices_e.Consts.{hwe_max_request, hwe_max_response, uint_max}
use linux_hardware_devices_e.Utils.Kernel.{KernelLib}
use linux_hardware_devices_e.Utils.Hex.{hex2bin}
use linux_hardware_devices_e.Utils.Hex.RoundTrip.{hex2bin_sound}
use linux_hardware_devices_e.Utils.Time.Bounds.{str_to_time-le}
use linux_hardware_devices_e.Utils.Pair.{
  HwePair, missing_eq, Parsed, ok, err, ◌>>=◌, strnchr, or_err, up_to_newline, check_hex,
  timer_request, parse_request, parse_response, str_to_pair,
}

pub record IsValidRequest (p : HwePair) : Type 0 where
  pub req_bytes : All IsByte p.req
  pub sync : p.async_rx ≡ false → (0 < length p.req) × (length p.req ≤ hwe_max_request)
  pub async : p.async_rx ≡ true → (0 < p.period_ms) × (p.period_ms ≤ uint_max) × (length p.req ≡ 0)

pub record IsValid (p : HwePair) : Type 0 where
  pub request : IsValidRequest p
  pub open request use *
  pub resp_bytes : All IsByte p.resp
  pub resp_size : (0 < length p.resp) × (length p.resp ≤ hwe_max_response)

-- A chain that parses has a first step that does, and goes on from its result.
pub parsed_chain {ℓ κ} :
    {A : Type ℓ} {B : Type κ} (first : Parsed A) (next : A → Parsed B) {b : B}
    → (first >>= next) ≡ ok b
    → (a : A) × (first ≡ ok a) × (next a ≡ ok b)
parsed_chain (ok a) next h = (a, refl, h)
parsed_chain (err e) next h = cc

module _ (lib : KernelLib) where
  timer_request_sound :
      (s : Bytes) (q p : HwePair) → timer_request lib s q ≡ ok p → IsValidRequest p
  unfolding timer_request
  timer_request_sound s q p h = ground (arith, str_to_time-le lib (drop 6 s), str_to_time-le lib s)

  parse_request_sound :
      (s : Bytes) (sz : ℕ) (q p : HwePair) → parse_request lib s sz q ≡ ok p → IsValidRequest p
  unfolding parse_request check_hex
  parse_request_sound s sz q p h = elim (Option-cases (hex2bin (sz / 2) s)) [
    | inl e ↦ ground (arith, timer_request_sound s q p)
    | inr (bs, e) ↦ ground (arith, hex2bin_sound (sz / 2) s bs e, timer_request_sound s q p)
  ]

parse_response_sound :
    (s : Bytes) (q p : HwePair) → parse_response s q ≡ ok p → IsValidRequest q → IsValid p
unfolding parse_response check_hex
parse_response_sound s q p h v = elim (Option-cases (hex2bin (up_to_newline s / 2) s)) [
  | inl e ↦ ground arith
  | inr (bs, e) ↦ ground (arith, hex2bin_sound (up_to_newline s / 2) s bs e)
]

module _ (lib : KernelLib) (str : Bytes) (q p : HwePair)
    (parsed : str_to_pair lib str q ≡ ok p) where
  -- Every pair that is accepted has a request and a response of one byte to the limit, or no
  -- request and a period of 1 to UINT_MAX milliseconds.
  pub str_to_pair-IsValid : IsValid p
  unfolding str_to_pair
  str_to_pair-IsValid = elim (Bool-cases (length str == 0)) [
    | inl e ↦ ground arith
    | inr e ↦
        let (eq, _, h₁) =
          parsed_chain (or_err (strnchr str (length str) b'=') missing_eq) _ (rw e at parsed) in
        let (keyed, e₂, h₂) =
          parsed_chain (parse_request lib str (length str - length eq) q) _ h₁ in
        parse_response_sound (drop 1 eq) keyed p h₂ (parse_request_sound lib str _ q keyed e₂)
  ]

  pub str_to_pair_nonempty : (length str == 0) ≡ false
  unfolding str_to_pair
  str_to_pair_nonempty = elim (Bool-cases (length str == 0)) [ inl e ↦ ground arith | inr e ↦ e ]
