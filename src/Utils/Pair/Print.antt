-- ===== src/Utils/Pair/Print.antt =====
-- The printed text: its bytes, its length, and where strnchr() finds the '='.
use linux_hardware_devices_e.Prelude.{
  ℕ, zero, suc, ◌+◌, ◌<◌, ◌≤◌, ◌≡◌, ◌≢◌, refl, true, false, [], ◌∷◌, ◌++◌, none, some, arith, Bytes,
  codes, All, All-append, All-map, length, length-append, ◌-◌, ◌%◌, ◌^◌, Bool-cases, inl, inr,
}
use linux_hardware_devices_e.Consts.{hwe_max_pair_str}
use linux_hardware_devices_e.Utils.Hex.{bin2hex, isxdigit}
use linux_hardware_devices_e.Utils.Hex.RoundTrip.{length-bin2hex, bin2hex-isxdigit}
use linux_hardware_devices_e.Utils.Time.{time_to_str}
use linux_hardware_devices_e.Utils.Time.Layout.{time_to_str-IsAlnum, length-time_to_str, IsAlnum}
use linux_hardware_devices_e.Utils.Pair.{HwePair, strnchr, print_request, pair_to_str, text}
use linux_hardware_devices_e.Utils.Pair.Valid.{IsValid}

-- A byte at which strnchr() goes on.
abbrev pub Passes : ℕ → ℕ → Type 0
Passes c x = (x ≢ c) × (x ≢ 0)

pub strnchr_found :
    (xs ys : Bytes) (n c : ℕ)
    → All (Passes c) xs
    → length xs < n
    → strnchr (xs ++ c ∷ ys) n c ≡ some (c ∷ ys)
unfolding strnchr
strnchr_found xs ys zero c h lt = elim lt [ ]
strnchr_found [] ys (suc n) c h lt = ground arith
strnchr_found (x ∷ xs) ys (suc n) c h lt = ground (arith, strnchr_found xs ys n c h.1)

pub strnchr_missing :
    (xs : Bytes) (n c : ℕ) → All (Passes c) xs → n ≤ length xs → strnchr xs n c ≡ none
unfolding strnchr
strnchr_missing xs zero c h le = refl
strnchr_missing [] (suc n) c h le = elim le [ ]
strnchr_missing (x ∷ xs) (suc n) c h le = ground (arith, strnchr_missing xs n c h.1)

pub bin2hex-Passes : (c : ℕ) (bs : Bytes) → isxdigit c ≡ false → All (Passes c) (bin2hex bs)
bin2hex-Passes c bs h =
    All-map (λ x. isxdigit x ≡ true) (Passes c) (bin2hex bs) (λ x hx. ground (arith, h))
      (bin2hex-isxdigit bs)

alnum-Passes : (xs : Bytes) → All IsAlnum xs → All (Passes b'=') xs
alnum-Passes xs = All-map IsAlnum (Passes b'=') xs (λ x hx. omega arith)

pub print_request-Passes : (p : HwePair) → All (Passes b'=') (print_request p)
unfolding print_request
print_request-Passes p = elim (Bool-cases p.async_rx) [
  | inl e ↦
      let size = hwe_max_pair_str + 1 - 6 in
      let t = p.period_ms % 2 ^ 32 in
      rw e (
        All-append (Passes b'=') (codes "timer:") (time_to_str size t) (omega arith)
          (alnum-Passes _ (time_to_str-IsAlnum size t (omega arith) (omega arith))))
  | inr e ↦ rw e (bin2hex-Passes b'=' p.req refl)
]

module _ (p : HwePair) (v : IsValid p) where
  -- A pair that the parser makes is printed, never refused.
  pub pair_to_str_text : pair_to_str p ≡ text (print_request p ++ b'=' ∷ bin2hex p.resp)
  unfolding pair_to_str
  pair_to_str_text = ground (arith, v.sync, v.async)

  -- The text and its NUL fit the static buffer.
  pub length-print_request-le : length (print_request p ++ b'=' ∷ bin2hex p.resp) ≤ hwe_max_pair_str
  unfolding print_request
  length-print_request-le =
      let size = hwe_max_pair_str + 1 - 6 in
      let t = p.period_ms % 2 ^ 32 in
      rw (length-append) (
        ground (
          arith,
          v.sync,
          length-bin2hex p.req,
          length-bin2hex p.resp,
          length-time_to_str size t (omega arith) (omega arith),
        ))
