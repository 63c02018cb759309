-- ===== src/Spi/Transfer.antt =====
-- hwespi_transfer_one() of kernel/hwe_spi.c against a queue of the bytes that are still to be read.
use linux_hardware_devices_e.Prelude.{
  ℕ, ◌-◌, ◌≡◌, refl, ap, false, List, [], ◌++◌, Option, none, some, arith, Bytes, ◌==◌, length,
  take, drop, replicate, Bool-cases, Option-cases, inl, inr,
}
use linux_hardware_devices_e.Utils.Pair.{HwePair}
use linux_hardware_devices_e.Utils.Lookup.{find_pair}
use linux_hardware_devices_e.Response.{Response, chunk}
use linux_hardware_devices_e.Response.Pending.{
  pending, IsInside, length-pending, load-IsInside, pending-load, discard-IsInside,
  consume-IsInside, drop_nil, take_nil, chunk-le, read_bytes-chunk, pending-chunk,
}
use linux_hardware_devices_e.I2c.Master.{Fits, find_pair-Fits}
use linux_hardware_devices_e.Spi.{SpiTransfer, by_buffers, read_rx, answer, hwespi_transfer_one}

reply : Option HwePair → Bytes
reply none = []
reply (some pair) = pair.resp

-- A transfer that only writes fills the queue with the response to the request, or empties it; one
-- that only reads takes from the front of the queue and fills the buffer up with zeros; one that does
-- both empties the queue and reads zeros.
unfoldable pub queue_transfer :
    List HwePair → Bytes → ℕ → Option Bytes → Option Bytes → Bytes × Option Bytes
unfolding reply
queue_transfer pairs q len (some tx) (some rx) = ([], some (replicate len 0))
queue_transfer pairs q len none (some rx) =
    (drop len q, some (take len q ++ replicate (len - length q) 0))
queue_transfer pairs q len (some tx) none = (reply (find_pair pairs (take len tx)), none)
queue_transfer pairs q len none none = (q, none)

abbrev pub MatchesQueue : List HwePair → Response → SpiTransfer → Type 0
MatchesQueue pairs r t =
    let (r', t') = hwespi_transfer_one pairs r t in
    IsInside r'
    × ((pending r', t'.rx_buf) ≡ queue_transfer pairs (pending r) t.len t.tx_buf t.rx_buf)

read_matches :
    (r : Response) (len : ℕ)
    → IsInside r
    → IsInside (read_rx r len).0
      × ◌≡◌ {A = Bytes × Bytes}
          (pending (read_rx r len).0, (read_rx r len).1)
          (drop len (pending r), take len (pending r) ++ replicate (len - length (pending r)) 0)
unfolding read_rx
read_matches r len v = elim (Bool-cases (r.resp_size == 0)) [
  | inl t ↦
      (let empty : r.resp_size ≡ 0 = ground arith in
        let nothing : pending r ≡ [] = ap (λ n. take n (drop r.resp_ptr r.resp)) empty in
        let all : len ≡ len - 0 = omega arith in
        rw (t, nothing, drop_nil len, take_nil len) (v, ap (λ n. ([], replicate n 0)) all))
  | inr f ↦
      (let sz = chunk r len in
        let rest : len - sz ≡ len - length (pending r) = rw (length-pending r v) (ground arith) in
        rw (f) (
          consume-IsInside r sz v (chunk-le r len),
          rw (pending-chunk r len v, read_bytes-chunk r len v, rest) refl,
        ))
]

transfer_matches :
    (pairs : List HwePair) (r : Response) (len : ℕ) (tx rx : Option Bytes)
    → IsInside r
    → Fits pairs
    → MatchesQueue pairs r (record { tx_buf = tx; rx_buf = rx; len = len })
unfolding hwespi_transfer_one answer queue_transfer
transfer_matches pairs r len (some tx) (some rx) v fits = (discard-IsInside r v, refl)
transfer_matches pairs r len none (some rx) v fits =
    let (inside, same) = read_matches r len v in (inside, ap (λ x. (x.0, some x.1)) same)
transfer_matches pairs r len (some tx) none v fits =
    elim (Option-cases (find_pair pairs (take len tx))) [
      | inl e ↦ rw e (discard-IsInside r v, refl)
      | inr (p, e) ↦ rw e (
        load-IsInside r p.resp false v (find_pair-Fits pairs _ p fits e),
        ap (λ q. (q, none)) (pending-load r p.resp false),
      )
    ]
transfer_matches pairs r len none none v fits = (v, refl)

-- If the buffer is well formed and every response fits it, any transfer leaves a well-formed buffer
-- and does to the bytes that are still to be read, and to the buffer that is read into, what the
-- queue does.
pub hwespi_transfer_one-queue :
    (pairs : List HwePair) (r : Response) (t : SpiTransfer)
    → IsInside r
    → Fits pairs
    → MatchesQueue pairs r t
hwespi_transfer_one-queue pairs r t v fits = transfer_matches pairs r t.len t.tx_buf t.rx_buf v fits

-- A transfer that writes nothing does not depend on the pairs.
pub hwespi_transfer_one_no_tx :
    (pairs pairs' : List HwePair) (r : Response) (t : SpiTransfer)
    → t.tx_buf ≡ none
    → hwespi_transfer_one pairs r t ≡ hwespi_transfer_one pairs' r t
unfolding hwespi_transfer_one by_buffers
hwespi_transfer_one_no_tx pairs pairs' r t e = elim (Option-cases t.rx_buf) [
  | inl f ↦ rw (e, f) refl
  | inr (rx, f) ↦ rw (e, f) refl
]
