-- ===== src/I2c/Master.antt =====
-- hwei2c_master_xfer() against a queue of the bytes that are still to be read.
use linux_hardware_devices_e.Prelude.{
  ◌≤◌, ◌≡◌, refl, ap, sym, subst, ◌∙◌, Bool, true, false, List, [], ◌∷◌, Option, none, some, Bytes,
  ◌==◌, length, take, drop, if◌then◌else◌, Bool-cases, Option-cases, inl, inr, All,
}
use linux_hardware_devices_e.Consts.{hwe_max_response, einval, enodev, Ret, ok, err}
use linux_hardware_devices_e.Utils.Pair.{HwePair}
use linux_hardware_devices_e.Utils.Lookup.{find_pair, answers}
use linux_hardware_devices_e.Response.{Response, memcpy, load, discard, chunk, read_bytes, consume}
use linux_hardware_devices_e.Response.Pending.{
  pending, IsInside, length-pending, load-IsInside, pending-load, discard-IsInside,
  consume-IsInside, chunk-le, read_bytes-chunk, pending-chunk,
}
use linux_hardware_devices_e.I2c.{
  I2cDev, I2cMsg, xfer_msg, xfer_loop, do_master_xfer, hwei2c_master_xfer,
}

-- Every response of the list fits the buffer.
abbrev pub Fits : List HwePair → Type 0
Fits = All (λ p. length p.resp ≤ hwe_max_response)

pub find_pair-Fits :
    (list : List HwePair) (r : Bytes) (p : HwePair)
    → Fits list
    → find_pair list r ≡ some p
    → length p.resp ≤ hwe_max_response
unfolding find_pair
find_pair-Fits [] r p v h = cc
find_pair-Fits (x ∷ list) r p v h = elim (Bool-cases (answers x r)) [
  | inl t ↦
      (let found : some x ≡ some p = sym (ap (λ b. if b then some x else find_pair list r) t) ∙ h in
        let same : x ≡ p = cc in subst (λ (q : HwePair). length q.resp ≤ hwe_max_response) same v.0)
  | inr f ↦
      find_pair-Fits list r p v.1 (sym (ap (λ b. if b then some x else find_pair list r) f) ∙ h)
]

-- The queue: a write fills it with the response to the request, or empties it, and a read takes
-- from its front, or fails and reports that it read nothing if the queue is empty.
reply : Option HwePair → Bytes
reply none = []
reply (some pair) = pair.resp

unfoldable pub queue_msg : List HwePair → Bytes → I2cMsg → Bytes × I2cMsg × Bool
unfolding reply
queue_msg pairs q m =
    if m.rd
    then if length q == 0
      then (q, record m { len = 0 }, true)
      else (drop m.len q, record m { buf = memcpy m.buf (take m.len q) }, false)
    else (reply (find_pair pairs (take m.len m.buf)), m, false)

queue_loop : List HwePair → Bytes → List I2cMsg → Ret → Bytes × List I2cMsg × Ret
queue_loop pairs q [] e = (q, [], e)
queue_loop pairs q (m ∷ msgs) e =
    let (q₁, m', failed) = queue_msg pairs q m in
    let (q₂, msgs', e') = queue_loop pairs q₁ msgs (if failed then err einval else e) in
    (q₂, m' ∷ msgs', e')

unfoldable pub queue_xfer : List HwePair → Bytes → List I2cMsg → Bytes × List I2cMsg × Ret
unfolding queue_loop
queue_xfer pairs q msgs = queue_loop pairs q msgs (ok (length msgs))

-- One message does to the pending bytes what it does to the queue.
abbrev Simulates : List HwePair → Response → I2cMsg → Type 0
Simulates pairs r m =
    let (r', m', failed) = xfer_msg pairs r m in
    IsInside r' × ((pending r', m', failed) ≡ queue_msg pairs (pending r) m)

step_as :
    (pairs : List HwePair) (r : Response) (m : I2cMsg) (x : Response × I2cMsg × Bool)
    → xfer_msg pairs r m ≡ x
    → IsInside x.0
    → queue_msg pairs (pending r) m ≡ (pending x.0, x.1, x.2)
    → Simulates pairs r m
step_as pairs r m x e v q =
    subst (λ x. IsInside x.0 × ((pending x.0, x.1, x.2) ≡ queue_msg pairs (pending r) m)) (sym e)
      (v, sym q)

read-Simulates :
    (pairs : List HwePair) (r : Response) (m : I2cMsg)
    → IsInside r
    → m.rd ≡ true
    → Simulates pairs r m
unfolding xfer_msg queue_msg
read-Simulates pairs r m v rd = elim (Bool-cases (r.resp_size == 0)) [
  | inl t ↦
      step_as pairs r m (r, record m { len = 0 }, true) (rw (rd, t) refl) v
        (rw (rd, length-pending r v, t) refl)
  | inr f ↦
      let sz = chunk r m.len in
      step_as pairs r m (consume r sz, record m { buf = memcpy m.buf (read_bytes r sz) }, false)
        (rw (rd, f) refl) (consume-IsInside r sz v (chunk-le r m.len))
        (rw (rd, length-pending r v, f, read_bytes-chunk r m.len v, pending-chunk r m.len v) refl)
]

write-Simulates :
    (pairs : List HwePair) (r : Response) (m : I2cMsg)
    → IsInside r
    → Fits pairs
    → m.rd ≡ false
    → Simulates pairs r m
unfolding xfer_msg queue_msg
write-Simulates pairs r m v fits rd = elim (Option-cases (find_pair pairs (take m.len m.buf))) [
  | inl e ↦
      step_as pairs r m (discard r, m, false) (rw (rd, e) refl) (discard-IsInside r v)
        (rw (rd, e) refl)
  | inr (p, e) ↦
      step_as pairs r m (load r p.resp false, m, false) (rw (rd, e) refl)
        (load-IsInside r p.resp false v (find_pair-Fits pairs _ p fits e))
        (rw (rd, e, pending-load r p.resp false) refl)
]

msg-Simulates :
    (pairs : List HwePair) (r : Response) (m : I2cMsg)
    → IsInside r
    → Fits pairs
    → Simulates pairs r m
msg-Simulates pairs r m v fits = elim (Bool-cases m.rd) [
  | inl t ↦ read-Simulates pairs r m v t
  | inr f ↦ write-Simulates pairs r m v fits f
]

abbrev pub MatchesQueue : Bytes × List I2cMsg × Ret → Response × List I2cMsg × Ret → Type 0
MatchesQueue q x = IsInside x.0 × ((pending x.0, x.1, x.2) ≡ q)

loop-MatchesQueue :
    (pairs : List HwePair) (r : Response) (msgs : List I2cMsg) (e : Ret)
    → IsInside r
    → Fits pairs
    → MatchesQueue (queue_loop pairs (pending r) msgs e) (xfer_loop pairs r msgs e)
unfolding xfer_loop queue_loop
loop-MatchesQueue pairs r [] e v fits = (v, refl)
loop-MatchesQueue pairs r (m ∷ msgs) e v fits =
    let (r₁, m₁, failed) = xfer_msg pairs r m in
    let e₁ = if failed then err einval else e in
    let (v₁, step) = msg-Simulates pairs r m v fits in
    let (v₂, rest) = loop-MatchesQueue pairs r₁ msgs e₁ v₁ fits in
    (
      v₂,
      ap (λ z. (z.0, m₁ ∷ z.1, z.2)) rest
          ∙ ap
              (λ x.
                let z = queue_loop pairs x.0 msgs (if x.2 then err einval else e) in
                (z.0, x.1 ∷ z.1, z.2))
              step,
    )

pub do_master_xfer-queue :
    (pairs : List HwePair) (r : Response) (msgs : List I2cMsg)
    → IsInside r
    → Fits pairs
    → MatchesQueue (queue_xfer pairs (pending r) msgs) (do_master_xfer pairs r msgs)
unfolding do_master_xfer queue_xfer
do_master_xfer-queue pairs r msgs v fits = loop-MatchesQueue pairs r msgs (ok (length msgs)) v fits

-- If a device is in use, its buffer is well formed and every response of its pairs fits that buffer,
-- then a transfer of any messages leaves a well-formed buffer and does to the bytes that are still to
-- be read what the queue does: the messages come back the same, with the same result, and the same
-- bytes are left; neither the chip nor the flag is touched.
pub hwei2c_master_xfer-queue :
    (pairs : List HwePair) (dev : I2cDev) (msgs : List I2cMsg)
    → dev.in_use ≡ true
    → IsInside dev.response
    → Fits pairs
    → let (dev', msgs', ret) = hwei2c_master_xfer pairs dev msgs in
      ((pending dev'.response, msgs', ret) ≡ queue_xfer pairs (pending dev.response) msgs)
      × IsInside dev'.response
      × (dev'.chip ≡ dev.chip)
      × (dev'.in_use ≡ true)
unfolding hwei2c_master_xfer
hwei2c_master_xfer-queue pairs dev msgs used v fits =
    let (inside, same) = do_master_xfer-queue pairs dev.response msgs v fits in
    let x = do_master_xfer pairs dev.response msgs in
    subst
      (λ b.
        let y : I2cDev × List I2cMsg × Ret =
          if b then (record dev { response = x.0 }, x.1, x.2) else (dev, msgs, err enodev) in
        ((pending y.0.response, y.1, y.2) ≡ queue_xfer pairs (pending dev.response) msgs)
        × IsInside y.0.response
        × (y.0.chip ≡ dev.chip)
        × (y.0.in_use ≡ true))
      (sym used) (same, inside, refl, used)

-- A device that is not in use answers a transfer with -ENODEV.
pub hwei2c_master_xfer_unused :
    (pairs : List HwePair) (dev : I2cDev) (msgs : List I2cMsg)
    → dev.in_use ≡ false
    → hwei2c_master_xfer pairs dev msgs ≡ (dev, msgs, err enodev)
unfolding hwei2c_master_xfer
hwei2c_master_xfer_unused pairs dev msgs idle =
    let x = do_master_xfer pairs dev.response msgs in
    ap
      (λ b.
        let y : I2cDev × List I2cMsg × Ret =
          if b then (record dev { response = x.0 }, x.1, x.2) else (dev, msgs, err enodev) in
        y)
      idle
