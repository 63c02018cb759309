-- ===== src/Ioctl/DevId.antt =====
-- make_devid() and parse_devid() of kernel/hwe_ioctl.c.
use linux_hardware_devices_e.Prelude.{
  ℕ, ◌+◌, ◌*◌, ◌/◌, ◌%◌, ◌^◌, ◌<◌, ◌≡◌, ap, sym, ◌∙◌, Option, none, some, arith, leb, ◌||◌,
  if◌then◌else◌,
}
use linux_hardware_devices_e.Consts.{Iface, tty, i2c, net, spi, hwe_max_devices}
use linux_hardware_devices_e.Ioctl.{iface_value, value_iface, make_devid, parse_devid}

parse_by :
    (d k idx : ℕ)
    → d / 2 ^ 24 % 2 ^ 32 ≡ k
    → d % 2 ^ 24 ≡ idx
    → k < 4
    → idx < hwe_max_devices
    → parse_devid d ≡ some (value_iface k, idx)
unfolding parse_devid
parse_by d k idx high low k_lt idx_lt = ground arith

-- The id that is made of an interface and the index of a device is parsed as these, and fits an `int`.
pub parse_devid-make_devid :
    (iface : Iface) (index : ℕ)
    → index < hwe_max_devices
    → (parse_devid (make_devid iface index) ≡ some (iface, index))
      × (make_devid iface index < 2 ^ 31)
unfolding make_devid
parse_devid-make_devid tty index h =
    let d = 0 * 2 ^ 24 + index in
    (parse_by d 0 index (omega (arith, h)) (omega (arith, h)) (omega arith) h, omega (arith, h))
parse_devid-make_devid i2c index h =
    let d = 1 * 2 ^ 24 + index in
    (parse_by d 1 index (omega (arith, h)) (omega (arith, h)) (omega arith) h, omega (arith, h))
parse_devid-make_devid net index h =
    let d = 2 * 2 ^ 24 + index in
    (parse_by d 2 index (omega (arith, h)) (omega (arith, h)) (omega arith) h, omega (arith, h))
parse_devid-make_devid spi index h =
    let d = 3 * 2 ^ 24 + index in
    (parse_by d 3 index (omega (arith, h)) (omega (arith, h)) (omega arith) h, omega (arith, h))

iface_value-value_iface : (k : ℕ) → k < 4 → iface_value (value_iface k) ≡ k
iface_value-value_iface k h = ground arith

tests_sound :
    (k idx : ℕ) (iface : Iface) (index : ℕ)
    → ◌≡◌ {A = Option (Iface × ℕ)}
        (if leb 4 k || leb hwe_max_devices idx then none else some (value_iface k, idx))
        (some (iface, index))
    → (k < 4) × (idx < hwe_max_devices) × (value_iface k ≡ iface) × (idx ≡ index)
tests_sound k idx iface index e = (ground arith, ground arith, ground arith, ground arith)

-- A number is parsed only if its low 56 bits are an id that is made of the result; the bits above
-- are not looked at.
pub parse_devid_sound :
    (devid : ℕ) (iface : Iface) (index : ℕ)
    → parse_devid devid ≡ some (iface, index)
    → (index < hwe_max_devices) × (devid % 2 ^ 56 ≡ make_devid iface index)
unfolding parse_devid make_devid
parse_devid_sound devid iface index e =
    let k = devid / 2 ^ 24 % 2 ^ 32 in
    let idx = devid % 2 ^ 24 in
    let parts : (k < 4) × (idx < hwe_max_devices) × (value_iface k ≡ iface) × (idx ≡ index) =
      tests_sound k idx iface index e in
    let same : iface_value iface ≡ k =
      ap iface_value (sym parts.2) ∙ iface_value-value_iface k parts.0 in
    (omega (arith, parts.1, parts.3), omega (arith, same, parts.3))
