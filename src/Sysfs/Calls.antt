-- ===== src/Sysfs/Calls.antt =====
-- The functions of kernel/hwe_sysfs.c that sysfs and kernel/hwe_ioctl.c call. Each takes the
-- interface's semaphore, works on the state, and releases the semaphore.
pub mod Locks
pub mod Invariant
pub mod Pairs
use linux_hardware_devices_e.Prelude.{
  ℕ, zero, suc, ◌+◌, ◌-◌, Bool, true, false, not, ◌&&◌, ◌||◌, List, [], ◌∷◌, ◌++◌, Option, none,
  some, Bytes, codes, decimal, ℤ, pos, negsuc, ◌==◌, leb, length, if◌then◌else◌,
}
use linux_hardware_devices_e.Consts.{
  Iface, Errno, eio, einval, enodev, enomem, e2big, eexist, enoent, Ret, ok, err, fault,
}
use linux_hardware_devices_e.Utils.Kernel.{KernelLib}
use linux_hardware_devices_e.Utils.Pair.{
  HwePair, Parsed, Printed, text, request_range, response_range, str_to_pair, pair_to_str,
}
use linux_hardware_devices_e.Utils.Lookup.{str_to_iface, get_pair_at_index}
use linux_hardware_devices_e.Sysfs.Bitmap.{bitmap_weight}
use linux_hardware_devices_e.Sysfs.Dev.{HweDev, AddEnv, store_parsed, pair_delete, clear_pairs}
use linux_hardware_devices_e.Sysfs.Registry.{
  HweIface, DevOps, State, DevEnv, find_device, find_device_by_index, update_dev, set_iface,
  shutdown_dev, new_dev,
}

-- down(), up() and down_trylock() of the interface's semaphore. down() waits while the count is 0,
-- so a call that goes on found it positive.
unfoldable pub lock_iface_devs : {D : Type 0} → State D → Iface → State D
lock_iface_devs st iface =
    let ifc = st.ifaces iface in set_iface st iface (record ifc { sem = ifc.sem - 1 })

unfoldable pub unlock_iface_devs : {D : Type 0} → State D → Iface → State D
unlock_iface_devs st iface =
    let ifc = st.ifaces iface in set_iface st iface (record ifc { sem = ifc.sem + 1 })

unfoldable pub try_lock_iface_devs : {D : Type 0} → State D → Iface → State D × Bool
try_lock_iface_devs st iface =
    if (st.ifaces iface).sem == 0 then (st, false) else (lock_iface_devs st iface, true)

-- The buffer's text, up to the NUL.
unfoldable pub c_string : Bytes → Bytes
c_string [] = []
c_string (c ∷ s) = if c == 0 then [] else c ∷ c_string s

-- The string that pair_to_str() returns.
unfoldable pub printed_text : Printed → Bytes
printed_text (text s) = s
printed_text request_range = codes "error: request size out of valid range"
printed_text response_range = codes "error: response size out of valid range"

-- The entry at a `long` index.
unfoldable pub pair_at : List HwePair → ℤ → Option HwePair
pair_at list (pos i) = get_pair_at_index list i
pair_at list (negsuc i) = none

unfoldable pub delete_at : ℤ → HweDev → HweDev × Ret
delete_at pair_index dev = elim (pair_at dev.pair_list pair_index) [
  | none ↦ (dev, err enoent)
  | some pair ↦ (pair_delete dev pair, ok 0)
]

-- The text of the pair at `idx`, with its length, or -ENOENT. The loop compares with the local
-- variable `idx`, which nothing sets; its value is an argument here, and `pair_index` is not read.
pub pair_text : Option HwePair → Bytes × Ret
pair_text none = ([], err enoent)
pair_text (some pair) = let s = printed_text (pair_to_str pair) in (s, ok (length s))

pub get_from : Option HweDev → ℤ → Bytes × Ret
get_from none idx = ([], err enodev)
get_from (some dev) idx = pair_text (pair_at dev.pair_list idx)

module _ (lib : KernelLib) where
  -- With a device.
  unfoldable pub add_to : AddEnv → Bytes → HweDev → Option HwePair → HweDev × Ret
  add_to env pair_str dev none = (dev, err enomem)
  add_to env pair_str dev (some pair) =
      store_parsed e2big eexist ok env dev (str_to_pair lib (c_string pair_str) pair)

  -- With no device: -ENODEV is set, but the `if` behind it is no `else if`, so the call goes on
  -- to allocate and parse, and then reads the bitmap of a null pointer.
  pub no_device : Bytes → Option HwePair → Ret
  no_device pair_str none = err enomem
  no_device pair_str (some pair) = elim (str_to_pair lib (c_string pair_str) pair) [
    | Parsed.err e ↦ err einval
    | Parsed.ok p ↦ fault
  ]

module _ {D : Type 0} where
  unfoldable pub device_at : State D → Iface → ℕ → Option HweDev
  device_at st iface dev_index = find_device_by_index (st.ifaces iface).dev_list dev_index

  -- A device's record, written back.
  unfoldable pub put_dev : State D → Iface → HweDev → State D
  put_dev st iface dev =
      let ifc = st.ifaces iface in
      set_iface st iface (record ifc { dev_list = update_dev dev ifc.dev_list })

  -- What a call does between lock and unlock to the device it finds, or -ENODEV.
  unfoldable pub on_device :
      State D → Iface → Option HweDev → (HweDev → HweDev × Ret) → State D × Ret
  on_device st iface none f = (st, err enodev)
  on_device st iface (some dev) f = let (dev', r) = f dev in (put_dev st iface dev', r)

  unfoldable pub hwe_get_pair_count : State D → Iface → ℕ → State D × Ret
  unfolding on_device
  hwe_get_pair_count st iface dev_index =
      let st₁ = lock_iface_devs st iface in
      let (st₂, ret) =
        on_device st₁ iface (device_at st₁ iface dev_index)
          (λ dev. (dev, ok (bitmap_weight dev.pairs_indexes))) in
      (unlock_iface_devs st₂ iface, ret)

  unfoldable pub hwe_delete_pair : State D → Iface → ℕ → ℤ → State D × Ret
  unfolding on_device delete_at
  hwe_delete_pair st iface dev_index pair_index =
      let st₁ = lock_iface_devs st iface in
      let (st₂, ret) = on_device st₁ iface (device_at st₁ iface dev_index) (delete_at pair_index) in
      (unlock_iface_devs st₂ iface, ret)

  unfoldable pub hwe_clear_pairs : State D → Iface → ℕ → State D × Ret
  unfolding on_device
  hwe_clear_pairs st iface dev_index =
      let st₁ = lock_iface_devs st iface in
      let (st₂, ret) =
        on_device st₁ iface (device_at st₁ iface dev_index) (λ dev. (clear_pairs dev, ok 0)) in
      (unlock_iface_devs st₂ iface, ret)

  unfoldable pub hwe_get_pair : State D → Iface → ℕ → ℤ → ℤ → State D × Bytes × Ret
  unfolding get_from pair_text
  hwe_get_pair st iface dev_index pair_index idx =
      let st₁ = lock_iface_devs st iface in
      let (s, ret) = get_from (device_at st₁ iface dev_index) idx in
      (unlock_iface_devs st₁ iface, s, ret)

  -- A fault leaves the semaphore taken.
  unfoldable pub release_unless_fault : State D → Iface → Ret → State D × Ret
  release_unless_fault st iface fault = (st, fault)
  release_unless_fault st iface ret = (unlock_iface_devs st iface, ret)

  module _ (lib : KernelLib) (env : AddEnv) where
    unfoldable pub add_pair_on : State D → Iface → Bytes → Option HweDev → State D × Ret
    add_pair_on st iface pair_str none =
        release_unless_fault st iface (no_device lib pair_str env.kmalloc)
    add_pair_on st iface pair_str (some dev) =
        let (dev', ret) = add_to lib env pair_str dev env.kmalloc in
        (unlock_iface_devs (put_dev st iface dev') iface, ret)

    unfoldable pub hwe_add_pair : State D → Iface → ℕ → Bytes → State D × Ret
    unfolding add_pair_on add_to no_device release_unless_fault
    hwe_add_pair st iface dev_index pair_str =
        let st₁ = lock_iface_devs st iface in
        add_pair_on st₁ iface pair_str (device_at st₁ iface dev_index)

module _ {D : Type 0} (ops : DevOps D) where
  unfoldable pub added_index : Option HweDev → Ret
  added_index none = err enodev
  added_index (some dev) = ok dev.index

  unfoldable pub hwe_add_device : DevEnv → State D → Iface → State D × Ret
  unfolding added_index
  hwe_add_device env st iface =
      let (st₁, dev) = new_dev ops env (lock_iface_devs st iface) iface in
      (unlock_iface_devs st₁ iface, added_index dev)

  -- shutdown_dev() of a device that is found; the value, or the error if there is none.
  unfoldable pub shutdown_found : State D → Option HweDev → Errno → ℕ → State D × Ret
  shutdown_found st none e n = (st, err e)
  shutdown_found st (some dev) e n = (shutdown_dev ops st dev, ok n)

  unfoldable pub hwe_delete_device : State D → Iface → ℕ → State D × Ret
  unfolding shutdown_found
  hwe_delete_device st iface dev_index =
      let st₁ = lock_iface_devs st iface in
      let (st₂, ret) = shutdown_found st₁ (device_at st₁ iface dev_index) enodev 0 in
      (unlock_iface_devs st₂ iface, ret)

-- The calls, with what the kernel answers and what stands in an uninitialised variable.
pub data Call : Type 0 where
  add_device : DevEnv → Call
  delete_device : ℕ → Call
  pair_count : ℕ → Call
  get_pair : ℕ → ℤ → ℤ → Call
  add_pair : AddEnv → ℕ → Bytes → Call
  delete_pair : ℕ → ℤ → Call
  clear : ℕ → Call

module _ (lib : KernelLib) {D : Type 0} (ops : DevOps D) where
  unfoldable pub without_text : State D × Bytes × Ret → State D × Ret
  without_text (st, s, ret) = (st, ret)

  unfoldable pub run : Call → State D → Iface → State D × Ret
  unfolding without_text
  run (add_device env) st iface = hwe_add_device ops env st iface
  run (delete_device dev_index) st iface = hwe_delete_device ops st iface dev_index
  run (pair_count dev_index) st iface = hwe_get_pair_count st iface dev_index
  run (get_pair dev_index pair_index idx) st iface =
      without_text (hwe_get_pair st iface dev_index pair_index idx)
  run (add_pair env dev_index pair_str) st iface = hwe_add_pair lib env st iface dev_index pair_str
  run (delete_pair dev_index pair_index) st iface = hwe_delete_pair st iface dev_index pair_index
  run (clear dev_index) st iface = hwe_clear_pairs st iface dev_index
