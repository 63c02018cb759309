-- ===== src/Ioctl.antt =====
-- kernel/hwe_ioctl.c: device ids, the commands of /dev/hwemu and their dispatch. The caller's memory
-- is what get_user(), put_user(), copy_from_user() and copy_to_user() answer.
pub mod DevId
pub mod Dispatch
pub mod Load
pub mod Write
use linux_hardware_devices_e.Prelude.{
  ℕ, ◌+◌, ◌-◌, ◌*◌, ◌/◌, ◌%◌, ◌^◌, Bool, true, false, ◌||◌, List, [], ◌∷◌, ◌++◌, Option, none, some,
  Bytes, ℤ, pos, negsuc, leb, ◌==◌, take, length, if◌then◌else◌,
}
use linux_hardware_devices_e.Consts.{
  Iface, tty, i2c, net, spi, hwe_max_devices, hwe_max_pair_str, Errno, einval, efault, enomem,
  enotty, Ret, ok, err, fault,
}
use linux_hardware_devices_e.Utils.Kernel.{KernelLib}
use linux_hardware_devices_e.Sysfs.Dev.{AddEnv}
use linux_hardware_devices_e.Sysfs.Registry.{DevOps, State, DevEnv}
use linux_hardware_devices_e.Sysfs.Calls.{
  hwe_add_device, hwe_delete_device, hwe_get_pair_count, hwe_get_pair, hwe_add_pair,
  hwe_delete_pair, hwe_clear_pairs,
}

abbrev pub hwe_iface_count : ℕ
hwe_iface_count = 4

-- The value of an interface in enum HWE_IFACE, and the interface of a value below HWE_IFACE_COUNT.
abbrev pub iface_value : Iface → ℕ
iface_value tty = 0
iface_value i2c = 1
iface_value net = 2
iface_value spi = 3

abbrev pub value_iface : ℕ → Iface
value_iface n = if n == 0 then tty else if n == 1 then i2c else if n == 2 then net else spi

unfoldable pub make_devid : Iface → ℕ → ℕ
make_devid iface index = iface_value iface * 2 ^ 24 + index

-- `ifc` is an unsigned int, so only 32 bits of the shifted id are kept.
unfoldable pub parse_devid : ℕ → Option (Iface × ℕ)
parse_devid devid =
    let ifc = devid / 2 ^ 24 % 2 ^ 32 in
    let idx = devid % 2 ^ 24 in
    if leb hwe_iface_count ifc || leb hwe_max_devices idx then none else some (value_iface ifc, idx)

-- An `int` as an `unsigned long`.
abbrev pub to_ulong : ℤ → ℕ
to_ulong (pos n) = n
to_ulong (negsuc n) = 2 ^ 64 - 1 - n

-- What a command finds in the caller's structure, `none` for a fault: the ids, and the text, of which
-- HWE_MAX_PAIR_STR bytes are copied; whether the text or the index can be written there; what
-- kmalloc() of the text answers, and what stands in the uninitialised variable of hwe_get_pair().
pub record User : Type 0 where
  pub device_id : Option ℤ
  pub pair_index : Option ℤ
  pub pair : Option Bytes
  pub writable : Bool
  pub kmalloc : Bool
  pub idx : ℤ

pub data Cmd : Type 0 where
  add_device uninstall_device pair_count clear_pairs : ℕ → Cmd
  read_pair write_pair delete_pair : User → Cmd
  unknown : Cmd

-- A length is a success, if the text could be copied.
copied : User → Ret → Ret
copied u (ok n) = if n == 0 then ok 0 else if u.writable then ok 0 else err efault
copied u ret = ret

module _ {D : Type 0} where
  -- A command on the device that an id names, or -EINVAL.
  on_devid : State D → ℕ → (Iface → ℕ → State D × Ret) → State D × Ret
  on_devid st devid f = elim (parse_devid devid) [
    | none ↦ (st, err einval)
    | some (ifc, idx) ↦ f ifc idx
  ]

  -- The same with the id in the caller's structure.
  on_user : State D → Option ℤ → (Iface → ℕ → State D × Ret) → State D × Ret
  on_user st none f = (st, err efault)
  on_user st (some devid) f = on_devid st (to_ulong devid) f

  with_index : State D → Option ℤ → (ℤ → State D × Ret) → State D × Ret
  with_index st none f = (st, err efault)
  with_index st (some pair_idx) f = f pair_idx

  read_result : User → State D × Bytes × Ret → State D × Ret
  read_result u (st, s, ret) = (st, copied u ret)

  ioctl_read_pair : State D → User → State D × Ret
  ioctl_read_pair st u = on_user st u.device_id (λ ifc idx. with_index st u.pair_index (λ pair_idx.
      if u.kmalloc
      then read_result u (hwe_get_pair st ifc idx pair_idx u.idx)
      else (st, err enomem)))

  put_index : User → State D × Ret → State D × Ret
  put_index u (st, ok n) = (st, if u.writable then ok 0 else err efault)
  put_index u (st, ret) = (st, ret)

  ioctl_delete_pair : State D → User → State D × Ret
  ioctl_delete_pair st u =
      on_user st u.device_id
        (λ ifc idx. with_index st u.pair_index (λ pair_idx. hwe_delete_pair st ifc idx pair_idx))

  ioctl_pair_count : State D → ℕ → State D × Ret
  ioctl_pair_count st arg = on_devid st arg (hwe_get_pair_count st)

  ioctl_clear_pairs : State D → ℕ → State D × Ret
  ioctl_clear_pairs st arg = on_devid st arg (hwe_clear_pairs st)

  module _ (lib : KernelLib) (env : AddEnv) where
    write_text : State D → User → Iface → ℕ → Option Bytes → State D × Ret
    write_text st u ifc idx none = (st, err efault)
    write_text st u ifc idx (some s) =
        put_index u (hwe_add_pair lib env st ifc idx (take hwe_max_pair_str s ++ 0 ∷ []))

    ioctl_write_pair : State D → User → State D × Ret
    ioctl_write_pair st u =
        on_user st u.device_id
          (λ ifc idx. if u.kmalloc then write_text st u ifc idx u.pair else (st, err enomem))

module _ {D : Type 0} (ops : DevOps D) where
  devid_result : Iface → State D × Ret → State D × Ret
  devid_result ifc (st, ok idx) = (st, ok (make_devid ifc idx))
  devid_result ifc (st, ret) = (st, ret)

  ioctl_add_device : DevEnv → State D → ℕ → State D × Ret
  ioctl_add_device env st arg =
      if leb hwe_iface_count arg
      then (st, err einval)
      else devid_result (value_iface arg) (hwe_add_device ops env st (value_iface arg))

  ioctl_delete_device : State D → ℕ → State D × Ret
  ioctl_delete_device st arg = on_devid st arg (hwe_delete_device ops st)

  module _ (lib : KernelLib) (env : AddEnv) (dev_env : DevEnv) where
    unfoldable pub hwemu_ioctl : State D → Cmd → State D × Ret
    unfolding ioctl_add_device ioctl_delete_device devid_result ioctl_pair_count ioctl_clear_pairs
        ioctl_read_pair ioctl_write_pair ioctl_delete_pair on_devid on_user with_index copied
        read_result put_index write_text make_devid parse_devid
    hwemu_ioctl st (add_device arg) = ioctl_add_device dev_env st arg
    hwemu_ioctl st (uninstall_device arg) = ioctl_delete_device st arg
    hwemu_ioctl st (pair_count arg) = ioctl_pair_count st arg
    hwemu_ioctl st (clear_pairs arg) = ioctl_clear_pairs st arg
    hwemu_ioctl st (read_pair u) = ioctl_read_pair st u
    hwemu_ioctl st (write_pair u) = ioctl_write_pair lib env st u
    hwemu_ioctl st (delete_pair u) = ioctl_delete_pair st u
    hwemu_ioctl st unknown = (st, err enotty)
