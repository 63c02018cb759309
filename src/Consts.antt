-- ===== src/Consts.antt =====
-- kernel/hwe_consts.h and the list of interfaces in it; the error numbers that the driver returns.
use linux_hardware_devices_e.Prelude.{ℕ, ◌+◌, ◌*◌, ◌-◌, ◌/◌, ◌^◌, Bool, true, false}

abbrev pub hwe_max_request : ℕ
hwe_max_request = (4096 - 1) / 4

abbrev pub hwe_max_response : ℕ
hwe_max_response = (4096 - 1) / 4

abbrev pub hwe_max_pair_str : ℕ
hwe_max_pair_str = hwe_max_request * 2 + hwe_max_response * 2 + 1

abbrev pub hwe_max_pairs : ℕ
hwe_max_pairs = 1000

abbrev pub hwe_max_devices : ℕ
hwe_max_devices = 256

abbrev pub int_max : ℕ
int_max = 2 ^ 31 - 1

abbrev pub uint_max : ℕ
uint_max = 2 ^ 32 - 1

-- enum HWE_IFACE
pub data Iface : Type 0 where
  tty i2c net spi : Iface

abbrev pub iface_eq : Iface → Iface → Bool
iface_eq tty tty = true
iface_eq i2c i2c = true
iface_eq net net = true
iface_eq spi spi = true
iface_eq _ _ = false

-- The negative results of the driver's functions; `other` is a code that the kernel returned.
pub data Errno : Type 0 where
  eio einval enodev enomem e2big eexist enoent efault enotty eopnotsupp : Errno
  other : ℕ → Errno

-- What a call returns: a value, an error, or the dereference of a null pointer.
pub data Ret : Type 0 where
  ok : ℕ → Ret
  err : Errno → Ret
  fault : Ret
