-- ===== src/I2c/Devices.antt =====
-- The list of private data of kernel/hwe_i2c.c: an entry stays in the list when its device is
-- destroyed, and the next device that is created takes it over. `hwedev` is known by its index among
-- the interface's devices; the adapter's fields are constants, and are left out.
pub mod Create
pub mod Reuse
use linux_hardware_devices_e.Prelude.{
  ℕ, Bool, true, false, List, [], ◌∷◌, Option, none, some, ltb, replicate, if◌then◌else◌,
}
use linux_hardware_devices_e.Consts.{hwe_max_devices, Errno, Ret, ok}
use linux_hardware_devices_e.Response.{zeroed, discard}
use linux_hardware_devices_e.Pool.{Pool, Memory, addresses, lookup, remove, replace}
use linux_hardware_devices_e.I2c.{I2cDev, HweChip, i2c_chip_size}

-- struct hwe_dev_priv with its link and its index.
pub record I2cEntry : Type 0 where
  pub hwedev : ℕ
  pub index : ℕ
  pub dev : I2cDev

-- What the kernel answers to the creation of a device: kzalloc(), and the error of i2c_add_adapter().
pub record I2cEnv : Type 0 where
  pub memory : Memory
  pub add_adapter : Option Errno

abbrev pub zero_chip : HweChip
zero_chip = record { pos = 0; dat = replicate i2c_chip_size 0 }

-- What kzalloc() gives.
abbrev pub zero_entry : I2cEntry
zero_entry = record {
  hwedev = 0;
  index = 0;
  dev = record { in_use = false; response = zeroed; chip = zero_chip };
}

-- Of the response only the size is reset.
abbrev pub init_dev : I2cEntry → ℕ → ℕ → I2cEntry
init_dev e hwedev index = record {
  hwedev = hwedev;
  index = index;
  dev = record { in_use = true; response = discard e.dev.response; chip = zero_chip };
}

unfoldable pub find_unused_dev : Pool I2cEntry → Option (ℕ × I2cEntry)
find_unused_dev [] = none
find_unused_dev (e ∷ list) = if e.1.dev.in_use then find_unused_dev list else some e

abbrev new_entry : Pool I2cEntry → ℕ → ℕ → Option ℕ → Pool I2cEntry × Option ℕ
new_entry devices hwedev index none = (devices, none)
new_entry devices hwedev index (some a) = ((a, init_dev zero_entry hwedev index) ∷ devices, some a)

alloc_from : Memory → Pool I2cEntry → ℕ → ℕ → Option (ℕ × I2cEntry) → Pool I2cEntry × Option ℕ
alloc_from memory devices hwedev index none =
    new_entry devices hwedev index (memory.alloc (addresses devices))
alloc_from memory devices hwedev index (some unused) =
    (replace unused.0 (init_dev unused.1 hwedev index) devices, some unused.0)

-- `none` is the result NULL.
unfoldable pub alloc_dev : Memory → Pool I2cEntry → ℕ → ℕ → Pool I2cEntry × Option ℕ
unfolding alloc_from find_unused_dev replace
alloc_dev memory devices hwedev index =
    alloc_from memory devices hwedev index (find_unused_dev devices)

unfoldable pub del_dev : Pool I2cEntry → ℕ → Pool I2cEntry
unfolding remove
del_dev devices a = remove a devices

abbrev adapter_added : Pool I2cEntry → ℕ → Option Errno → Pool I2cEntry × Option ℕ
adapter_added devices a none = (devices, some a)
adapter_added devices a (some e) = (del_dev devices a, none)

abbrev allocated : I2cEnv → Pool I2cEntry × Option ℕ → Pool I2cEntry × Option ℕ
allocated env (devices, none) = (devices, none)
allocated env (devices, some a) = adapter_added devices a env.add_adapter

unfoldable pub hwe_create_i2c_device : I2cEnv → Pool I2cEntry → ℕ → ℕ → Pool I2cEntry × Option ℕ
unfolding alloc_dev del_dev
hwe_create_i2c_device env devices hwedev index =
    if ltb index hwe_max_devices
    then allocated env (alloc_dev env.memory devices hwedev index)
    else (devices, none)

abbrev pub unused : I2cEntry → I2cEntry
unused e = record e { dev = record e.dev { in_use = false } }

abbrev destroyed : Pool I2cEntry → ℕ → Option I2cEntry → Pool I2cEntry
destroyed devices a none = devices
destroyed devices a (some e) = replace a (unused e) devices

-- The entry is given up, and stays in the list.
unfoldable pub hwe_destroy_i2c_device : Pool I2cEntry → ℕ → Pool I2cEntry
unfolding lookup replace
hwe_destroy_i2c_device devices device = destroyed devices device (lookup devices device)

abbrev pub hwe_init_i2c : Pool I2cEntry → Pool I2cEntry × Ret
hwe_init_i2c devices = ([], ok 0)

-- The loop over the entries that the list had at first.
cleanup_each : Pool I2cEntry → Pool I2cEntry → Pool I2cEntry
unfolding hwe_destroy_i2c_device del_dev
cleanup_each [] devices = devices
cleanup_each (e ∷ rest) devices =
    let given_up = if e.1.dev.in_use then hwe_destroy_i2c_device devices e.0 else devices in
    cleanup_each rest (del_dev given_up e.0)

unfoldable pub hwe_cleanup_i2c : Pool I2cEntry → Pool I2cEntry
unfolding cleanup_each
hwe_cleanup_i2c devices = cleanup_each devices devices
