-- ===== src/Spi/Devices.antt =====
-- The masters of kernel/hwe_spi.c: the list of private data, the masters that the SPI core has
-- registered, and the platform device and its driver. `hwedev` is known by its index among the
-- interface's devices.
pub mod Masters
use linux_hardware_devices_e.Prelude.{
  ℕ, Bool, true, false, List, [], ◌∷◌, Option, none, some, ◌==◌, if◌then◌else◌,
}
use linux_hardware_devices_e.Consts.{Errno}
use linux_hardware_devices_e.Response.{Response, zeroed}
use linux_hardware_devices_e.Pool.{Pool, Memory, addresses, remove}

-- struct hwe_dev_priv; the master and its only device are known by the same address.
pub record SpiEntry : Type 0 where
  pub hwedev : ℕ
  pub index : ℕ
  pub response : Response

pub record SpiDevices : Type 0 where
  pub devices : Pool SpiEntry
  pub masters : List ℕ
  pub plat_device : Bool
  pub plat_driver : Bool

-- What the kernel answers to the creation of a device: spi_alloc_master(), the error of
-- spi_register_master(), and whether spi_new_device() succeeds.
pub record SpiEnv : Type 0 where
  pub memory : Memory
  pub register_master : Option Errno
  pub new_device : Bool

-- spi_unregister_master()
unfoldable pub unregister : ℕ → List ℕ → List ℕ
unregister a [] = []
unregister a (m ∷ masters) = if m == a then masters else m ∷ unregister a masters

-- From spi_register_master() on. If spi_new_device() fails, the master is put, but it stays
-- registered.
abbrev registered : SpiEnv → SpiDevices → ℕ → SpiEntry → Option Errno → SpiDevices × Option ℕ
registered env s a priv (some e) = (s, none)
registered env s a priv none =
    let s' = record s { masters = a ∷ s.masters } in
    if env.new_device then (record s' { devices = (a, priv) ∷ s.devices }, some a) else (s', none)

abbrev allocated : SpiEnv → SpiDevices → ℕ → ℕ → Option ℕ → SpiDevices × Option ℕ
allocated env s hwedev index none = (s, none)
allocated env s hwedev index (some a) =
    registered env s a (record { hwedev = hwedev; index = index; response = zeroed })
      env.register_master

-- `none` is the result NULL.
unfoldable pub new_dev : SpiEnv → SpiDevices → ℕ → ℕ → SpiDevices × Option ℕ
new_dev env s hwedev index = allocated env s hwedev index (env.memory.alloc (addresses s.devices))

unfoldable pub hwe_create_spi_device : SpiEnv → SpiDevices → ℕ → ℕ → SpiDevices × Option ℕ
unfolding new_dev
hwe_create_spi_device env s hwedev index = new_dev env s hwedev index

unfoldable pub del_dev : SpiDevices → ℕ → SpiDevices
unfolding remove unregister
del_dev s a = record s { devices = remove a s.devices; masters = unregister a s.masters }

unfoldable pub hwe_destroy_spi_device : SpiDevices → ℕ → SpiDevices
unfolding del_dev
hwe_destroy_spi_device s device = del_dev s device

abbrev driver_registered : SpiDevices → Option Errno → SpiDevices × Option Errno
driver_registered s none = (record s { plat_driver = true }, none)
driver_registered s (some e) = (record s { plat_device = false }, some e)

abbrev device_registered : Option Errno → SpiDevices → Option Errno → SpiDevices × Option Errno
device_registered driver s none = driver_registered (record s { plat_device = true }) driver
device_registered driver s (some e) = (s, some e)

-- The errors of platform_device_register_simple() and of platform_driver_register(); the result 0 is
-- `none`.
unfoldable pub hwe_init_spi : Option Errno → Option Errno → SpiDevices → SpiDevices × Option Errno
hwe_init_spi device driver s = device_registered driver (record s { devices = [] }) device

-- The loop over the entries that the list had at first.
destroy_each : Pool SpiEntry → SpiDevices → SpiDevices
unfolding hwe_destroy_spi_device
destroy_each [] s = s
destroy_each (e ∷ rest) s = destroy_each rest (hwe_destroy_spi_device s e.0)

unfoldable pub hwe_cleanup_spi : SpiDevices → SpiDevices
unfolding destroy_each
hwe_cleanup_spi s = record (destroy_each s.devices s) { plat_driver = false; plat_device = false }
