-- ===== src/Loading.antt =====
-- The units of kernel/hwe_main.c filled in: the initialization and the clean-up of the four drivers, of
-- the timer, of sysfs and of ioctl, on all that the module keeps.
pub mod Start
pub mod Stop
pub mod Fail
use linux_hardware_devices_e.Prelude.{
  ℕ, Bool, true, false, List, [], ◌∷◌, Option, none, some, replicate,
}
use linux_hardware_devices_e.Consts.{Iface, hwe_max_devices, Errno, Ret, ok, err, fault}
use linux_hardware_devices_e.Sysfs.Registry.{State}
use linux_hardware_devices_e.Sysfs.Load.{Sysfs, hwe_init_sysfs, hwe_cleanup_sysfs}
use linux_hardware_devices_e.Async.{hwe_init_async, hwe_cleanup_async}
use linux_hardware_devices_e.Ioctl.Load.{
  Chrdev, ChrdevEnv, hwe_init_ioctl, hwe_cleanup_ioctl, nothing_held,
}
use linux_hardware_devices_e.Main.{
  Part, Units, init_tty, init_i2c, init_net, init_spi, init_async, init_sysfs, init_ioctl,
}
use linux_hardware_devices_e.Tty.{TtyDriver, hwe_init_tty, hwe_cleanup_tty}
use linux_hardware_devices_e.Net.{hwe_init_net, hwe_cleanup_net}
use linux_hardware_devices_e.I2c.Devices.{hwe_init_i2c, hwe_cleanup_i2c}
use linux_hardware_devices_e.Spi.Devices.{SpiDevices, hwe_init_spi, hwe_cleanup_spi}
use linux_hardware_devices_e.Drivers.{Drivers, DriversEnv, dev_ops}

pub record Whole : Type 0 where
  pub sysfs : Sysfs Drivers
  pub timer : Bool
  pub chrdev : Chrdev

-- What the kernel answers while the module is loaded. `devices` is what it answers to the creation of
-- devices, of which there is none yet.
pub record LoadEnv : Type 0 where
  pub alloc_driver : Bool
  pub register_driver : Option Errno
  pub plat_device : Option Errno
  pub plat_driver : Option Errno
  pub kset : Bool
  pub kobjects : Iface → Option Errno
  pub ioctl : ChrdevEnv
  pub devices : DriversEnv

abbrev pub drivers_of : Whole → Drivers
drivers_of w = w.sysfs.state.drivers

abbrev pub with_drivers : Whole → Drivers → Whole
with_drivers w d = record w {
  sysfs = record w.sysfs { state = record w.sysfs.state { drivers = d } };
}

-- A function's result 0, or its error.
abbrev pub ret_of : Option Errno → Ret
ret_of none = ok 0
ret_of (some e) = err e

module _ (env : LoadEnv) where
  unfoldable pub init_unit : Part → Whole → Whole × Ret
  init_unit init_tty w =
      let (t, e) = hwe_init_tty env.alloc_driver env.register_driver (drivers_of w).ttys in
      (with_drivers w (record (drivers_of w) { ttys = t }), e)
  init_unit init_i2c w =
      let (devices, ret) = hwe_init_i2c (drivers_of w).i2cs in
      (with_drivers w (record (drivers_of w) { i2cs = devices }), ret)
  init_unit init_net w =
      let (devices, ret) = hwe_init_net (drivers_of w).nets in
      (with_drivers w (record (drivers_of w) { nets = devices }), ret)
  init_unit init_spi w =
      let (s, e) = hwe_init_spi env.plat_device env.plat_driver (drivers_of w).spis in
      (with_drivers w (record (drivers_of w) { spis = s }), ret_of e)
  init_unit init_async w =
      let (timer, e) = hwe_init_async w.timer in (record w { timer = timer }, ret_of e)
  init_unit init_sysfs w =
      let (s, e) = hwe_init_sysfs (dev_ops env.devices) env.kset env.kobjects w.sysfs in
      (record w { sysfs = s }, ret_of e)
  init_unit init_ioctl w =
      let (c, e) = hwe_init_ioctl env.ioctl w.chrdev in (record w { chrdev = c }, ret_of e)

  unfoldable pub cleanup_unit : Part → Whole → Whole
  cleanup_unit init_tty w =
      with_drivers w (record (drivers_of w) { ttys = hwe_cleanup_tty (drivers_of w).ttys })
  cleanup_unit init_i2c w =
      with_drivers w (record (drivers_of w) { i2cs = hwe_cleanup_i2c (drivers_of w).i2cs })
  cleanup_unit init_net w =
      with_drivers w (record (drivers_of w) { nets = hwe_cleanup_net (drivers_of w).nets })
  cleanup_unit init_spi w =
      with_drivers w (record (drivers_of w) { spis = hwe_cleanup_spi (drivers_of w).spis })
  cleanup_unit init_async w = record w { timer = hwe_cleanup_async w.timer }
  cleanup_unit init_sysfs w = record w { sysfs = hwe_cleanup_sysfs (dev_ops env.devices) w.sysfs }
  cleanup_unit init_ioctl w = record w { chrdev = hwe_cleanup_ioctl w.chrdev }

  abbrev pub units : Units Whole
  units = record { init = init_unit; cleanup = cleanup_unit }

-- The static variables before the module is loaded.
abbrev pub zero_drivers : Drivers
zero_drivers = record {
  ttys = record { driver = false; devices = λ k. none; ports = λ k. none };
  i2cs = [];
  nets = [];
  spis = record { devices = []; masters = []; plat_device = false; plat_driver = false };
  oops = false;
}

abbrev pub zero_whole : Whole
zero_whole = record {
  sysfs = record {
    state = record {
      ifaces =
          λ i. record { dev_list = []; sem = 0; dev_indexes = replicate hwe_max_devices false };
      drivers = zero_drivers;
    };
    base_kset = false;
    kobjs = λ i. false;
  };
  timer = false;
  chrdev = nothing_held;
}
