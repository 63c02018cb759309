-- ===== src/Loading/Stop.antt =====
-- A module that is unloaded leaves nothing behind in its own state.
use linux_hardware_devices_e.Prelude.{ℕ, ◌≡◌, false, [], none}
use linux_hardware_devices_e.Consts.{Iface}
use linux_hardware_devices_e.Loading.{Whole, drivers_of}

-- What is empty behind hwemu_exit(), at an interface and at a place of the tty driver's tables.
pub record IsEmpty (w : Whole) (iface : Iface) (k : ℕ) : Type 0 where
  pub no_devices : (w.sysfs.state.ifaces iface).dev_list ≡ []
  pub no_object : w.sysfs.kobjs iface ≡ false
  pub no_kset : w.sysfs.base_kset ≡ false
  pub no_timer : w.timer ≡ false
  pub no_i2c : (drivers_of w).i2cs ≡ []
  pub no_net : (drivers_of w).nets ≡ []
  pub no_spi : (drivers_of w).spis.devices ≡ []
  pub no_tty : (drivers_of w).ttys.devices k ≡ none
  pub no_port : (drivers_of w).ttys.ports k ≡ none
  pub no_driver : (drivers_of w).ttys.driver ≡ false
  pub no_node : w.chrdev.node ≡ false
  pub no_class : w.chrdev.cls ≡ false
  pub no_region : w.chrdev.region ≡ false
