-- ===== src/Loading/Fail.antt =====
-- A load of the module that fails takes every unit back that was initialized.
use linux_hardware_devices_e.Prelude.{ℕ, ◌<◌, ◌≡◌, Bool, false, List, [], ◌∷◌, none, ◌==◌}
use linux_hardware_devices_e.Consts.{Iface, hwe_max_devices}
use linux_hardware_devices_e.Sysfs.Load.Empty.{NoDevices}
use linux_hardware_devices_e.Ioctl.Load.{Chrdev}
use linux_hardware_devices_e.Main.{
  Part, init_tty, init_i2c, init_net, init_spi, init_async, init_sysfs, init_ioctl,
}
use linux_hardware_devices_e.Drivers.{Drivers}
use linux_hardware_devices_e.Loading.{Whole, LoadEnv, drivers_of}

-- What a unit keeps, where it is not initialized.
abbrev DownIn : Part → Drivers → Bool → (Iface → Bool) → Chrdev → Type 0
DownIn init_tty d timer kobjs c =
    (d.ttys.driver ≡ false) × ((k : ℕ) → k < hwe_max_devices → d.ttys.ports k ≡ none)
DownIn init_i2c d timer kobjs c = d.i2cs ≡ []
DownIn init_net d timer kobjs c = d.nets ≡ []
DownIn init_spi d timer kobjs c =
    (d.spis.devices ≡ []) × (d.spis.plat_device ≡ false) × (d.spis.plat_driver ≡ false)
DownIn init_async d timer kobjs c = timer ≡ false
DownIn init_sysfs d timer kobjs c = (i : Iface) → kobjs i ≡ false
DownIn init_ioctl d timer kobjs c = (c.region ≡ false) × (c.cls ≡ false) × (c.node ≡ false)

abbrev pub Down : Part → Whole → Type 0
Down u w = DownIn u (drivers_of w) w.timer w.sysfs.kobjs w.chrdev

-- No interface has a device, and the table of the tty driver is empty.
pub record IsQuiet (w : Whole) : Type 0 where
  pub no_devices : NoDevices w.sysfs.state
  pub no_ttys : (k : ℕ) → (drivers_of w).ttys.devices k ≡ none

abbrev number : Part → ℕ
number init_tty = 0
number init_i2c = 1
number init_net = 2
number init_spi = 3
number init_async = 4
number init_sysfs = 5
number init_ioctl = 6

abbrev part_eq : Part → Part → Bool
part_eq u v = number u == number v

module _ (env : LoadEnv) where
  NotIn : Part → List Part → Type 0
  NotIn v [] = Unit
  NotIn v (u ∷ done) = (part_eq u v ≡ false) × NotIn v done

  -- What holds while the units of a list are initialized, and no others.
  Up : List Part → Whole → Type 0
  Up done w = IsQuiet w × ((v : Part) → NotIn v done → Down v w)
