-- ===== src/Drivers/Sound.antt =====
-- The drivers' invariant when one of them changes.
use linux_hardware_devices_e.Prelude.{
  ℕ, ◌≡◌, refl, ap, sym, ◌∙◌, false, Bool, ◌||◌, arith, Option, none, some, Option-cases, inl, inr,
}
use linux_hardware_devices_e.Pool.{Pool, IsDistinct}
use linux_hardware_devices_e.Tty.{TtyDriver, hwe_destroy_tty_device}
use linux_hardware_devices_e.Tty.Slots.{IsTable, tty_owner, hwedev_of}
use linux_hardware_devices_e.Net.{NetDev}
use linux_hardware_devices_e.I2c.Devices.{I2cEntry}
use linux_hardware_devices_e.Spi.Devices.{SpiDevices}
use linux_hardware_devices_e.Drivers.{Drivers, IsSound, is_none, is_fault}

pub ttys-IsSound :
    (d : Drivers) (t : TtyDriver) (b : Bool)
    → IsSound d
    → IsTable t
    → b ≡ false
    → IsSound (record d { ttys = t; oops = b })
ttys-IsSound d t b v new safe = record {
  table = new;
  i2c_distinct = v.i2c_distinct;
  net_distinct = v.net_distinct;
  spi_distinct = v.spi_distinct;
  safe = safe;
}

pub i2cs-IsSound :
    (d : Drivers) (devices : Pool I2cEntry) (b : Bool)
    → IsSound d
    → IsDistinct devices
    → b ≡ false
    → IsSound (record d { i2cs = devices; oops = b })
i2cs-IsSound d devices b v new safe = record {
  table = v.table;
  i2c_distinct = new;
  net_distinct = v.net_distinct;
  spi_distinct = v.spi_distinct;
  safe = safe;
}

pub nets-IsSound :
    (d : Drivers) (devices : Pool NetDev) (b : Bool)
    → IsSound d
    → IsDistinct devices
    → b ≡ false
    → IsSound (record d { nets = devices; oops = b })
nets-IsSound d devices b v new safe = record {
  table = v.table;
  i2c_distinct = v.i2c_distinct;
  net_distinct = new;
  spi_distinct = v.spi_distinct;
  safe = safe;
}

pub spis-IsSound :
    (d : Drivers) (s : SpiDevices) (b : Bool)
    → IsSound d
    → IsDistinct s.devices
    → b ≡ false
    → IsSound (record d { spis = s; oops = b })
spis-IsSound d s b v new safe = record {
  table = v.table;
  i2c_distinct = v.i2c_distinct;
  net_distinct = v.net_distinct;
  spi_distinct = new;
  safe = safe;
}

pub or_false : (a b : Bool) → a ≡ false → b ≡ false → (a || b) ≡ false
or_false a b e f = ground arith

-- What has an owner is there.
module _ {A : Type 0} (own : Option A → Option ℕ) (absent : own none ≡ none) where
  pub live_there : (o : Option A) (i : ℕ) → own o ≡ some i → is_none o ≡ false
  live_there none i e = absurd (let bad : none ≡ some i = sym absent ∙ e in cc)
  live_there (some x) i e = refl

pub destroy_tty_there :
    (t : TtyDriver) (h i : ℕ)
    → tty_owner t h ≡ some i
    → is_fault (hwe_destroy_tty_device t h).1 ≡ false
unfolding hwe_destroy_tty_device
destroy_tty_there t h i live = elim (Option-cases (t.devices h)) [
  | inl e ↦ absurd (let bad : none ≡ some i = sym (ap hwedev_of e) ∙ live in cc)
  | inr (dev, e) ↦ rw e refl
]
