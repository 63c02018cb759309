-- ===== src/Loading/Start.antt =====
-- A module that is loaded starts at a consistent state, and stays at consistent states.
use linux_hardware_devices_e.Prelude.{
  ℕ, ◌≡◌, refl, ap, sym, ◌∙◌, Bool, true, false, [], Option, none, some,
}
use linux_hardware_devices_e.Consts.{Iface, Errno}
use linux_hardware_devices_e.Sysfs.Registry.{find_device_by_index}
use linux_hardware_devices_e.Sysfs.Registry.Lists.{Registries}
use linux_hardware_devices_e.Sysfs.Load.{Sysfs}
use linux_hardware_devices_e.Handles.{handle_at}
use linux_hardware_devices_e.Tty.{TtyDriver, hwe_init_tty}
use linux_hardware_devices_e.Spi.Devices.{hwe_init_spi}
use linux_hardware_devices_e.Spi.Devices.Masters
use linux_hardware_devices_e.Drivers.{Drivers, owner, IsSound}
use linux_hardware_devices_e.Emulator.{Emulator}
use linux_hardware_devices_e.Emulator.Keeps.{IsConsistent}
use linux_hardware_devices_e.Loading.{LoadEnv, zero_whole, zero_drivers}

-- With no device and nothing live there is nothing to link.
pub empty-IsConsistent :
    (st : Emulator)
    → Registries st
    → ((i : Iface) → (st.ifaces i).dev_list ≡ [])
    → IsSound st.drivers
    → ((i : Iface) (h : ℕ) → owner st.drivers i h ≡ none)
    → IsConsistent st
unfolding find_device_by_index
empty-IsConsistent st v empty sound nothing = record {
  registries = v;
  linked = record {
    valid = sound;
    links = λ i. record {
      held = λ k o at.
          let bad : none ≡ some o = sym (ap (λ list. handle_at list k) (empty i)) ∙ at in absurd cc;
      owned = λ h k e. (let bad : none ≡ some k = sym (nothing i h) ∙ e in absurd cc);
    };
  };
}

pub init_tty_devices :
    (alloc : Bool) (register : Option Errno) (t : TtyDriver)
    → (hwe_init_tty alloc register t).0.devices ≡ t.devices
unfolding hwe_init_tty
init_tty_devices false register t = refl
init_tty_devices true none t = refl
init_tty_devices true (some e) t = refl

module _ (env : LoadEnv) where
  -- The drivers' state when their four units are initialized.
  abbrev started : Drivers
  started = record {
    ttys = (hwe_init_tty env.alloc_driver env.register_driver zero_drivers.ttys).0;
    i2cs = [];
    nets = [];
    spis = (hwe_init_spi env.plat_device env.plat_driver zero_drivers.spis).0;
    oops = false;
  }

  abbrev before_sysfs : Sysfs Drivers
  before_sysfs = record zero_whole.sysfs {
    state = record zero_whole.sysfs.state { drivers = started };
  }
