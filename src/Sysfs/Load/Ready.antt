-- ===== src/Sysfs/Load/Ready.antt =====
-- What hwe_init_sysfs() leaves behind, when it succeeds and when it fails.
use linux_hardware_devices_e.Prelude.{
  ◌≡◌, refl, sym, subst, fun_ext, Bool, true, false, Option, none, some, length-replicate,
}
use linux_hardware_devices_e.Consts.{Iface, tty, i2c, net, spi, hwe_max_devices, Errno}
use linux_hardware_devices_e.Sysfs.Bitmap.{bitmap_weight-replicate}
use linux_hardware_devices_e.Sysfs.Registry.{DevOps}
use linux_hardware_devices_e.Sysfs.Registry.Lists.{IsRegistry, Registries}
use linux_hardware_devices_e.Sysfs.Load.{
  Sysfs, empty_iface, init_iface, cleanup_iface, cleanup_ifaces, init_ifaces, hwe_init_sysfs,
}

abbrev pub succeeded : Option Errno → Bool
succeeded none = true
succeeded (some e) = false

empty_iface-IsRegistry : (i : Iface) → IsRegistry i empty_iface
empty_iface-IsRegistry i = record {
  size = length-replicate hwe_max_devices false;
  devices = tt;
  counted = bitmap_weight-replicate hwe_max_devices;
}

-- The kernel's four answers.
abbrev pub pick : Option Errno → Option Errno → Option Errno → Option Errno → Iface → Option Errno
pick a b c d tty = a
pick a b c d i2c = b
pick a b c d net = c
pick a b c d spi = d

pub pick_all :
    (answers : Iface → Option Errno)
    → pick (answers tty) (answers i2c) (answers net) (answers spi) ≡ answers
pick_all answers = fun_ext at
  where
    at : (i : Iface) → pick (answers tty) (answers i2c) (answers net) (answers spi) i ≡ answers i
    at tty = refl
    at i2c = refl
    at net = refl
    at spi = refl

module _ {D : Type 0} (ops : DevOps D) (s : Sysfs D) (off : (i : Iface) → s.kobjs i ≡ false) where
  kobjs_at :
      (a b c d : Option Errno) (i : Iface)
      → (hwe_init_sysfs ops true (pick a b c d) s).0.kobjs i
        ≡ succeeded (hwe_init_sysfs ops true (pick a b c d) s).1
  unfolding hwe_init_sysfs init_ifaces init_iface cleanup_ifaces cleanup_iface
  kobjs_at (some e) b c d i = off i
  kobjs_at none (some e) c d tty = refl
  kobjs_at none (some e) c d i2c = off i2c
  kobjs_at none (some e) c d net = off net
  kobjs_at none (some e) c d spi = off spi
  kobjs_at none none (some e) d tty = refl
  kobjs_at none none (some e) d i2c = refl
  kobjs_at none none (some e) d net = off net
  kobjs_at none none (some e) d spi = off spi
  kobjs_at none none none (some e) tty = refl
  kobjs_at none none none (some e) i2c = refl
  kobjs_at none none none (some e) net = refl
  kobjs_at none none none (some e) spi = off spi
  kobjs_at none none none none tty = refl
  kobjs_at none none none none i2c = refl
  kobjs_at none none none none net = refl
  kobjs_at none none none none spi = refl

  base_kset_at :
      (a b c d : Option Errno) → (hwe_init_sysfs ops true (pick a b c d) s).0.base_kset ≡ true
  unfolding hwe_init_sysfs init_ifaces init_iface cleanup_ifaces cleanup_iface
  base_kset_at (some e) b c d = refl
  base_kset_at none (some e) c d = refl
  base_kset_at none none (some e) d = refl
  base_kset_at none none none (some e) = refl
  base_kset_at none none none none = refl

  kobjs_off :
      (answers : Iface → Option Errno) (i : Iface)
      → (hwe_init_sysfs ops false answers s).0.kobjs i
        ≡ succeeded (hwe_init_sysfs ops false answers s).1
  unfolding hwe_init_sysfs
  kobjs_off answers i = off i

  pub kobjs_by_result :
      (kset : Bool) (answers : Iface → Option Errno) (i : Iface)
      → (hwe_init_sysfs ops kset answers s).0.kobjs i
        ≡ succeeded (hwe_init_sysfs ops kset answers s).1
  kobjs_by_result false answers i = kobjs_off answers i
  kobjs_by_result true answers i =
      subst
        (λ f. (hwe_init_sysfs ops true f s).0.kobjs i ≡ succeeded (hwe_init_sysfs ops true f s).1)
        (pick_all answers) (kobjs_at (answers tty) (answers i2c) (answers net) (answers spi) i)

  -- Where nothing is loaded, the objects of all four interfaces are there behind hwe_init_sysfs() if it
  -- returns 0, and none of them if it returns an error. But the kset, once it is created, stays
  -- registered even where the error of an interface is returned.
  pub hwe_init_sysfs_cases :
      (kset : Bool) (answers : Iface → Option Errno) (i : Iface)
      → s.base_kset ≡ false
      → ((hwe_init_sysfs ops kset answers s).0.kobjs i
          ≡ succeeded (hwe_init_sysfs ops kset answers s).1)
        × ((hwe_init_sysfs ops kset answers s).0.base_kset ≡ kset)
  hwe_init_sysfs_cases false answers i no_kset =
      (kobjs_off answers i, unfold hwe_init_sysfs in no_kset)
  hwe_init_sysfs_cases true answers i no_kset =
      subst
        (λ f.
          ((hwe_init_sysfs ops true f s).0.kobjs i ≡ succeeded (hwe_init_sysfs ops true f s).1)
          × ((hwe_init_sysfs ops true f s).0.base_kset ≡ true))
        (pick_all answers)
        (
          kobjs_at (answers tty) (answers i2c) (answers net) (answers spi) i,
          base_kset_at (answers tty) (answers i2c) (answers net) (answers spi),
        )

registries_at :
    {D : Type 0} (ops : DevOps D) (s : Sysfs D) (a b c d : Option Errno)
    → (hwe_init_sysfs ops true (pick a b c d) s).1 ≡ none
    → (i : Iface) → ((hwe_init_sysfs ops true (pick a b c d) s).0.state.ifaces i ≡ empty_iface)
unfolding hwe_init_sysfs init_ifaces init_iface
registries_at ops s (some e) b c d is i = absurd cc
registries_at ops s none (some e) c d is i = absurd cc
registries_at ops s none none (some e) d is i = absurd cc
registries_at ops s none none none (some e) is i = absurd cc
registries_at ops s none none none none is tty = refl
registries_at ops s none none none none is i2c = refl
registries_at ops s none none none none is net = refl
registries_at ops s none none none none is spi = refl

-- When hwe_init_sysfs() returns 0, every interface is empty, with its semaphore free, and has the
-- invariant.
pub hwe_init_sysfs-Registries :
    {D : Type 0} (ops : DevOps D) (kset : Bool) (answers : Iface → Option Errno) (s : Sysfs D)
    → (hwe_init_sysfs ops kset answers s).1 ≡ none
    → ((i : Iface) → (hwe_init_sysfs ops kset answers s).0.state.ifaces i ≡ empty_iface)
      × Registries (hwe_init_sysfs ops kset answers s).0.state
hwe_init_sysfs-Registries ops false answers s is = absurd (unfold hwe_init_sysfs in cc)
hwe_init_sysfs-Registries ops true answers s is =
    let all : (i : Iface) → (hwe_init_sysfs ops true answers s).0.state.ifaces i ≡ empty_iface =
      subst
        (λ f.
          (hwe_init_sysfs ops true f s).1 ≡ none
          → (i : Iface) → (hwe_init_sysfs ops true f s).0.state.ifaces i ≡ empty_iface)
        (pick_all answers)
        (registries_at ops s (answers tty) (answers i2c) (answers net) (answers spi)) is in
    (all, λ i. subst (IsRegistry i) (sym (all i)) (empty_iface-IsRegistry i))

drivers_at :
    {D : Type 0} (ops : DevOps D) (s : Sysfs D) (a b c d : Option Errno)
    → (hwe_init_sysfs ops true (pick a b c d) s).1 ≡ none
    → (hwe_init_sysfs ops true (pick a b c d) s).0.state.drivers ≡ s.state.drivers
unfolding hwe_init_sysfs init_ifaces init_iface
drivers_at ops s (some e) b c d is = absurd cc
drivers_at ops s none (some e) c d is = absurd cc
drivers_at ops s none none (some e) d is = absurd cc
drivers_at ops s none none none (some e) is = absurd cc
drivers_at ops s none none none none is = refl

-- The drivers are not touched.
pub hwe_init_sysfs_drivers :
    {D : Type 0} (ops : DevOps D) (kset : Bool) (answers : Iface → Option Errno) (s : Sysfs D)
    → (hwe_init_sysfs ops kset answers s).1 ≡ none
    → (hwe_init_sysfs ops kset answers s).0.state.drivers ≡ s.state.drivers
hwe_init_sysfs_drivers ops false answers s is = absurd (unfold hwe_init_sysfs in cc)
hwe_init_sysfs_drivers ops true answers s is =
    subst
      (λ f.
        (hwe_init_sysfs ops true f s).1 ≡ none
        → (hwe_init_sysfs ops true f s).0.state.drivers ≡ s.state.drivers)
      (pick_all answers) (drivers_at ops s (answers tty) (answers i2c) (answers net) (answers spi))
      is
