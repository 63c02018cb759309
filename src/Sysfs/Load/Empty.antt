-- ===== src/Sysfs/Load/Empty.antt =====
-- Loading and unloading kernel/hwe_sysfs.c where no interface has a device: the drivers are not called.
use linux_hardware_devices_e.Prelude.{
  ◌≡◌, refl, ap, subst, ◌∙◌, Bool, true, false, [], Option, none, some, length,
}
use linux_hardware_devices_e.Consts.{Iface, tty, i2c, net, spi, Errno}
use linux_hardware_devices_e.Sysfs.Registry.{DevOps, State}
use linux_hardware_devices_e.Sysfs.Load.{
  Sysfs, set_kobj, shutdown_all, init_iface, cleanup_iface, cleanup_ifaces, init_ifaces,
  hwe_init_sysfs, hwe_cleanup_sysfs,
}
use linux_hardware_devices_e.Sysfs.Load.Ready.{pick, pick_all}

abbrev pub NoDevices : {D : Type 0} → State D → Type 0
NoDevices st = (i : Iface) → (st.ifaces i).dev_list ≡ []

module _ {D : Type 0} (ops : DevOps D) (s : Sysfs D) (none_left : NoDevices s.state) where
  devices_at :
      (a b c d : Option Errno) (i : Iface)
      → (((hwe_init_sysfs ops true (pick a b c d) s).0.state.ifaces i).dev_list ≡ [])
  unfolding hwe_init_sysfs init_ifaces init_iface cleanup_ifaces cleanup_iface shutdown_all
  devices_at (some e) b c d tty = refl
  devices_at (some e) b c d i2c = none_left i2c
  devices_at (some e) b c d net = none_left net
  devices_at (some e) b c d spi = none_left spi
  devices_at none (some e) c d tty = refl
  devices_at none (some e) c d i2c = refl
  devices_at none (some e) c d net = none_left net
  devices_at none (some e) c d spi = none_left spi
  devices_at none none (some e) d tty = refl
  devices_at none none (some e) d i2c = refl
  devices_at none none (some e) d net = refl
  devices_at none none (some e) d spi = none_left spi
  devices_at none none none (some e) tty = refl
  devices_at none none none (some e) i2c = refl
  devices_at none none none (some e) net = refl
  devices_at none none none (some e) spi = refl
  devices_at none none none none tty = refl
  devices_at none none none none i2c = refl
  devices_at none none none none net = refl
  devices_at none none none none spi = refl

  drivers_at :
      (a b c d : Option Errno)
      → (hwe_init_sysfs ops true (pick a b c d) s).0.state.drivers ≡ s.state.drivers
  unfolding hwe_init_sysfs init_ifaces init_iface cleanup_ifaces cleanup_iface shutdown_all
  drivers_at (some e) b c d = refl
  drivers_at none (some e) c d = refl
  drivers_at none none (some e) d = refl
  drivers_at none none none (some e) = refl
  drivers_at none none none none = refl

  -- Whatever the kernel answers, there are no devices, and the drivers are as they were.
  pub hwe_init_sysfs-NoDevices :
      (kset : Bool) (answers : Iface → Option Errno)
      → NoDevices (hwe_init_sysfs ops kset answers s).0.state
        × ((hwe_init_sysfs ops kset answers s).0.state.drivers ≡ s.state.drivers)
  unfolding hwe_init_sysfs
  hwe_init_sysfs-NoDevices false answers = (none_left, refl)
  hwe_init_sysfs-NoDevices true answers =
      subst
        (λ f.
          NoDevices (hwe_init_sysfs ops true f s).0.state
          × ((hwe_init_sysfs ops true f s).0.state.drivers ≡ s.state.drivers))
        (pick_all answers)
        (
          devices_at (answers tty) (answers i2c) (answers net) (answers spi),
          drivers_at (answers tty) (answers i2c) (answers net) (answers spi),
        )

module _ {D : Type 0} (ops : DevOps D) where
  abbrev without : Iface → Sysfs D → Sysfs D
  without i s = record s { kobjs = set_kobj i false s.kobjs }

  cleanup_iface-without :
      (s : Sysfs D) (i : Iface) → NoDevices s.state → cleanup_iface ops s i ≡ without i s
  unfolding cleanup_iface shutdown_all
  cleanup_iface-without s i none_left =
      ap (λ list. record (without i s) { state = shutdown_all ops (length list) s.state i })
        (none_left i)

  -- Unloading takes the objects away, and calls no driver.
  pub hwe_cleanup_sysfs-NoDevices :
      (s : Sysfs D)
      → NoDevices s.state
      → ((hwe_cleanup_sysfs ops s).state ≡ s.state)
        × ((i : Iface) → (hwe_cleanup_sysfs ops s).kobjs i ≡ false)
  unfolding hwe_cleanup_sysfs cleanup_ifaces
  hwe_cleanup_sysfs-NoDevices s none_left =
      let c : Iface → Sysfs D → Sysfs D = λ i x. cleanup_iface ops x i in
      let same : c tty (c i2c (c net (c spi s)))
          ≡ without tty (without i2c (without net (without spi s))) =
        ap (λ x. c tty (c i2c (c net x))) (cleanup_iface-without s spi none_left)
        ∙ ap (λ x. c tty (c i2c x)) (cleanup_iface-without (without spi s) net none_left)
        ∙ ap (λ x. c tty x) (cleanup_iface-without (without net (without spi s)) i2c none_left)
        ∙ cleanup_iface-without (without i2c (without net (without spi s))) tty none_left in
      (ap (λ (x : Sysfs D). x.state) same, λ i. ap (λ (x : Sysfs D). x.kobjs i) same ∙ all_off s i)
    where
      all_off :
          (x : Sysfs D) (i : Iface)
          → (without tty (without i2c (without net (without spi x)))).kobjs i ≡ false
      all_off x tty = refl
      all_off x i2c = refl
      all_off x net = refl
      all_off x spi = refl
