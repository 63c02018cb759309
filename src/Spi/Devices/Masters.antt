-- ===== src/Spi/Devices/Masters.antt =====
-- The masters of kernel/hwe_spi.c: creating, destroying and unloading.
use linux_hardware_devices_e.Prelude.{
  ℕ, ◌≡◌, ◌≢◌, refl, ap, sym, subst, ◌∙◌, Bool-cases, Option-cases, inl, inr, Bool, true, false,
  List, [], ◌∷◌, Option, none, some, arith, All, ◌==◌, ==_refl, if◌then◌else◌,
}
use linux_hardware_devices_e.Consts.{Errno}
use linux_hardware_devices_e.Response.{zeroed}
use linux_hardware_devices_e.Pool.{Pool, addresses, lookup, remove, IsDistinct}
use linux_hardware_devices_e.Pool.Laws.{lookup_fresh, lookup-remove, remove-IsDistinct}
use linux_hardware_devices_e.Handles.{given}
use linux_hardware_devices_e.Spi.Devices.{
  SpiEntry, SpiDevices, SpiEnv, unregister, registered, allocated, new_dev, hwe_create_spi_device,
  del_dev, hwe_destroy_spi_device, destroy_each, hwe_cleanup_spi,
}

abbrev pub hwedev_of : Option SpiEntry → Option ℕ
hwedev_of none = none
hwedev_of (some e) = some e.hwedev

-- The device that the private data at an address belong to.
abbrev pub spi_owner : SpiDevices → ℕ → Option ℕ
spi_owner s a = hwedev_of (lookup s.devices a)

-- What a creation for a device does: see the laws of the drivers.
pub record Created (s : SpiDevices) (i : ℕ) (x : SpiDevices × Option ℕ) : Type 0 where
  pub distinct : IsDistinct x.0.devices
  pub fresh : (h : ℕ) → x.1 ≡ some h → spi_owner s h ≡ none
  pub owners : (k : ℕ) → spi_owner x.0 k ≡ given x.1 i k (spi_owner s k)

module _ (env : SpiEnv) (s : SpiDevices) (i : ℕ) (v : IsDistinct s.devices) where
  abbrev priv : SpiEntry
  priv = record { hwedev = i; index = i; response = zeroed }

  registered-Created :
      (a : ℕ)
      → All (λ b. b ≢ a) (addresses s.devices)
      → Created s i (registered env s a priv env.register_master)
  unfolding lookup
  registered-Created a apart = elim (Option-cases env.register_master) [
    | inr (err, r) ↦ rw r (record { distinct = v; fresh = λ h bad. cc; owners = λ k. refl })
    | inl r ↦ elim (Bool-cases env.new_device) [
      | inr n ↦ rw (r, n) (record { distinct = v; fresh = λ h bad. cc; owners = λ k. refl })
      | inl n ↦
          rw (r, n)
            (record {
              distinct = (apart, v);
              fresh = λ h e.
                  let ah : a ≡ h = cc in
                  ap hwedev_of (
                    lookup_fresh h s.devices
                      (subst (λ n. All (λ b. b ≢ n) (addresses s.devices)) ah apart));
              owners = λ k. ground arith;
            })
    ]
  ]

  pub create_spi-Created : Created s i (hwe_create_spi_device env s i i)
  unfolding hwe_create_spi_device new_dev
  create_spi-Created = elim (Option-cases (env.memory.alloc (addresses s.devices))) [
    | inl e ↦
        subst (λ o. Created s i (allocated env s i i o)) (sym e)
          (record { distinct = v; fresh = λ h bad. cc; owners = λ k. refl })
    | inr (a, e) ↦
        subst (λ o. Created s i (allocated env s i i o)) (sym e)
          (registered-Created a (env.memory.fresh (addresses s.devices) a e))
  ]

pub destroy_spi-IsDistinct :
    (s : SpiDevices) (h : ℕ)
    → IsDistinct s.devices
    → IsDistinct (hwe_destroy_spi_device s h).devices
unfolding hwe_destroy_spi_device del_dev
destroy_spi-IsDistinct s h v = remove-IsDistinct h s.devices v

pub destroy_spi_owner :
    (s : SpiDevices) (h k : ℕ)
    → IsDistinct s.devices
    → spi_owner (hwe_destroy_spi_device s h) k ≡ (if h == k then none else spi_owner s k)
unfolding hwe_destroy_spi_device del_dev
destroy_spi_owner s h k v = ap hwedev_of (lookup-remove h k s.devices v) ∙ ground arith

destroy_each_devices :
    (list : Pool SpiEntry) (s : SpiDevices) → s.devices ≡ list → (destroy_each list s).devices ≡ []
unfolding destroy_each hwe_destroy_spi_device del_dev
destroy_each_devices [] s e = e
destroy_each_devices (x ∷ rest) s e = destroy_each_devices rest (hwe_destroy_spi_device s x.0) (
    unfold remove in
    ap (remove x.0) e ∙ ap (λ b. if b then rest else x ∷ remove x.0 rest) (==_refl x.0))

pub hwe_cleanup_spi_devices : (s : SpiDevices) → (hwe_cleanup_spi s).devices ≡ []
unfolding hwe_cleanup_spi
hwe_cleanup_spi_devices s = destroy_each_devices s.devices s refl

-- The masters of the devices that are listed are the ones that are registered.
destroy_each_masters :
    (list : Pool SpiEntry) (s : SpiDevices)
    → s.masters ≡ addresses list
    → (destroy_each list s).masters ≡ []
unfolding destroy_each hwe_destroy_spi_device del_dev
destroy_each_masters [] s e = e
destroy_each_masters (x ∷ rest) s e = destroy_each_masters rest (hwe_destroy_spi_device s x.0) (
    unfold unregister in
    ap (unregister x.0) e
    ∙ ap (λ b. if b then addresses rest else x.0 ∷ unregister x.0 (addresses rest)) (==_refl x.0))

-- Unloading the spi driver destroys every device that is listed and unregisters the platform device
-- and its driver; if the registered masters are those of the listed devices, none is left registered.
pub hwe_cleanup_spi_empty :
    (s : SpiDevices)
    → s.masters ≡ addresses s.devices
    → ((hwe_cleanup_spi s).devices ≡ [])
      × ((hwe_cleanup_spi s).masters ≡ [])
      × ((hwe_cleanup_spi s).plat_device ≡ false)
      × ((hwe_cleanup_spi s).plat_driver ≡ false)
unfolding hwe_cleanup_spi
hwe_cleanup_spi_empty s e =
    (destroy_each_devices s.devices s refl, destroy_each_masters s.devices s e, refl, refl)

-- A master in front that is of no listed device stays registered.
destroy_each_left :
    (a : ℕ) (list : Pool SpiEntry) (s : SpiDevices)
    → s.masters ≡ a ∷ addresses list
    → All (λ b. b ≢ a) (addresses list)
    → (destroy_each list s).masters ≡ a ∷ []
unfolding destroy_each hwe_destroy_spi_device del_dev
destroy_each_left a [] s e apart = e
destroy_each_left a (x ∷ rest) s e apart =
    destroy_each_left a rest (hwe_destroy_spi_device s x.0)
      (unfold unregister in
        let other : (a == x.0) ≡ false = ground (arith, apart.0) in
        ap (unregister x.0) e
        ∙ ap
            (λ b.
              if b
              then x.0 ∷ addresses rest
              else a
                ∷ (if x.0 == x.0 then addresses rest else x.0 ∷ unregister x.0 (addresses rest)))
            other
        ∙ ap (λ b. a ∷ (if b then addresses rest else x.0 ∷ unregister x.0 (addresses rest)))
            (==_refl x.0))
      apart.1

-- The master that a creation leaves registered for good: one that the SPI core has taken, where no
-- device could be added to it.
abbrev leaked_of : Option ℕ → Option Errno → Bool → List ℕ
leaked_of (some a) none false = a ∷ []
leaked_of _ _ _ = []

abbrev pub leaked : SpiEnv → SpiDevices → List ℕ
leaked env s = leaked_of (env.memory.alloc (addresses s.devices)) env.register_master env.new_device

module _ (env : SpiEnv) (s : SpiDevices) (hwedev index : ℕ)
    (own : s.masters ≡ addresses s.devices) where
  create_from : Option ℕ → Option Errno → Bool → SpiDevices
  create_from o e made =
      (allocated (record env { register_master = e; new_device = made }) s hwedev index o).0

  cleanup_from :
      (o : Option ℕ) (e : Option Errno) (made : Bool)
      → ((a : ℕ) → o ≡ some a → All (λ b. b ≢ a) (addresses s.devices))
      → (hwe_cleanup_spi (create_from o e made)).masters ≡ leaked_of o e made
  unfolding create_from hwe_cleanup_spi
  cleanup_from none e made fresh = destroy_each_masters s.devices s own
  cleanup_from (some a) (some e) made fresh = destroy_each_masters s.devices s own
  cleanup_from (some a) none true fresh =
      let made = create_from (some a) none true in
      destroy_each_masters made.devices made (ap (λ list. a ∷ list) own)
  cleanup_from (some a) none false fresh =
      destroy_each_left a s.devices (create_from (some a) none false) (ap (λ list. a ∷ list) own)
        (fresh a refl)

  -- Where the registered masters are those of the listed devices, one creation, whatever the kernel
  -- answers, and then unloading the driver, which destroys every listed device, leave no master
  -- registered but the one that spi_register_master() took and spi_new_device() then failed for:
  -- that one stays registered.
  pub hwe_cleanup_spi-hwe_create_spi_device :
      (hwe_cleanup_spi (hwe_create_spi_device env s hwedev index).0).masters ≡ leaked env s
  unfolding hwe_create_spi_device new_dev create_from
  hwe_cleanup_spi-hwe_create_spi_device =
      cleanup_from (env.memory.alloc (addresses s.devices)) env.register_master env.new_device
        (env.memory.fresh (addresses s.devices))
