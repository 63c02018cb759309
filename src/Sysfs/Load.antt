-- ===== src/Sysfs/Load.antt =====
-- Loading and unloading in kernel/hwe_sysfs.c: the kset, the interfaces' objects, and the loop that
-- shuts down what an interface has left.
pub mod Ready
pub mod Empty
use linux_hardware_devices_e.Prelude.{
  ℕ, zero, suc, Bool, true, false, List, [], ◌∷◌, Option, none, some, length, replicate,
  if◌then◌else◌,
}
use linux_hardware_devices_e.Consts.{
  Iface, tty, i2c, net, spi, iface_eq, hwe_max_devices, Errno, enomem,
}
use linux_hardware_devices_e.Sysfs.Dev.{HweDev}
use linux_hardware_devices_e.Sysfs.Registry.{HweIface, DevOps, State, set_iface, shutdown_dev}

-- The state with the objects: `base_kset` is registered, and an interface's object is added.
pub record Sysfs (D : Type 0) : Type 0 where
  pub state : State D
  pub base_kset : Bool
  pub kobjs : Iface → Bool

abbrev pub set_kobj : Iface → Bool → (Iface → Bool) → Iface → Bool
set_kobj iface b kobjs j = if iface_eq iface j then b else kobjs j

-- What init_iface() writes.
abbrev pub empty_iface : HweIface
empty_iface = record { dev_list = []; sem = 1; dev_indexes = replicate hwe_max_devices false }

module _ {D : Type 0} where
  abbrev kobject_added : Sysfs D → Iface → Option Errno → Sysfs D × Option Errno
  kobject_added s iface none = (record s { kobjs = set_kobj iface true s.kobjs }, none)
  kobject_added s iface (some e) = (s, some e)

  -- With the error of kobject_init_and_add(); `none` is the result 0.
  unfoldable pub init_iface : Option Errno → Sysfs D → Iface → Sysfs D × Option Errno
  init_iface kobject_add s iface =
      kobject_added (record s { state = set_iface s.state iface empty_iface }) iface kobject_add

module _ {D : Type 0} (ops : DevOps D) where
  -- The loop `while (!list_empty(dl))`, at most `n` times around.
  unfoldable pub shutdown_all : ℕ → State D → Iface → State D
  shutdown_all zero st iface = st
  shutdown_all (suc n) st iface = elim (st.ifaces iface).dev_list [
    | [] ↦ st
    | dev ∷ rest ↦ shutdown_all n (shutdown_dev ops st dev) iface
  ]

  unfoldable pub cleanup_iface : Sysfs D → Iface → Sysfs D
  unfolding shutdown_all
  cleanup_iface s iface = record s {
    state = shutdown_all (length (s.state.ifaces iface).dev_list) s.state iface;
    kobjs = set_kobj iface false s.kobjs;
  }

  -- The interfaces that were initialised, last first.
  unfoldable pub cleanup_ifaces : List Iface → Sysfs D → Sysfs D
  cleanup_ifaces [] s = s
  cleanup_ifaces (i ∷ done) s = cleanup_ifaces done (cleanup_iface s i)

  -- The loop from an interface on, with what the kernel answers for each.
  unfoldable pub init_ifaces :
      (Iface → Option Errno) → List Iface → List Iface → Sysfs D → Sysfs D × Option Errno
  unfolding cleanup_ifaces
  init_ifaces answers [] done s = (s, none)
  init_ifaces answers (i ∷ rest) done s =
      let (s₁, e) = init_iface (answers i) s i in
      let next = init_ifaces answers rest (i ∷ done) s₁ in
      elim e [ none ↦ next | some err ↦ (cleanup_ifaces done s₁, some err) ]

  abbrev pub all_ifaces : List Iface
  all_ifaces = tty ∷ i2c ∷ net ∷ spi ∷ []

  -- Whether kset_create_and_add() succeeds, and what it answers for each interface. If an interface
  -- fails, the others are cleaned up, and the kset is not unregistered.
  unfoldable pub hwe_init_sysfs : Bool → (Iface → Option Errno) → Sysfs D → Sysfs D × Option Errno
  unfolding init_ifaces init_iface
  hwe_init_sysfs kset answers s =
      if kset
      then init_ifaces answers all_ifaces [] (record s { base_kset = true })
      else (s, some enomem)

  unfoldable pub hwe_cleanup_sysfs : Sysfs D → Sysfs D
  unfolding cleanup_ifaces cleanup_iface
  hwe_cleanup_sysfs s = record (cleanup_ifaces (spi ∷ net ∷ i2c ∷ tty ∷ []) s) { base_kset = false }
