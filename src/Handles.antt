-- ===== src/Handles.antt =====
-- What kernel/hwe_sysfs.c relies on in the table `dev_ops`, and the link between the two sides: a
-- device's `device` points to the driver's private data, whose `hwedev` points back. `owner` is the
-- device, by its index, that live private data belong to, and `none` where a handle is not live.
pub mod Links
pub mod Shutdown
pub mod Create
pub mod Calls
pub mod Rounds
pub mod Unload
use linux_hardware_devices_e.Prelude.{
  ℕ, ◌≡◌, ◌≢◌, false, List, Option, none, some, ◌==◌, if◌then◌else◌,
}
use linux_hardware_devices_e.Consts.{Iface, iface_eq}
use linux_hardware_devices_e.Utils.Pair.{HwePair}
use linux_hardware_devices_e.Sysfs.Dev.{HweDev}
use linux_hardware_devices_e.Sysfs.Registry.{DevOps, State, find_device_by_index}
use linux_hardware_devices_e.Async.{AsyncRx}

abbrev pub Owner : Type 0 → Type 0
Owner D = D → Iface → ℕ → Option ℕ

-- The owner of a handle behind a creation for a device: the new handle has that owner.
abbrev pub given : Option ℕ → ℕ → ℕ → Option ℕ → Option ℕ
given none i k old = old
given (some h) i k old = if h == k then some i else old

-- The laws of the drivers: a device is created only for an index that owns nothing yet, and only live
-- private data are destroyed.
pub record Contract {D : Type 0} (ops : DevOps D) (owner : Owner D) (Valid : D → Type 0)
    : Type 0 where
  pub create_valid :
      (d : D) (iface : Iface) (i : ℕ)
      → Valid d
      → ((h : ℕ) → owner d iface h ≢ some i)
      → Valid (ops.create d iface i).0
  pub create_fresh :
      (d : D) (iface : Iface) (i h : ℕ)
      → Valid d
      → ((k : ℕ) → owner d iface k ≢ some i)
      → (ops.create d iface i).1 ≡ some h
      → owner d iface h ≡ none
  pub create_owner :
      (d : D) (iface : Iface) (i k : ℕ)
      → Valid d
      → ((h : ℕ) → owner d iface h ≢ some i)
      → owner (ops.create d iface i).0 iface k
        ≡ given (ops.create d iface i).1 i k (owner d iface k)
  pub create_apart :
      (d : D) (iface j : Iface) (i k : ℕ)
      → iface_eq iface j ≡ false
      → owner (ops.create d iface i).0 j k ≡ owner d j k
  pub destroy_valid :
      (d : D) (iface : Iface) (h i : ℕ)
      → Valid d
      → owner d iface h ≡ some i
      → Valid (ops.destroy d iface h)
  pub destroy_owner :
      (d : D) (iface : Iface) (h i k : ℕ)
      → Valid d
      → owner d iface h ≡ some i
      → owner (ops.destroy d iface h) iface k ≡ (if h == k then none else owner d iface k)
  pub destroy_apart :
      (d : D) (iface j : Iface) (h k : ℕ)
      → iface_eq iface j ≡ false
      → owner (ops.destroy d iface h) j k ≡ owner d j k

-- The laws of the asynchronous handlers, on live private data: they give nothing to another owner.
pub record Keeps {D : Type 0} (rx : AsyncRx D) (owner : Owner D) (Valid : D → Type 0) : Type 0 where
  pub keeps_valid :
      (d : D) (iface : Iface) (h i : ℕ) (p : HwePair)
      → Valid d
      → owner d iface h ≡ some i
      → Valid (rx d iface (some h) p)
  pub keeps_owner :
      (d : D) (iface : Iface) (h : ℕ) (p : HwePair) (j : Iface) (k : ℕ)
      → owner (rx d iface (some h) p) j k ≡ owner d j k

abbrev pub device_of : Option HweDev → Option (Option ℕ)
device_of none = none
device_of (some dev) = some dev.device

-- The private data of the device at an index: `some none` is a device with no private data.
abbrev pub handle_at : List HweDev → ℕ → Option (Option ℕ)
handle_at list i = device_of (find_device_by_index list i)

-- Every listed device has live private data, which it owns, and whatever is live is the private data
-- of the listed device that owns it.
pub record LinkedIn (own : ℕ → Option ℕ) (list : List HweDev) : Type 0 where
  pub held :
      (i : ℕ) (o : Option ℕ) → handle_at list i ≡ some o → (h : ℕ) × (o ≡ some h) × (own h ≡ some i)
  pub owned : (h i : ℕ) → own h ≡ some i → handle_at list i ≡ some (some h)

-- The links of every interface, and the drivers' own invariant.
pub record Linked {D : Type 0} (owner : Owner D) (Valid : D → Type 0) (st : State D) : Type 0 where
  pub valid : Valid st.drivers
  pub links : (i : Iface) → LinkedIn (owner st.drivers i) (st.ifaces i).dev_list
