-- ===== src/Sysfs/Registry.antt =====
-- struct hwe_iface, `ifaces[]`, and the functions of kernel/hwe_sysfs.c that find, create and shut
-- down devices. `DevOps` is the table `dev_ops`: the drivers' private data are handles, and what the
-- drivers keep is a state of their own. A device in a list is known by its index.
pub mod Lists
pub mod Invariant
pub mod Sems
use linux_hardware_devices_e.Prelude.{
  ℕ, ◌+◌, Bool, true, false, List, [], ◌∷◌, ◌++◌, Option, none, some, Bytes, beq, decimal, ◌==◌,
  replicate, if◌then◌else◌,
}
use linux_hardware_devices_e.Consts.{Iface, iface_eq, hwe_max_devices, hwe_max_pairs}
use linux_hardware_devices_e.Utils.Lookup.{iface_to_str}
use linux_hardware_devices_e.Sysfs.Bitmap.{Bitmap, set_bit, clear_bit, find_first_zero_bit}
use linux_hardware_devices_e.Sysfs.Dev.{HweDev, clear_pairs}

pub record HweIface : Type 0 where
  pub dev_list : List HweDev
  pub sem : ℕ
  pub dev_indexes : Bitmap

-- The creation and the destruction of a device by its driver, as they change the drivers' state.
pub record DevOps (D : Type 0) : Type 0 where
  pub create : D → Iface → ℕ → D × Option ℕ
  pub destroy : D → Iface → ℕ → D

pub record State (D : Type 0) : Type 0 where
  pub ifaces : Iface → HweIface
  pub drivers : D

-- What the kernel answers to a call that adds a device: kzalloc(), kobject_init_and_add() and
-- kobject_create_and_add() succeed.
pub record DevEnv : Type 0 where
  pub kzalloc : Bool
  pub kobject_add : Bool
  pub pairs_dir : Bool

-- The object's name, "%s%ld".
unfoldable pub kobject_name : HweDev → Bytes
kobject_name dev = iface_to_str dev.iface ++ decimal dev.index

-- `none` is the result -1.
unfoldable pub find_free_dev_index : HweIface → Option ℕ
find_free_dev_index ifc =
    let ret = find_first_zero_bit ifc.dev_indexes in
    if ret == hwe_max_devices then none else some ret

abbrev pub take_dev_index : ℕ → HweIface → HweIface
take_dev_index index ifc = record ifc { dev_indexes = set_bit index ifc.dev_indexes }

abbrev pub put_dev_index : ℕ → HweIface → HweIface
put_dev_index index ifc = record ifc { dev_indexes = clear_bit index ifc.dev_indexes }

-- strcmp() of a device's name with the name that is sought.
unfoldable pub find_device : List HweDev → Bytes → Option HweDev
find_device [] name = none
find_device (d ∷ list) name = if beq (kobject_name d) name then some d else find_device list name

unfoldable pub find_device_by_index : List HweDev → ℕ → Option HweDev
find_device_by_index [] index = none
find_device_by_index (d ∷ list) index =
    if d.index == index then some d else find_device_by_index list index

unfoldable pub unlink : ℕ → List HweDev → List HweDev
unlink index [] = []
unlink index (d ∷ list) = if d.index == index then list else d ∷ unlink index list

unfoldable pub find_first_device : List HweDev → Option HweDev
find_first_device [] = none
find_first_device (d ∷ list) = some d

-- The device behind the one at an index.
unfoldable pub find_next_device : List HweDev → ℕ → Option HweDev
unfolding find_first_device
find_next_device [] index = none
find_next_device (d ∷ list) index =
    if d.index == index then find_first_device list else find_next_device list index

-- A device changed in place.
unfoldable pub update_dev : HweDev → List HweDev → List HweDev
update_dev dev [] = []
update_dev dev (d ∷ list) = if d.index == dev.index then dev ∷ list else d ∷ update_dev dev list

-- The device that add_dev() links at the head of the list; kzalloc() makes its fields 0.
abbrev pub blank_dev : Iface → ℕ → HweDev
blank_dev iface index = record {
  pair_list = [];
  iface = iface;
  index = index;
  device = none;
  pairs_kobj = false;
  pairs_indexes = replicate hwe_max_pairs false;
}

unfoldable pub add_dev : HweDev → HweIface → HweIface
add_dev dev ifc = record (take_dev_index dev.index ifc) { dev_list = dev ∷ ifc.dev_list }

-- list_del(), put_dev_index() and kfree().
unfoldable pub del_dev : HweDev → HweIface → HweIface
unfolding unlink
del_dev dev ifc = record (put_dev_index dev.index ifc) { dev_list = unlink dev.index ifc.dev_list }

module _ {D : Type 0} where
  abbrev pub set_iface : State D → Iface → HweIface → State D
  set_iface st iface ifc = record st { ifaces = λ j. if iface_eq iface j then ifc else st.ifaces j }

module _ {D : Type 0} (ops : DevOps D) where
  open ops use {create, destroy}

  -- dev_ops[].destroy() of a device that has private data.
  unfoldable pub destroy_device : State D → HweDev → State D
  destroy_device st dev = elim dev.device [
    | none ↦ st
    | some priv ↦ record st { drivers = destroy st.drivers dev.iface priv }
  ]

  -- The pairs go first: what is unlinked has none. kobject_put() frees the device.
  unfoldable pub shutdown_dev : State D → HweDev → State D
  unfolding destroy_device clear_pairs del_dev
  shutdown_dev st dev =
      let st' = destroy_device st dev in
      set_iface st' dev.iface (del_dev (clear_pairs dev) (st'.ifaces dev.iface))

  -- From the driver's answer on; `dev` is linked already.
  unfoldable pub finish_dev : DevEnv → State D → HweDev → Option ℕ → State D × Option HweDev
  finish_dev env st dev none = (set_iface st dev.iface (del_dev dev (st.ifaces dev.iface)), none)
  finish_dev env st dev (some priv) =
      let made = record dev { device = some priv } in
      let ready = record made { pairs_kobj = true } in
      let ifc = st.ifaces dev.iface in
      if env.kobject_add
      then if env.pairs_dir
        then (
          set_iface st dev.iface (record ifc { dev_list = update_dev ready ifc.dev_list }),
          some ready,
        )
        else (
          shutdown_dev
              (set_iface st dev.iface (record ifc { dev_list = update_dev made ifc.dev_list }))
              made,
          none,
        )
      else (
        shutdown_dev
            (set_iface st dev.iface (record ifc { dev_list = update_dev made ifc.dev_list })) made,
        none,
      )

  -- `none` is the result NULL.
  unfoldable pub new_dev_at : DevEnv → State D → Iface → Option ℕ → State D × Option HweDev
  new_dev_at env st iface none = (st, none)
  new_dev_at env st iface (some idx) =
      let dev = blank_dev iface idx in
      let linked = set_iface st iface (add_dev dev (st.ifaces iface)) in
      let made = create linked.drivers iface idx in
      if env.kzalloc
      then finish_dev env (record linked { drivers = made.0 }) dev made.1
      else (st, none)

  unfoldable pub new_dev : DevEnv → State D → Iface → State D × Option HweDev
  unfolding new_dev_at finish_dev add_dev update_dev
  new_dev env st iface = new_dev_at env st iface (find_free_dev_index (st.ifaces iface))
