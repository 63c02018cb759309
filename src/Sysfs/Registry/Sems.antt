-- ===== src/Sysfs/Registry/Sems.antt =====
-- Creating and shutting down devices does not touch the semaphores.
use linux_hardware_devices_e.Prelude.{
  ℕ, ◌≡◌, refl, ◌∙◌, Bool-cases, inl, inr, true, Option, none, some, arith,
}
use linux_hardware_devices_e.Consts.{Iface, tty, i2c, net, spi}
use linux_hardware_devices_e.Sysfs.Dev.{HweDev}
use linux_hardware_devices_e.Sysfs.Registry.{
  HweIface, DevOps, State, DevEnv, find_free_dev_index, update_dev, blank_dev, add_dev, del_dev,
  set_iface, destroy_device, shutdown_dev, finish_dev, new_dev_at, new_dev,
}

module _ {D : Type 0} where
  -- The semaphores of two states have the same counts.
  abbrev pub SameSems : State D → State D → Type 0
  SameSems st st' = (i : Iface) → (st'.ifaces i).sem ≡ (st.ifaces i).sem

  pub set_iface_sems :
      (st : State D) (iface : Iface) (ifc : HweIface)
      → ifc.sem ≡ (st.ifaces iface).sem
      → SameSems st (set_iface st iface ifc)
  set_iface_sems st tty ifc e tty = e
  set_iface_sems st i2c ifc e i2c = e
  set_iface_sems st net ifc e net = e
  set_iface_sems st spi ifc e spi = e
  set_iface_sems st _ ifc e i = refl

module _ {D : Type 0} (ops : DevOps D) where
  destroy_device_sems : (st : State D) (dev : HweDev) → SameSems st (destroy_device ops st dev)
  unfolding destroy_device
  destroy_device_sems st dev i = ground arith

  pub shutdown_dev_sems : (st : State D) (dev : HweDev) → SameSems st (shutdown_dev ops st dev)
  unfolding shutdown_dev del_dev
  shutdown_dev_sems st dev i =
      set_iface_sems (destroy_device ops st dev) dev.iface _ refl i ∙ destroy_device_sems st dev i

  finish_dev_sems :
      (env : DevEnv) (st : State D) (dev : HweDev) (answer : Option ℕ)
      → SameSems st (finish_dev ops env st dev answer).0
  unfolding finish_dev del_dev
  finish_dev_sems env st dev none = set_iface_sems st dev.iface _ refl
  finish_dev_sems env st dev (some priv) =
      let made = record dev { device = some priv } in
      let with_dev : HweDev → HweIface = λ d. record (st.ifaces dev.iface) {
        dev_list = update_dev d (st.ifaces dev.iface).dev_list;
      } in
      let st' = set_iface st dev.iface (with_dev made) in
      let failed : SameSems st (shutdown_dev ops st' made) =
        λ i. shutdown_dev_sems st' made i ∙ set_iface_sems st dev.iface (with_dev made) refl i in
      elim (Bool-cases env.kobject_add) [
        | inl e ↦ elim (Bool-cases env.pairs_dir) [
          | inl e₂ ↦
              rw (e, e₂)
                (set_iface_sems st dev.iface (with_dev (record made { pairs_kobj = true })) refl)
          | inr e₂ ↦ rw (e, e₂) failed
        ]
        | inr e ↦ rw e failed
      ]

  new_dev_at_sems :
      (env : DevEnv) (st : State D) (iface : Iface) (free : Option ℕ)
      → SameSems st (new_dev_at ops env st iface free).0
  unfolding new_dev_at add_dev finish_dev
  new_dev_at_sems env st iface none = λ i. refl
  new_dev_at_sems env st iface (some idx) =
      let dev = blank_dev iface idx in
      let linked = set_iface st iface (add_dev dev (st.ifaces iface)) in
      let made = ops.create linked.drivers iface idx in
      elim (Bool-cases env.kzalloc) [
        | inr no_memory ↦ rw no_memory (λ i. refl)
        | inl memory ↦ rw memory (λ i.
            finish_dev_sems env (record linked { drivers = made.0 }) dev made.1 i
            ∙ set_iface_sems st iface (add_dev dev (st.ifaces iface)) refl i)
      ]

  pub new_dev_sems :
      (env : DevEnv) (st : State D) (iface : Iface) → SameSems st (new_dev ops env st iface).0
  unfolding new_dev
  new_dev_sems env st iface = new_dev_at_sems env st iface (find_free_dev_index (st.ifaces iface))
