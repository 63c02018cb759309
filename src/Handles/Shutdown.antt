-- ===== src/Handles/Shutdown.antt =====
-- Shutting a device down keeps the links between the devices and their private data.
use linux_hardware_devices_e.Prelude.{
  ℕ, ◌≡◌, refl, ap, sym, subst, ◌∙◌, Bool-cases, inl, inr, true, false, none, some, ◌==◌,
  if◌then◌else◌,
}
use linux_hardware_devices_e.Consts.{Iface, tty, i2c, net, spi, iface_eq}
use linux_hardware_devices_e.Sysfs.Dev.{HweDev, clear_pairs}
use linux_hardware_devices_e.Sysfs.Dev.Invariant.{clear_pairs_same}
use linux_hardware_devices_e.Sysfs.Registry.{
  HweIface, DevOps, State, find_device_by_index, unlink, del_dev, set_iface, destroy_device,
  shutdown_dev,
}
use linux_hardware_devices_e.Sysfs.Registry.Lists.{Registries}
use linux_hardware_devices_e.Sysfs.Registry.Invariant.{set_iface_self}
use linux_hardware_devices_e.Handles.{Owner, Contract, handle_at, LinkedIn, Linked, device_of}
use linux_hardware_devices_e.Handles.Links.{LinkedIn-same, handle_at-unlink, LinkedIn-removed}

pub iface_eq_sound : (i j : Iface) → iface_eq i j ≡ true → i ≡ j
iface_eq_sound tty tty e = refl
iface_eq_sound i2c i2c e = refl
iface_eq_sound net net e = refl
iface_eq_sound spi spi e = refl
iface_eq_sound _ _ e = cc

module _ {D : Type 0} where
  pub set_iface_ne :
      (st : State D) (iface j : Iface) (ifc : HweIface)
      → iface_eq iface j ≡ false
      → (set_iface st iface ifc).ifaces j ≡ st.ifaces j
  set_iface_ne st iface j ifc e = ap (λ b. if b then ifc else st.ifaces j) e

module _ {D : Type 0} (owner : Owner D) (Valid : D → Type 0) where
  -- A change of one interface and of what it owns.
  pub Linked-by :
      (st st' : State D) (iface : Iface)
      → Linked owner Valid st
      → Valid st'.drivers
      → LinkedIn (owner st'.drivers iface) (st'.ifaces iface).dev_list
      → ((j : Iface) (k : ℕ)
          → iface_eq iface j ≡ false
          → owner st'.drivers j k ≡ owner st.drivers j k)
      → ((j : Iface) → iface_eq iface j ≡ false → (st'.ifaces j).dev_list ≡ (st.ifaces j).dev_list)
      → Linked owner Valid st'
  Linked-by st st' iface l valid here apart lists = record {
    valid = valid;
    links = λ j. elim (Bool-cases (iface_eq iface j)) [
      | inl e ↦
          subst (λ k. LinkedIn (owner st'.drivers k) (st'.ifaces k).dev_list)
            (iface_eq_sound iface j e) here
      | inr e ↦
          LinkedIn-same (owner st.drivers j) (owner st'.drivers j) (st.ifaces j).dev_list
            (st'.ifaces j).dev_list (λ k. apart j k e)
            (λ i. ap (λ list. handle_at list i) (lists j e)) (l.links j)
    ];
  }

module _ {D : Type 0} (ops : DevOps D) (owner : Owner D) (Valid : D → Type 0)
    (laws : Contract ops owner Valid) where
  -- The private data go with the device.
  module _ (st : State D) (dev : HweDev) (v : Registries st) (l : Linked owner Valid st)
      (found : find_device_by_index (st.ifaces dev.iface).dev_list dev.index ≡ some dev) where
    without : ℕ → State D
    without h = record st { drivers = ops.destroy st.drivers dev.iface h }

    gone : ℕ → State D
    gone h =
        set_iface (without h) dev.iface (del_dev (clear_pairs dev) ((without h).ifaces dev.iface))

    gone-Linked :
        (h : ℕ) → owner st.drivers dev.iface h ≡ some dev.index → Linked owner Valid (gone h)
    unfolding gone without del_dev
    gone-Linked h live =
        let ifc = st.ifaces dev.iface in
        let d' = ops.destroy st.drivers dev.iface h in
        let list' = unlink (clear_pairs dev).index ifc.dev_list in
        let after : (i : ℕ)
            → handle_at list' i ≡ (if dev.index == i then none else handle_at ifc.dev_list i) =
          λ i.
            ap (λ n. handle_at (unlink n ifc.dev_list) i) (clear_pairs_same dev).0
            ∙ handle_at-unlink dev.iface ifc.dev_indexes dev.index ifc.dev_list i
                (v dev.iface).devices in
        Linked-by owner Valid st (gone h) dev.iface l
          (laws.destroy_valid st.drivers dev.iface h dev.index l.valid live)
          (subst (λ (x : HweIface). LinkedIn (owner d' dev.iface) x.dev_list)
            (sym (set_iface_self (without h) dev.iface _))
            (LinkedIn-removed (owner st.drivers dev.iface) (owner d' dev.iface) ifc.dev_list list' h
              dev.index (l.links dev.iface) live
              (λ k. laws.destroy_owner st.drivers dev.iface h dev.index k l.valid live) after))
          (λ j k e. laws.destroy_apart st.drivers dev.iface j h k e)
          (λ j e. ap (λ (x : HweIface). x.dev_list) (set_iface_ne (without h) dev.iface j _ e))

    shutdown_with : (h : ℕ) → dev.device ≡ some h → shutdown_dev ops st dev ≡ gone h
    unfolding shutdown_dev gone without destroy_device
    shutdown_with h e = rw e refl

    pub shutdown_dev-Linked : Linked owner Valid (shutdown_dev ops st dev)
    shutdown_dev-Linked =
        let (h, e, live) = (l.links dev.iface).held dev.index dev.device (ap device_of found) in
        subst (Linked owner Valid) (sym (shutdown_with h e)) (gone-Linked h live)
