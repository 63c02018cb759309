-- ===== src/Handles/Create.antt =====
-- Creating devices keeps the links between the devices and their private data.
use linux_hardware_devices_e.Prelude.{
  ℕ, ◌≡◌, ◌≢◌, refl, ap, sym, subst, ◌∙◌, Bool-cases, Option-cases, inl, inr, Bool, true, false,
  ◌∷◌, Option, none, some, arith, ==_refl, if◌then◌else◌,
}
use linux_hardware_devices_e.Consts.{Iface}
use linux_hardware_devices_e.Sysfs.Dev.{HweDev}
use linux_hardware_devices_e.Sysfs.Registry.{
  HweIface, DevOps, State, DevEnv, find_free_dev_index, find_device_by_index, unlink, update_dev,
  blank_dev, add_dev, del_dev, set_iface, shutdown_dev, finish_dev, new_dev_at, new_dev,
}
use linux_hardware_devices_e.Sysfs.Registry.Lists.{
  Registries, found_device, blank_dev-Inv, add_dev-IsRegistry, update_dev-IsRegistry,
}
use linux_hardware_devices_e.Sysfs.Registry.Invariant.{
  set_iface-Registries, set_iface_self, free_index,
}
use linux_hardware_devices_e.Handles.{
  Owner, given, Contract, handle_at, LinkedIn, Linked, device_of,
}
use linux_hardware_devices_e.Handles.Links.{LinkedIn-same, LinkedIn-added}
use linux_hardware_devices_e.Handles.Shutdown.{set_iface_ne, Linked-by, shutdown_dev-Linked}

module _ {D : Type 0} (ops : DevOps D) (owner : Owner D) (Valid : D → Type 0)
    (laws : Contract ops owner Valid) where
  -- A creation at a free index.
  module _ (st : State D) (iface : Iface) (idx : ℕ) (v : Registries st) (l : Linked owner Valid st)
      (free : find_free_dev_index (st.ifaces iface) ≡ some idx) where
    unlisted : handle_at (st.ifaces iface).dev_list idx ≡ none
    unlisted =
        let ifc = st.ifaces iface in
        elim (Option-cases (find_device_by_index ifc.dev_list idx)) [
          | inl e ↦ ap device_of e
          | inr (d, e) ↦
              let (bit, at, own, inv) =
                found_device iface ifc.dev_indexes idx ifc.dev_list d (v iface).devices e in
              let clear = (free_index ifc idx free (v iface).size).1 in absurd cc
        ]

    unowned : (h : ℕ) → owner st.drivers iface h ≢ some idx
    unowned h e =
        let at = (l.links iface).owned h idx e in
        let bad : none ≡ some (some h) = sym unlisted ∙ at in cc

    listed : State D
    listed = set_iface st iface (add_dev (blank_dev iface idx) (st.ifaces iface))

    created : State D
    created = record listed { drivers = (ops.create st.drivers iface idx).0 }

    created-Registries : Registries created
    unfolding created listed
    created-Registries =
        let ifc = st.ifaces iface in
        let lt = free_index ifc idx free (v iface).size in
        set_iface-Registries st iface _ v (
          add_dev-IsRegistry (blank_dev iface idx) iface ifc (v iface) refl
            (blank_dev-Inv iface idx) lt.0 lt.1)

    created_list :
        (created.ifaces iface).dev_list ≡ blank_dev iface idx ∷ (st.ifaces iface).dev_list
    unfolding created listed add_dev
    created_list = ap (λ (x : HweIface). x.dev_list) (set_iface_self st iface _)

    -- What becomes of the state that has the new device listed.
    edit-Linked :
        (ifc : HweIface)
        → LinkedIn (owner created.drivers iface) ifc.dev_list
        → Linked owner Valid (set_iface created iface ifc)
    unfolding created listed
    edit-Linked ifc here =
        Linked-by owner Valid st (set_iface created iface ifc) iface l
          (laws.create_valid st.drivers iface idx l.valid unowned)
          (subst (λ (x : HweIface). LinkedIn (owner created.drivers iface) x.dev_list)
            (sym (set_iface_self created iface ifc)) here)
          (λ j k e. laws.create_apart st.drivers iface j idx k e)
          (λ j e.
            ap (λ (x : HweIface). x.dev_list)
              (set_iface_ne created iface j ifc e ∙ set_iface_ne st iface j _ e))

    refused-Linked :
        (ops.create st.drivers iface idx).1 ≡ none
        → Linked owner Valid
            (set_iface created iface (del_dev (blank_dev iface idx) (created.ifaces iface)))
    unfolding created del_dev unlink
    refused-Linked e = edit-Linked _ (
        LinkedIn-same (owner st.drivers iface) (owner created.drivers iface)
          (st.ifaces iface).dev_list _
          (λ k.
            laws.create_owner st.drivers iface idx k l.valid unowned
            ∙ ap (λ o. given o idx k (owner st.drivers iface k)) e)
          (λ i.
            ap (λ list. handle_at (unlink idx list) i) created_list
            ∙ ap
                (λ b.
                  handle_at
                    (if b
                      then (st.ifaces iface).dev_list
                      else blank_dev iface idx ∷ unlink idx (st.ifaces iface).dev_list)
                    i)
                (==_refl idx))
          (l.links iface))

    abbrev device_with : ℕ → Bool → HweDev
    device_with h b = record (blank_dev iface idx) { device = some h; pairs_kobj = b }

    abbrev with_device : HweDev → State D
    with_device dev = set_iface created iface (record (created.ifaces iface) {
      dev_list = update_dev dev (created.ifaces iface).dev_list;
    })

    updated_list :
        (h : ℕ) (b : Bool)
        → update_dev (device_with h b) (created.ifaces iface).dev_list
          ≡ device_with h b ∷ (st.ifaces iface).dev_list
    unfolding update_dev
    updated_list h b =
        ap (update_dev (device_with h b)) created_list
        ∙ ap
            (λ c.
              if c
              then device_with h b ∷ (st.ifaces iface).dev_list
              else blank_dev iface idx ∷ update_dev (device_with h b) (st.ifaces iface).dev_list)
            (==_refl idx)

    with_device-Linked :
        (h : ℕ) (b : Bool)
        → (ops.create st.drivers iface idx).1 ≡ some h
        → Linked owner Valid (with_device (device_with h b))
    unfolding created find_device_by_index
    with_device-Linked h b e = edit-Linked _ (
        LinkedIn-added (owner st.drivers iface) (owner created.drivers iface)
          (st.ifaces iface).dev_list (update_dev (device_with h b) (created.ifaces iface).dev_list)
          h idx (l.links iface) (laws.create_fresh st.drivers iface idx h l.valid unowned e)
          unlisted
          (λ k.
            laws.create_owner st.drivers iface idx k l.valid unowned
            ∙ ap (λ o. given o idx k (owner st.drivers iface k)) e)
          (λ i. ap (λ list. handle_at list i) (updated_list h b) ∙ ground arith))

    made-found :
        (h : ℕ)
        → find_device_by_index ((with_device (device_with h false)).ifaces iface).dev_list idx
          ≡ some (device_with h false)
    unfolding find_device_by_index
    made-found h =
        ap (λ (x : HweIface). find_device_by_index x.dev_list idx) (set_iface_self created iface _)
        ∙ ap (λ list. find_device_by_index list idx) (updated_list h false)
        ∙ ground (arith, ==_refl idx)

    made-Registries : (h : ℕ) → Registries (with_device (device_with h false))
    made-Registries h = set_iface-Registries created iface _ created-Registries (
        update_dev-IsRegistry (device_with h false) iface (created.ifaces iface)
          (created-Registries iface) refl
          (let inv = blank_dev-Inv iface idx in
            record { size = inv.size; entries = inv.entries; counted = inv.counted }))

    failed-Linked :
        (h : ℕ)
        → (ops.create st.drivers iface idx).1 ≡ some h
        → Linked owner Valid
            (shutdown_dev ops (with_device (device_with h false)) (device_with h false))
    failed-Linked h e =
        shutdown_dev-Linked ops owner Valid laws (with_device (device_with h false))
          (device_with h false) (made-Registries h) (with_device-Linked h false e) (made-found h)

    finish_dev-Linked :
        (env : DevEnv) (answer : Option ℕ)
        → (ops.create st.drivers iface idx).1 ≡ answer
        → Linked owner Valid (finish_dev ops env created (blank_dev iface idx) answer).0
    unfolding finish_dev
    finish_dev-Linked env none e = refused-Linked e
    finish_dev-Linked env (some h) e = elim (Bool-cases env.kobject_add) [
      | inl t ↦ elim (Bool-cases env.pairs_dir) [
        | inl t₂ ↦ rw (t, t₂) (with_device-Linked h true e)
        | inr f ↦ rw (t, f) (failed-Linked h e)
      ]
      | inr f ↦ rw f (failed-Linked h e)
    ]

    new_dev_at-Linked :
        (env : DevEnv) → Linked owner Valid (new_dev_at ops env st iface (some idx)).0
    unfolding new_dev_at created listed finish_dev
    new_dev_at-Linked env = elim (Bool-cases env.kzalloc) [
      | inl t ↦ rw t (finish_dev-Linked env (ops.create st.drivers iface idx).1 refl)
      | inr f ↦ rw f l
    ]

  -- Whatever the kernel answers, a creation keeps the links: what fails on the way leaves neither a
  -- device without private data nor private data without a device.
  pub new_dev-Linked :
      (env : DevEnv) (st : State D) (iface : Iface)
      → Registries st
      → Linked owner Valid st
      → Linked owner Valid (new_dev ops env st iface).0
  unfolding new_dev
  new_dev-Linked env st iface v l = elim (Option-cases (find_free_dev_index (st.ifaces iface))) [
    | inl e ↦
        subst (λ o. Linked owner Valid (new_dev_at ops env st iface o).0) (sym e)
          (unfold new_dev_at in l)
    | inr (idx, e) ↦
        subst (λ o. Linked owner Valid (new_dev_at ops env st iface o).0) (sym e)
          (new_dev_at-Linked st iface idx v l e env)
  ]
