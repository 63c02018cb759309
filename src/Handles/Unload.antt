-- ===== src/Handles/Unload.antt =====
-- Unloading kernel/hwe_sysfs.c: the loop that shuts down an interface's devices comes to its end, and
-- no private data are left live.
use linux_hardware_devices_e.Prelude.{
  ℕ, zero, suc, ◌≡◌, refl, ap, sym, subst, ◌∙◌, Option-cases, inl, inr, false, List, [], ◌∷◌, none,
  some, arith, length, ==_refl, if◌then◌else◌,
}
use linux_hardware_devices_e.Consts.{Iface, tty, i2c, net, spi, iface_eq}
use linux_hardware_devices_e.Sysfs.Dev.{HweDev, clear_pairs}
use linux_hardware_devices_e.Sysfs.Dev.Invariant.{clear_pairs_same}
use linux_hardware_devices_e.Sysfs.Registry.{
  HweIface, DevOps, State, find_device_by_index, unlink, del_dev, destroy_device, shutdown_dev,
}
use linux_hardware_devices_e.Sysfs.Registry.Lists.{Devices, Registries}
use linux_hardware_devices_e.Sysfs.Registry.Invariant.{
  set_iface_self, shutdown_dev-Registries, destroy_device_ifaces,
}
use linux_hardware_devices_e.Sysfs.Load.{
  Sysfs, shutdown_all, cleanup_iface, cleanup_ifaces, hwe_cleanup_sysfs,
}
use linux_hardware_devices_e.Handles.{Owner, Contract, Linked, handle_at}
use linux_hardware_devices_e.Handles.Shutdown.{shutdown_dev-Linked, set_iface_ne}

module _ {D : Type 0} (ops : DevOps D) where
  -- The device at the head of a list is unlinked, and no other interface changes.
  shutdown_dev_head :
      (st : State D) (dev : HweDev) (rest : List HweDev)
      → (st.ifaces dev.iface).dev_list ≡ dev ∷ rest
      → ((shutdown_dev ops st dev).ifaces dev.iface).dev_list ≡ rest
  unfolding shutdown_dev del_dev unlink
  shutdown_dev_head st dev rest e =
      let st' = destroy_device ops st dev in
      let list' : HweIface → List HweDev = λ x. x.dev_list in
      ap list' (set_iface_self st' dev.iface (del_dev (clear_pairs dev) (st'.ifaces dev.iface)))
      ∙ ap (λ n. unlink n (st'.ifaces dev.iface).dev_list) (clear_pairs_same dev).0
      ∙ ap (λ f. unlink dev.index (f dev.iface).dev_list) (destroy_device_ifaces ops st dev)
      ∙ ap (unlink dev.index) e
      ∙ ap (λ b. if b then rest else dev ∷ unlink dev.index rest) (==_refl dev.index)

  shutdown_dev_apart :
      (st : State D) (dev : HweDev) (j : Iface)
      → iface_eq dev.iface j ≡ false
      → ((shutdown_dev ops st dev).ifaces j).dev_list ≡ (st.ifaces j).dev_list
  unfolding shutdown_dev
  shutdown_dev_apart st dev j e =
      let st' = destroy_device ops st dev in
      ap (λ (x : HweIface). x.dev_list) (set_iface_ne st' dev.iface j _ e)
      ∙ ap (λ f. (f j).dev_list) (destroy_device_ifaces ops st dev)

module _ {D : Type 0} (ops : DevOps D) (owner : Owner D) (Valid : D → Type 0)
    (laws : Contract ops owner Valid) where
  -- An interface whose list is emptied, and nothing else.
  record Emptied (st st' : State D) (iface : Iface) : Type 0 where
    registries : Registries st'
    linked : Linked owner Valid st'
    empty : (st'.ifaces iface).dev_list ≡ []
    apart :
        (j : Iface) → iface_eq iface j ≡ false → (st'.ifaces j).dev_list ≡ (st.ifaces j).dev_list

  -- As many rounds as there are devices are enough.
  shutdown_all-Emptied :
      (n : ℕ) (st : State D) (iface : Iface) (list : List HweDev)
      → (st.ifaces iface).dev_list ≡ list
      → length list ≡ n
      → Registries st
      → Linked owner Valid st
      → Emptied st (shutdown_all ops n st iface) iface
  unfolding shutdown_all
  shutdown_all-Emptied zero st iface [] e len v l = record {
    registries = v;
    linked = l;
    empty = e;
    apart = λ j ne. refl;
  }
  shutdown_all-Emptied zero st iface (dev ∷ rest) e len v l = absurd (omega (arith, len))
  shutdown_all-Emptied (suc n) st iface [] e len v l = absurd (omega (arith, len))
  shutdown_all-Emptied (suc n) st iface (dev ∷ rest) e len v l =
      let st₁ = shutdown_dev ops st dev in
      let own : dev.iface ≡ iface =
        (subst (Devices iface (st.ifaces iface).dev_indexes) e (v iface).devices).1 in
      let at : (st.ifaces dev.iface).dev_list ≡ dev ∷ rest =
        ap (λ i. (st.ifaces i).dev_list) own ∙ e in
      let found : find_device_by_index (st.ifaces dev.iface).dev_list dev.index ≡ some dev =
        ap (λ list. find_device_by_index list dev.index) at
        ∙ (unfold find_device_by_index in
            ap (λ b. if b then some dev else find_device_by_index rest dev.index)
              (==_refl dev.index)) in
      let left : (st₁.ifaces iface).dev_list ≡ rest =
        ap (λ i. (st₁.ifaces i).dev_list) (sym own) ∙ shutdown_dev_head ops st dev rest at in
      let again =
        shutdown_all-Emptied n st₁ iface rest left (omega (arith, len))
          (shutdown_dev-Registries ops st dev dev v found)
          (shutdown_dev-Linked ops owner Valid laws st dev v l found) in
      let outcome : List HweDev → State D =
        λ list. elim list [ [] ↦ st | d ∷ r ↦ shutdown_all ops n (shutdown_dev ops st d) iface ] in
      subst (λ x. Emptied st (outcome x) iface) (sym e)
        (record {
          registries = again.registries;
          linked = again.linked;
          empty = again.empty;
          apart = λ j ne.
              again.apart j ne ∙ shutdown_dev_apart ops st dev j (ap (λ i. iface_eq i j) own ∙ ne);
        })

  cleanup_iface-Emptied :
      (s : Sysfs D) (iface : Iface)
      → Registries s.state
      → Linked owner Valid s.state
      → Emptied s.state (cleanup_iface ops s iface).state iface
  unfolding cleanup_iface
  cleanup_iface-Emptied s iface v l =
      shutdown_all-Emptied _ s.state iface (s.state.ifaces iface).dev_list refl refl v l

  module _ (s : Sysfs D) (v : Registries s.state) (l : Linked owner Valid s.state) where
    abbrev after_spi : Sysfs D
    after_spi = cleanup_iface ops s spi

    abbrev after_net : Sysfs D
    after_net = cleanup_iface ops after_spi net

    abbrev after_i2c : Sysfs D
    after_i2c = cleanup_iface ops after_net i2c

    abbrev after_tty : Sysfs D
    after_tty = cleanup_iface ops after_i2c tty

    spi_Emptied : Emptied s.state after_spi.state spi
    spi_Emptied = cleanup_iface-Emptied s spi v l

    net_Emptied : Emptied after_spi.state after_net.state net
    net_Emptied = cleanup_iface-Emptied after_spi net spi_Emptied.registries spi_Emptied.linked

    i2c_Emptied : Emptied after_net.state after_i2c.state i2c
    i2c_Emptied = cleanup_iface-Emptied after_net i2c net_Emptied.registries net_Emptied.linked

    tty_Emptied : Emptied after_i2c.state after_tty.state tty
    tty_Emptied = cleanup_iface-Emptied after_i2c tty i2c_Emptied.registries i2c_Emptied.linked

    all_empty : (i : Iface) → (after_tty.state.ifaces i).dev_list ≡ []
    all_empty tty = tty_Emptied.empty
    all_empty i2c = tty_Emptied.apart i2c refl ∙ i2c_Emptied.empty
    all_empty net = tty_Emptied.apart net refl ∙ i2c_Emptied.apart net refl ∙ net_Emptied.empty
    all_empty spi =
        tty_Emptied.apart spi refl
        ∙ i2c_Emptied.apart spi refl
        ∙ net_Emptied.apart spi refl
        ∙ spi_Emptied.empty

    nothing_live : (i : Iface) (h : ℕ) → owner after_tty.state.drivers i h ≡ none
    unfolding find_device_by_index
    nothing_live i h = elim (Option-cases (owner after_tty.state.drivers i h)) [
      | inl e ↦ e
      | inr (k, e) ↦
          let at = (tty_Emptied.linked.links i).owned h k e in
          let bad : none ≡ some (some h) = sym (ap (λ list. handle_at list k) (all_empty i)) ∙ at in
          absurd cc
    ]

    all_gone : (i : Iface) → after_tty.kobjs i ≡ false
    unfolding cleanup_iface
    all_gone tty = refl
    all_gone i2c = refl
    all_gone net = refl
    all_gone spi = refl

  -- At a state with the invariants, unloading comes to its end with every device of every interface
  -- shut down, so that the drivers are left with no live private data, with every interface's object
  -- put, and with the kset unregistered.
  pub hwe_cleanup_sysfs_empty :
      (s : Sysfs D) (iface : Iface) (h : ℕ)
      → Registries s.state
      → Linked owner Valid s.state
      → (((hwe_cleanup_sysfs ops s).state.ifaces iface).dev_list ≡ [])
        × (owner (hwe_cleanup_sysfs ops s).state.drivers iface h ≡ none)
        × ((hwe_cleanup_sysfs ops s).kobjs iface ≡ false)
        × ((hwe_cleanup_sysfs ops s).base_kset ≡ false)
  unfolding hwe_cleanup_sysfs cleanup_ifaces
  hwe_cleanup_sysfs_empty s iface h v l =
      (all_empty s v l iface, nothing_live s v l iface h, all_gone s v l iface, refl)

  pub hwe_cleanup_sysfs-Linked :
      (s : Sysfs D)
      → Registries s.state
      → Linked owner Valid s.state
      → Linked owner Valid (hwe_cleanup_sysfs ops s).state
  unfolding hwe_cleanup_sysfs cleanup_ifaces
  hwe_cleanup_sysfs-Linked s v l = (tty_Emptied s v l).linked
