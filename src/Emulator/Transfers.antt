-- ===== src/Emulator/Transfers.antt =====
-- What the handlers do at a state whose devices and private data are linked: no handler follows a
-- pointer to a freed device, and a write is answered with the listed device's response.
use linux_hardware_devices_e.Prelude.{
  ℕ, ◌≡◌, refl, ap, sym, ◌∙◌, Bool-cases, Option-cases, inl, inr, List, [], ◌++◌, append-nil,
  Option, none, some, Bytes, arith, length, take, ◌==◌, if◌then◌else◌,
}
use linux_hardware_devices_e.Consts.{Iface, tty, Ret, ok, err, enodev}
use linux_hardware_devices_e.Utils.Pair.{HwePair}
use linux_hardware_devices_e.Utils.Lookup.{find_pair}
use linux_hardware_devices_e.Sysfs.Dev.{HweDev}
use linux_hardware_devices_e.Sysfs.Registry.{find_device_by_index}
use linux_hardware_devices_e.Sysfs.Calls.{
  lock_iface_devs, unlock_iface_devs, release_unless_fault, device_at,
}
use linux_hardware_devices_e.Sysfs.Calls.Pairs.{device_at-lock_iface_devs}
use linux_hardware_devices_e.Handles.{Linked, device_of}
use linux_hardware_devices_e.Tty.{TtyPriv, TtyDriver, write_locked, written, answered, delivered}
use linux_hardware_devices_e.Tty.Slots.{hwedev_of}
use linux_hardware_devices_e.Drivers.{owner, IsSound}
use linux_hardware_devices_e.Emulator.{Emulator, pair_list_of, pairs_of, with_ttys, hwetty_write}

abbrev pub IsLinked : Emulator → Type 0
IsLinked st = Linked owner IsSound st

-- Live private data belong to a listed device.
pub pairs_of_live :
    (st : Emulator) (iface : Iface) (h i : ℕ)
    → IsLinked st
    → owner st.drivers iface h ≡ some i
    → (d : HweDev) × (device_at st iface i ≡ some d) × (d.device ≡ some h)
unfolding device_at
pairs_of_live st iface h i l live =
    let at = (l.links iface).owned h i live in
    elim (Option-cases (find_device_by_index (st.ifaces iface).dev_list i)) [
      | inl e ↦ let bad : none ≡ some (some h) = sym (ap device_of e) ∙ at in absurd cc
      | inr (d, e) ↦
          let same : some d.device ≡ some (some h) = sym (ap device_of e) ∙ at in (d, e, cc)
    ]

-- Private data in the tty driver's table stand at the index of their device.
pub slot_of_device :
    (st : Emulator) (i : ℕ) (d : HweDev)
    → IsLinked st
    → device_at st tty i ≡ some d
    → (dev : TtyPriv) × (st.drivers.ttys.devices i ≡ some dev) × (dev.index ≡ i) × (dev.hwedev ≡ i)
unfolding device_at
slot_of_device st i d l at =
    let (h, e, own) = (l.links tty).held i d.device (ap device_of at) in
    elim (Option-cases (st.drivers.ttys.devices h)) [
      | inl gone ↦ let bad : none ≡ some i = sym (ap hwedev_of gone) ∙ own in absurd cc
      | inr (dev, there) ↦
          let (index, hwedev) = l.valid.table h dev there in
          let same : some dev.hwedev ≡ some i = sym (ap hwedev_of there) ∙ own in
          let hi : dev.hwedev ≡ i = cc in
          let at_i : h ≡ i = sym hwedev ∙ hi in
          (dev, ap st.drivers.ttys.devices (sym at_i) ∙ there, index ∙ at_i, hi)
    ]

pub no_slot :
    (st : Emulator) (i : ℕ)
    → IsLinked st
    → device_at st tty i ≡ none
    → st.drivers.ttys.devices i ≡ none
no_slot st i l missing = elim (Option-cases (st.drivers.ttys.devices i)) [
  | inl e ↦ e
  | inr (dev, e) ↦
      let own = ap hwedev_of e ∙ ap some (l.valid.table i dev e).1 in
      let (d, at, priv) = pairs_of_live st tty i i l own in
      let bad : none ≡ some d = sym missing ∙ at in absurd cc
]

-- What a port is given in answer to a request.
abbrev pub sent : (Bytes → ℕ) → Option HwePair → Bytes
sent accepts none = []
sent accepts (some p) = take (accepts p.resp) p.resp

delivered_port :
    (accepts : ℕ → Bytes → ℕ) (t : TtyDriver) (i k : ℕ) (flip : Bytes) (o : Option HwePair)
    → t.ports i ≡ some flip
    → (delivered accepts t i o).ports k
      ≡ (if i == k then some (flip ++ sent (accepts i) o) else t.ports k)
delivered_port accepts t i k flip none e = elim (Bool-cases (i == k)) [
  | inl s ↦
      let ik : i ≡ k = ground arith in
      ap t.ports (sym ik)
      ∙ e
      ∙ ap some (sym (append-nil flip))
      ∙ ap (λ b. if b then some (flip ++ []) else t.ports k) (sym s)
  | inr s ↦ ap (λ b. if b then some (flip ++ []) else t.ports k) (sym s)
]
delivered_port accepts t i k flip (some p) e = rw e refl

module _ (accepts : ℕ → Bytes → ℕ) (st : Emulator) (i : ℕ) (buffer : Bytes) (l : IsLinked st) where
  -- What hwetty_write() does, by what stands at its place of the table.
  write_from : Option TtyPriv → Emulator × Ret
  write_from o =
      let st₁ = lock_iface_devs st tty in
      let (t, ret) = written accepts (pairs_of st₁ tty) st₁.drivers.ttys buffer o in
      release_unless_fault (with_ttys st₁ t) tty ret

  by_slot : hwetty_write accepts st i buffer ≡ write_from (st.drivers.ttys.devices i)
  unfolding hwetty_write write_from write_locked lock_iface_devs
  by_slot = refl

  -- At a state where the devices and the drivers' private data belong to each other, a write to a
  -- tty whose device is not listed gives -ENODEV and changes nothing, but takes the semaphore and
  -- gives it back.
  pub hwetty_write_missing :
      device_at st tty i ≡ none
      → hwetty_write accepts st i buffer
        ≡ (unlock_iface_devs (lock_iface_devs st tty) tty, err enodev)
  hwetty_write_missing missing =
      by_slot
      ∙ ap write_from (no_slot st i l missing)
      ∙ unfold write_from release_unless_fault in refl

  listed_write : HweDev → Emulator × Ret
  listed_write d =
      let st₁ = lock_iface_devs st tty in
      (
        unlock_iface_devs
            (with_ttys st₁ (answered accepts st₁.drivers.ttys i buffer (some d.pair_list)).0) tty,
        ok (length buffer),
      )

  by_device :
      (d : HweDev) → device_at st tty i ≡ some d → hwetty_write accepts st i buffer ≡ listed_write d
  unfolding write_from release_unless_fault listed_write
  by_device d at =
      let (dev, there, index, hwedev) = slot_of_device st i d l at in
      let st₁ = lock_iface_devs st tty in
      let pairs : pairs_of st₁ tty dev.hwedev ≡ some d.pair_list =
        ap (pairs_of st₁ tty) hwedev ∙ ap pair_list_of (device_at-lock_iface_devs st tty i ∙ at) in
      let answer : ℕ → Option (List HwePair) → Emulator × Ret = λ n list.
        let (t, ret) = answered accepts st₁.drivers.ttys n buffer list in
        release_unless_fault (with_ttys st₁ t) tty ret in
      by_slot
      ∙ ap write_from there
      ∙ ap (λ list. answer dev.index list) pairs
      ∙ ap (λ n. answer n (some d.pair_list)) index

  -- At a state where the devices and the drivers' private data belong to each other, a write to
  -- the tty of a listed device whose port is ready takes the whole buffer, and the port is given
  -- what the kernel accepts of the response of the first synchronous pair of the device with that
  -- request, or nothing if there is none; the other ports are left alone.
  pub hwetty_write_listed :
      (d : HweDev) (flip : Bytes) (k : ℕ)
      → device_at st tty i ≡ some d
      → st.drivers.ttys.ports i ≡ some flip
      → ((hwetty_write accepts st i buffer).1 ≡ ok (length buffer))
        × ((hwetty_write accepts st i buffer).0.drivers.ttys.ports k ≡ (
            if i == k
            then some (flip ++ sent (accepts i) (find_pair d.pair_list buffer))
            else st.drivers.ttys.ports k))
  hwetty_write_listed d flip k at port =
      let same = by_device d at in
      (
        ap (λ (x : Emulator × Ret). x.1) same ∙ (unfold listed_write in refl),
        ap (λ (x : Emulator × Ret). x.0.drivers.ttys.ports k) same
            ∙ (unfold listed_write unlock_iface_devs lock_iface_devs in
                delivered_port accepts st.drivers.ttys i k flip (find_pair d.pair_list buffer)
                  port),
      )
