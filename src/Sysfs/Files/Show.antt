-- ===== src/Sysfs/Files/Show.antt =====
-- The file of a pair gives a text that the parser reads back as that pair.
use linux_hardware_devices_e.Prelude.{
  ℕ, ◌^◌, ◌<◌, ◌≡◌, ap, sym, subst, ◌∙◌, Bool-cases, inl, inr, List, [], ◌∷◌, ◌++◌, some, arith,
  Bytes, codes, decimal, ◌==◌, pos, if◌then◌else◌,
}
use linux_hardware_devices_e.Consts.{Iface}
use linux_hardware_devices_e.Utils.Kernel.{KernelLib}
use linux_hardware_devices_e.Utils.Pair.{HwePair, Parsed, str_to_pair}
use linux_hardware_devices_e.Utils.Pair.Valid.{IsValid, str_to_pair_nonempty}
use linux_hardware_devices_e.Utils.Pair.RoundTrip.{reparsed, str_to_pair-pair_to_str}
use linux_hardware_devices_e.Utils.Lookup.{iface_to_str, get_pair_at_index}
use linux_hardware_devices_e.Utils.Lookup.Find.{str_to_iface-iface_to_str}
use linux_hardware_devices_e.Sysfs.Bitmap.{Bitmap, test_bit-lt}
use linux_hardware_devices_e.Sysfs.Dev.{HweDev}
use linux_hardware_devices_e.Sysfs.Dev.Entries.{Entries, Inv}
use linux_hardware_devices_e.Sysfs.Dev.Invariant.{found_bit}
use linux_hardware_devices_e.Sysfs.Registry.{State, kobject_name}
use linux_hardware_devices_e.Sysfs.Registry.Lists.{Registries, found_device}
use linux_hardware_devices_e.Sysfs.Calls.{
  lock_iface_devs, unlock_iface_devs, device_at, printed_text, pair_at,
}
use linux_hardware_devices_e.Sysfs.Files.{
  dev_line, pair_line, or_missing, show_in, show_at, pair_show,
}
use linux_hardware_devices_e.Sysfs.Files.Names.{named}

found-IsValid :
    (bits : Bitmap) (i : ℕ) (list : List HwePair) (p : HwePair)
    → Entries bits list
    → get_pair_at_index list i ≡ some p
    → IsValid p
unfolding get_pair_at_index
found-IsValid bits i [] p v e = cc
found-IsValid bits i (x ∷ list) p v e = elim (Bool-cases (i == x.index)) [
  | inl t ↦
      (let found : some x ≡ some p =
          sym (ap (λ b. if b then some x else get_pair_at_index list i) t) ∙ e in
        let same : x ≡ p = cc in subst IsValid same v.1)
  | inr f ↦
      found-IsValid bits i list p v.3
        (sym (ap (λ b. if b then some x else get_pair_at_index list i) f) ∙ e)
]

device-Inv :
    {D : Type 0} (st : State D) (iface : Iface) (i : ℕ) (d : HweDev)
    → Registries st
    → device_at st iface i ≡ some d
    → Inv d
unfolding device_at
device-Inv st iface i d v e =
    (found_device iface (st.ifaces iface).dev_indexes i (st.ifaces iface).dev_list d
      (v iface).devices e).3

module _ (lib : KernelLib) {D : Type 0} where
  -- At a state with the invariant, the file of a pair of a device, which is named by its index, gives a
  -- text that the parser reads back as a pair with the same request or period, and the same
  -- response; the semaphore is taken and given back, and nothing else changes.
  pub pair_show-str_to_pair :
      (st : State D) (iface : Iface) (i k : ℕ) (d : HweDev) (p q : HwePair)
      → Registries st
      → device_at st iface i ≡ some d
      → get_pair_at_index d.pair_list k ≡ some p
      → (s : Bytes) × (pair_show lib st (iface_to_str iface) (kobject_name d) (decimal k)
          ≡ (unlock_iface_devs (lock_iface_devs st iface) iface, s))
        × (str_to_pair lib s q ≡ Parsed.ok (reparsed lib p q))
  unfolding pair_show show_at show_in dev_line pair_line or_missing printed_text pair_at
  pair_show-str_to_pair st iface i k d p q v here there =
      let inv = device-Inv st iface i d v here in
      let valid = found-IsValid d.pairs_indexes k d.pair_list p inv.entries there in
      let (s, printed, fits, parsed) = str_to_pair-pair_to_str lib p q valid in
      let k_lt : k < 2 ^ 63 = omega (
        arith,
        inv.size,
        test_bit-lt d.pairs_indexes k (found_bit d.pairs_indexes k d.pair_list p inv.entries there),
      ) in
      let locked = lock_iface_devs st iface in
      let (found, short) = named st iface i d v here in
      let finish : Bytes → State D × Bytes =
        λ line. (unlock_iface_devs locked iface, or_missing (pos k) line) in
      (
        s,
        ap (show_at lib st (iface_to_str iface) (kobject_name d) (decimal k))
              (lib.kstrtol-decimal k k_lt)
            ∙ ap (show_in lib st (kobject_name d) (pos k) (iface_to_str iface))
                (str_to_iface-iface_to_str iface)
            ∙ ap (λ o. finish (dev_line (kobject_name d) (pos k) o)) found
            ∙ ap (λ o. finish (pair_line o)) there
            ∙ ap (λ t. finish (printed_text t)) printed
            ∙ ap
                (λ b. (
                  unlock_iface_devs locked iface,
                  if b
                      then codes "ERROR: pair with index " ++ decimal k ++ codes " not found!"
                      else s,
                ))
                (str_to_pair_nonempty lib s q _ parsed),
        parsed,
      )
