-- ===== src/Emulator/Answers.antt =====
-- From the command that adds a pair, hwemu_ioctl() of kernel/hwe_ioctl.c and hwe_add_pair() of
-- kernel/hwe_sysfs.c, to the handlers that answer with it: hwetty_write() of kernel/hwe_tty.c and
-- hwenet_xmit() of kernel/hwe_net.c.
use linux_hardware_devices_e.Prelude.{
  ℕ, ◌<◌, ◌≡◌, ap, ◌∙◌, Option, some, Bytes, ◌++◌, ==_refl, if◌then◌else◌, pos,
}
use linux_hardware_devices_e.Consts.{Iface, tty, hwe_max_devices, ok}
use linux_hardware_devices_e.Utils.Kernel.{KernelLib}
use linux_hardware_devices_e.Utils.Pair.{HwePair, Parsed, str_to_pair}
use linux_hardware_devices_e.Utils.Lookup.{find_pair}
use linux_hardware_devices_e.Sysfs.Dev.{HweDev, AddEnv}
use linux_hardware_devices_e.Sysfs.Dev.Replies.{stored, answer_or}
use linux_hardware_devices_e.Sysfs.Registry.{DevOps, DevEnv}
use linux_hardware_devices_e.Sysfs.Registry.Lists.{Registries}
use linux_hardware_devices_e.Sysfs.Calls.{hwe_add_pair, device_at, c_string}
use linux_hardware_devices_e.Sysfs.Calls.Pairs.{hwe_add_pair_lookup, hwe_add_pair_drivers}
use linux_hardware_devices_e.Ioctl.{User, write_pair, make_devid, hwemu_ioctl}
use linux_hardware_devices_e.Ioctl.Write.{copied_text, hwemu_ioctl-hwe_add_pair}
use linux_hardware_devices_e.Handles.Calls.{hwe_add_pair-Linked}
use linux_hardware_devices_e.Drivers.{Drivers, owner, IsSound}
use linux_hardware_devices_e.Emulator.{Emulator, hwetty_write}
use linux_hardware_devices_e.Emulator.Transfers.{IsLinked, hwetty_write_listed, sent}

-- What a device answers to a request when the pair `p` has been added behind the others.
abbrev pub answer_with : HweDev → HwePair → Bytes → Option HwePair
answer_with d p r = answer_or p (stored d p) r (find_pair d.pair_list r)

-- The port of a tty behind a write to it.
abbrev pub tty_port : (ℕ → Bytes → ℕ) → Emulator → ℕ → Bytes → Option Bytes
tty_port accepts st i r = (hwetty_write accepts st i r).0.drivers.ttys.ports i

module _ (lib : KernelLib) (env : AddEnv) (st : Emulator) (i : ℕ) (text : Bytes) (d : HweDev)
    (n : ℕ) (v : Registries st) (l : IsLinked st) where
  abbrev added : Iface → Emulator
  added iface = (hwe_add_pair lib env st iface i text).0

  write_added :
      (accepts : ℕ → Bytes → ℕ) (flip : Bytes)
      → device_at st tty i ≡ some d
      → st.drivers.ttys.ports i ≡ some flip
      → (hwe_add_pair lib env st tty i text).1 ≡ ok n
      → (q p : HwePair) × (str_to_pair lib (c_string text) q ≡ Parsed.ok p)
        × ((r : Bytes)
            → tty_port accepts (added tty) i r
              ≡ some (flip ++ sent (accepts i) (answer_with d p r)))
  write_added accepts flip found port result =
      let (d', q, p, at, parsed, made, index) =
        hwe_add_pair_lookup lib env st tty i text d n v found result in
      let port' : (added tty).drivers.ttys.ports i ≡ some flip =
        ap (λ (x : Drivers). x.ttys.ports i) (hwe_add_pair_drivers lib env st tty i text d found)
        ∙ port in
      let linked = hwe_add_pair-Linked lib env owner IsSound st tty i text l in
      (
        q,
        p,
        parsed,
        λ r.
            (hwetty_write_listed accepts (added tty) i r linked d' flip i at port').1
            ∙ ap
                (λ b.
                  if b
                  then some (flip ++ sent (accepts i) (find_pair d'.pair_list r))
                  else (added tty).drivers.ttys.ports i)
                (==_refl i)
            ∙ ap (λ o. some (flip ++ sent (accepts i) o)) (made.found r),
      )

module _ (ops : DevOps Drivers) (lib : KernelLib) (env : AddEnv) (dev_env : DevEnv) (st : Emulator)
    (u : User) (i : ℕ) (s : Bytes) (d : HweDev) (n : ℕ) where
  -- At a state with the invariant of the interfaces where the devices and the drivers' private
  -- data belong to each other: a pair that the command HWEIOCTL_WRITE_PAIR adds with success to a
  -- listed tty device, by its id, is what the parser reads in the caller's text up to its limit
  -- and its first NUL; and from then on a write of any request is answered with the response of
  -- the pairs that were there, or, where they have none and the request is that of the new pair,
  -- with the new pair's: the port is given what the kernel accepts of it, behind what it had.
  pub hwetty_write-hwemu_ioctl :
      (accepts : ℕ → Bytes → ℕ) (flip : Bytes)
      → Registries st
      → IsLinked st
      → i < hwe_max_devices
      → u.device_id ≡ some (pos (make_devid tty i))
      → u.pair ≡ some s
      → device_at st tty i ≡ some d
      → st.drivers.ttys.ports i ≡ some flip
      → (hwemu_ioctl ops lib env dev_env st (write_pair u)).1 ≡ ok n
      → (q p : HwePair) × (str_to_pair lib (c_string (copied_text s)) q ≡ Parsed.ok p)
        × ((r : Bytes)
            → tty_port accepts (hwemu_ioctl ops lib env dev_env st (write_pair u)).0 i r
              ≡ some (flip ++ sent (accepts i) (answer_with d p r)))
  hwetty_write-hwemu_ioctl accepts flip v l below id text found port result =
      let ((m, added_ok), same) =
        hwemu_ioctl-hwe_add_pair ops lib env dev_env st u tty i s id text below n result in
      let (q, p, parsed, answers) =
        write_added lib env st i (copied_text s) d m v l accepts flip found port added_ok in
      (q, p, parsed, λ r. ap (λ (x : Emulator). tty_port accepts x i r) same ∙ answers r)
