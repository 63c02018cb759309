-- ===== src/Ioctl/Write.antt =====
-- The command HWEIOCTL_WRITE_PAIR of kernel/hwe_ioctl.c on the id of a device, and hwe_add_pair().
use linux_hardware_devices_e.Prelude.{
  ℕ, ◌<◌, ◌≡◌, refl, ap, sym, ◌∙◌, Bool, Bool-cases, true, inl, inr, none, some, Bytes, [], ◌∷◌,
  ◌++◌, take, pos, if◌then◌else◌,
}
use linux_hardware_devices_e.Consts.{
  Iface, hwe_max_pair_str, hwe_max_devices, enomem, efault, einval, Ret, ok, err, fault,
}
use linux_hardware_devices_e.Utils.Kernel.{KernelLib}
use linux_hardware_devices_e.Sysfs.Dev.{AddEnv}
use linux_hardware_devices_e.Sysfs.Registry.{State, DevOps, DevEnv}
use linux_hardware_devices_e.Sysfs.Calls.{hwe_add_pair}
use linux_hardware_devices_e.Ioctl.{
  User, write_pair, hwemu_ioctl, make_devid, put_index, on_user, on_devid, write_text,
  ioctl_write_pair,
}
use linux_hardware_devices_e.Ioctl.DevId.{parse_devid-make_devid}

put_index_ok :
    {D : Type 0} (u : User) (x : State D × Ret) (n : ℕ)
    → (put_index u x).1 ≡ ok n
    → ((m : ℕ) × (x.1 ≡ ok m)) × ((put_index u x).0 ≡ x.0)
unfolding put_index
put_index_ok u (st, ok m) n e = ((m, refl), refl)
put_index_ok u (st, err m) n e = absurd cc
put_index_ok u (st, fault) n e = absurd cc

put_index_done :
    {D : Type 0} (u : User) (x : State D × Ret) (m : ℕ)
    → u.writable ≡ true
    → x.1 ≡ ok m
    → (put_index u x).1 ≡ ok 0
unfolding put_index
put_index_done u (st, ok k) m w e = ap (λ b. if b then ok 0 else err efault) w
put_index_done u (st, err k) m w e = absurd cc
put_index_done u (st, fault) m w e = absurd cc

-- The text that hwe_add_pair() gets: at most HWE_MAX_PAIR_STR bytes of the caller's, and a NUL.
abbrev pub copied_text : Bytes → Bytes
copied_text s = take hwe_max_pair_str s ++ 0 ∷ []

module _ {D : Type 0} (ops : DevOps D) (lib : KernelLib) (env : AddEnv) (dev_env : DevEnv)
    (st : State D) (u : User) (iface : Iface) (i : ℕ) (s : Bytes)
    (id : u.device_id ≡ some (pos (make_devid iface i))) (text : u.pair ≡ some s)
    (below : i < hwe_max_devices) where
  by_parts : hwemu_ioctl ops lib env dev_env st (write_pair u) ≡ (
      if u.kmalloc
      then put_index u (hwe_add_pair lib env st iface i (copied_text s))
      else (st, err enomem))
  unfolding hwemu_ioctl ioctl_write_pair on_user on_devid write_text
  by_parts =
      let on : Iface → ℕ → State D × Ret =
        λ ifc idx. if u.kmalloc then write_text lib env st u ifc idx u.pair else (st, err enomem) in
      ap (λ o. on_user st o on) id
      ∙ ap
          (λ o. elim o as (λ _. State D × Ret) [
            | none ↦ (st, err einval)
            | some (ifc, idx) ↦ on ifc idx
          ])
          (parse_devid-make_devid iface i below).0
      ∙ ap (λ o. if u.kmalloc then write_text lib env st u iface i o else (st, err enomem)) text

  -- A success is one of hwe_add_pair(), and leaves what that does.
  pub hwemu_ioctl-hwe_add_pair :
      (n : ℕ)
      → (hwemu_ioctl ops lib env dev_env st (write_pair u)).1 ≡ ok n
      → ((m : ℕ) × ((hwe_add_pair lib env st iface i (copied_text s)).1 ≡ ok m))
        × ((hwemu_ioctl ops lib env dev_env st (write_pair u)).0
            ≡ (hwe_add_pair lib env st iface i (copied_text s)).0)
  hwemu_ioctl-hwe_add_pair n result =
      let x = hwe_add_pair lib env st iface i (copied_text s) in
      let pick : Bool → State D × Ret = λ b. if b then put_index u x else (st, err enomem) in
      elim (Bool-cases u.kmalloc) [
        | inl k ↦
            let same = by_parts ∙ ap pick k in
            let (ends, state) =
              put_index_ok u x n (sym (ap (λ (y : State D × Ret). y.1) same) ∙ result) in
            (ends, ap (λ (y : State D × Ret). y.0) same ∙ state)
        | inr k ↦
            let bad : err enomem ≡ ok n =
              sym (ap (λ (y : State D × Ret). y.1) (by_parts ∙ ap pick k)) ∙ result in
            absurd cc
      ]

  -- The text is stored, and its index can be given to the caller.
  pub hwemu_ioctl_done :
      (m : ℕ)
      → u.kmalloc ≡ true
      → u.writable ≡ true
      → (hwe_add_pair lib env st iface i (copied_text s)).1 ≡ ok m
      → (hwemu_ioctl ops lib env dev_env st (write_pair u)).1 ≡ ok 0
  hwemu_ioctl_done m k w e =
      let x = hwe_add_pair lib env st iface i (copied_text s) in
      ap (λ (y : State D × Ret). y.1)
        (by_parts ∙ ap (λ b. if b then put_index u x else (st, err enomem)) k)
      ∙ put_index_done u x m w e
