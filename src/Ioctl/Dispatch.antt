-- ===== src/Ioctl/Dispatch.antt =====
-- hwemu_ioctl() of kernel/hwe_ioctl.c: what every command keeps, and which it refuses.
use linux_hardware_devices_e.Prelude.{
  ℕ, ◌≡◌, refl, sym, subst, Bool-cases, Option-cases, inl, inr, Option, none, some, leb, ℤ, Bytes,
  take, ◌++◌, [], ◌∷◌, if◌then◌else◌,
}
use linux_hardware_devices_e.Consts.{Iface, hwe_max_pair_str, enomem, Ret, ok, err, fault}
use linux_hardware_devices_e.Utils.Kernel.{KernelLib}
use linux_hardware_devices_e.Sysfs.Dev.{AddEnv}
use linux_hardware_devices_e.Sysfs.Registry.{DevOps, State, DevEnv}
use linux_hardware_devices_e.Sysfs.Registry.Lists.{Registries}
use linux_hardware_devices_e.Sysfs.Calls.{
  Call, run, hwe_add_pair, hwe_get_pair, hwe_delete_pair, without_text,
}
use linux_hardware_devices_e.Sysfs.Calls
use linux_hardware_devices_e.Sysfs.Calls.Invariant.{run-Registries, run_get_pair}
use linux_hardware_devices_e.Ioctl.{
  parse_devid, to_ulong, value_iface, hwe_iface_count, User, Cmd, add_device, uninstall_device,
  pair_count, clear_pairs, read_pair, write_pair, delete_pair, unknown, on_devid, on_user,
  with_index, read_result, put_index, write_text, devid_result, ioctl_read_pair, ioctl_write_pair,
  ioctl_delete_pair, ioctl_add_device, ioctl_delete_device, ioctl_pair_count, ioctl_clear_pairs,
  hwemu_ioctl,
}

module _ {D : Type 0} (P : State D → Type 0) (st : State D) (v : P st) where
  on_devid_keeps :
      (devid : ℕ) (f : Iface → ℕ → State D × Ret)
      → ((ifc : Iface) (idx : ℕ) → P (f ifc idx).0)
      → P (on_devid st devid f).0
  unfolding on_devid
  on_devid_keeps devid f h = elim (Option-cases (parse_devid devid)) [
    | inl e ↦ rw (on_devid, e) v
    | inr (x, e) ↦ rw (on_devid, e) (h x.0 x.1)
  ]

  on_user_keeps :
      (devid : Option ℤ) (f : Iface → ℕ → State D × Ret)
      → ((ifc : Iface) (idx : ℕ) → P (f ifc idx).0)
      → P (on_user st devid f).0
  unfolding on_user
  on_user_keeps none f h = v
  on_user_keeps (some devid) f h = on_devid_keeps (to_ulong devid) f h

  with_index_keeps :
      (index : Option ℤ) (f : ℤ → State D × Ret)
      → ((i : ℤ) → P (f i).0)
      → P (with_index st index f).0
  unfolding with_index
  with_index_keeps none f h = v
  with_index_keeps (some i) f h = h i

put_index_state : {D : Type 0} (u : User) (x : State D × Ret) → (put_index u x).0 ≡ x.0
unfolding put_index
put_index_state u (st, ok n) = refl
put_index_state u (st, err e) = refl
put_index_state u (st, fault) = refl

devid_result_state :
    {D : Type 0} (ops : DevOps D) (ifc : Iface) (x : State D × Ret)
    → (devid_result ops ifc x).0 ≡ x.0
unfolding devid_result
devid_result_state ops ifc (st, ok n) = refl
devid_result_state ops ifc (st, err e) = refl
devid_result_state ops ifc (st, fault) = refl

module _ (lib : KernelLib) {D : Type 0} (ops : DevOps D) (env : AddEnv) (dev_env : DevEnv) where
  module _ (P : State D → Type 0) (st : State D) (v : P st)
      (kept : (c : Call) (ifc : Iface) → P (run lib ops c st ifc).0) where
    add_device_keeps : (arg : ℕ) → P (ioctl_add_device ops dev_env st arg).0
    unfolding ioctl_add_device run
    add_device_keeps arg = elim (Bool-cases (leb hwe_iface_count arg)) [
      | inl e ↦ rw e v
      | inr e ↦ rw e (
          subst P (sym (devid_result_state ops (value_iface arg) _))
            (kept (Calls.add_device dev_env) (value_iface arg)))
    ]

    read_kept :
        (u : User) (ifc : Iface) (idx : ℕ) (i : ℤ)
        → P (read_result u (hwe_get_pair st ifc idx i u.idx)).0
    unfolding read_result
    read_kept u ifc idx i =
        subst P (run_get_pair lib ops st ifc idx i u.idx) (kept (Calls.get_pair idx i u.idx) ifc)

    read_pair_keeps : (u : User) → P (ioctl_read_pair st u).0
    unfolding ioctl_read_pair
    read_pair_keeps u = on_user_keeps P st v u.device_id _ (λ ifc idx.
        with_index_keeps P st v u.pair_index _ (λ i. elim (Bool-cases u.kmalloc) [
          | inl e ↦
              subst
                (λ b.
                  P
                    (if b
                      then read_result u (hwe_get_pair st ifc idx i u.idx)
                      else (st, err enomem)).0)
                (sym e) (read_kept u ifc idx i)
          | inr e ↦
              subst
                (λ b.
                  P
                    (if b
                      then read_result u (hwe_get_pair st ifc idx i u.idx)
                      else (st, err enomem)).0)
                (sym e) v
        ]))

    write_text_keeps :
        (u : User) (ifc : Iface) (idx : ℕ) (s : Option Bytes)
        → P (write_text lib env st u ifc idx s).0
    unfolding write_text run
    write_text_keeps u ifc idx none = v
    write_text_keeps u ifc idx (some s) =
        let str = take hwe_max_pair_str s ++ 0 ∷ [] in
        subst P (sym (put_index_state u (hwe_add_pair lib env st ifc idx str)))
          (kept (Calls.add_pair env idx str) ifc)

    write_pair_keeps : (u : User) → P (ioctl_write_pair lib env st u).0
    unfolding ioctl_write_pair
    write_pair_keeps u = on_user_keeps P st v u.device_id _ (λ ifc idx.
        elim (Bool-cases u.kmalloc) [
          | inl e ↦
              subst
                (λ b. P (if b then write_text lib env st u ifc idx u.pair else (st, err enomem)).0)
                (sym e) (write_text_keeps u ifc idx u.pair)
          | inr e ↦
              subst
                (λ b. P (if b then write_text lib env st u ifc idx u.pair else (st, err enomem)).0)
                (sym e) v
        ])

    -- A command changes the state as one of the calls does, or not at all.
    pub hwemu_ioctl_keeps : (cmd : Cmd) → P (hwemu_ioctl ops lib env dev_env st cmd).0
    unfolding hwemu_ioctl ioctl_delete_device ioctl_pair_count ioctl_clear_pairs ioctl_delete_pair
        run
    hwemu_ioctl_keeps (add_device arg) = add_device_keeps arg
    hwemu_ioctl_keeps (uninstall_device arg) =
        on_devid_keeps P st v arg _ (λ ifc idx. kept (Calls.delete_device idx) ifc)
    hwemu_ioctl_keeps (pair_count arg) =
        on_devid_keeps P st v arg _ (λ ifc idx. kept (Calls.pair_count idx) ifc)
    hwemu_ioctl_keeps (clear_pairs arg) =
        on_devid_keeps P st v arg _ (λ ifc idx. kept (Calls.clear idx) ifc)
    hwemu_ioctl_keeps (read_pair u) = read_pair_keeps u
    hwemu_ioctl_keeps (write_pair u) = write_pair_keeps u
    hwemu_ioctl_keeps (delete_pair u) = on_user_keeps P st v u.device_id _ (λ ifc idx.
        with_index_keeps P st v u.pair_index _ (λ i. kept (Calls.delete_pair idx i) ifc))
    hwemu_ioctl_keeps unknown = v

  -- At a state with the invariant of the interfaces, their devices and their pairs, a command keeps it,
  -- whatever it finds in the caller's memory and whatever the kernel answers.
  pub hwemu_ioctl-Registries :
      (st : State D) (cmd : Cmd)
      → Registries st
      → Registries (hwemu_ioctl ops lib env dev_env st cmd).0
  hwemu_ioctl-Registries st cmd v =
      hwemu_ioctl_keeps Registries st v (λ c ifc. run-Registries lib ops c st ifc v) cmd
