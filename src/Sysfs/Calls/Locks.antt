-- ===== src/Sysfs/Calls/Locks.antt =====
-- The semaphores of the interfaces around the calls of kernel/hwe_sysfs.c.
use linux_hardware_devices_e.Prelude.{ℕ, ◌<◌, ◌≢◌, refl, Option, none, some, arith, Bytes}
use linux_hardware_devices_e.Consts.{Iface, tty, i2c, net, spi, Errno, Ret, ok, err, fault}
use linux_hardware_devices_e.Utils.Kernel.{KernelLib}
use linux_hardware_devices_e.Sysfs.Dev.{HweDev, AddEnv}
use linux_hardware_devices_e.Sysfs.Registry.{DevOps, State}
use linux_hardware_devices_e.Sysfs.Registry.Sems.{
  SameSems, set_iface_sems, shutdown_dev_sems, new_dev_sems,
}
use linux_hardware_devices_e.Sysfs.Calls.{
  lock_iface_devs, unlock_iface_devs, put_dev, on_device, release_unless_fault, add_pair_on,
  no_device, shutdown_found, hwe_add_pair, hwe_delete_pair, hwe_clear_pairs, hwe_get_pair_count,
  hwe_get_pair, hwe_add_device, hwe_delete_device, Call, add_device, delete_device, pair_count,
  get_pair, add_pair, delete_pair, clear, run, without_text,
}

module _ {D : Type 0} where
  put_dev_sems : (st : State D) (iface : Iface) (dev : HweDev) → SameSems st (put_dev st iface dev)
  unfolding put_dev
  put_dev_sems st iface dev = set_iface_sems st iface _ refl

  pub unlock-lock_sems :
      (st st' : State D) (iface : Iface)
      → 0 < (st.ifaces iface).sem
      → SameSems (lock_iface_devs st iface) st'
      → SameSems st (unlock_iface_devs st' iface)
  unfolding lock_iface_devs unlock_iface_devs
  unlock-lock_sems st st' tty free same tty = omega (arith, same tty, free)
  unlock-lock_sems st st' i2c free same i2c = omega (arith, same i2c, free)
  unlock-lock_sems st st' net free same net = omega (arith, same net, free)
  unlock-lock_sems st st' spi free same spi = omega (arith, same spi, free)
  unlock-lock_sems st st' _ free same i = same i

  on_device_sems :
      (st : State D) (iface : Iface) (found : Option HweDev) (f : HweDev → HweDev × Ret)
      → SameSems st (on_device st iface found f).0
  unfolding on_device
  on_device_sems st iface none f = λ i. refl
  on_device_sems st iface (some dev) f = put_dev_sems st iface (f dev).0

module _ (lib : KernelLib) (env : AddEnv) where
  release_sems :
      {D : Type 0} (st : State D) (iface : Iface) (ret : Ret)
      → 0 < (st.ifaces iface).sem
      → (release_unless_fault (lock_iface_devs st iface) iface ret).1 ≢ fault
      → SameSems st (release_unless_fault (lock_iface_devs st iface) iface ret).0
  unfolding release_unless_fault
  release_sems st iface (ok n) free runs =
      unlock-lock_sems st (lock_iface_devs st iface) iface free (λ i. refl)
  release_sems st iface (err e) free runs =
      unlock-lock_sems st (lock_iface_devs st iface) iface free (λ i. refl)
  release_sems st iface fault free runs = absurd (runs refl)

  add_pair_on_sems :
      {D : Type 0} (st : State D) (iface : Iface) (s : Bytes) (found : Option HweDev)
      → 0 < (st.ifaces iface).sem
      → (add_pair_on lib env (lock_iface_devs st iface) iface s found).1 ≢ fault
      → SameSems st (add_pair_on lib env (lock_iface_devs st iface) iface s found).0
  unfolding add_pair_on
  add_pair_on_sems st iface s none free runs =
      release_sems st iface (no_device lib s env.kmalloc) free runs
  add_pair_on_sems st iface s (some dev) free runs =
      unlock-lock_sems st _ iface free (put_dev_sems (lock_iface_devs st iface) iface _)

module _ (lib : KernelLib) {D : Type 0} (ops : DevOps D) where
  shutdown_found_sems :
      (st : State D) (found : Option HweDev) (e : Errno) (n : ℕ)
      → SameSems st (shutdown_found ops st found e n).0
  unfolding shutdown_found
  shutdown_found_sems st none e n = λ i. refl
  shutdown_found_sems st (some dev) e n = shutdown_dev_sems ops st dev

  -- A call on an interface whose semaphore can be taken gives it back: after it, the semaphore of
  -- every interface has the count that it had before, unless the call dereferenced a null pointer.
  pub run_sems :
      (c : Call) (st : State D) (iface : Iface)
      → 0 < (st.ifaces iface).sem
      → (run lib ops c st iface).1 ≢ fault
      → SameSems st (run lib ops c st iface).0
  unfolding run without_text hwe_add_device hwe_delete_device hwe_get_pair_count hwe_get_pair
      hwe_add_pair hwe_delete_pair hwe_clear_pairs
  run_sems (add_device env) st iface free runs =
      unlock-lock_sems st _ iface free (new_dev_sems ops env (lock_iface_devs st iface) iface)
  run_sems (delete_device dev_index) st iface free runs =
      unlock-lock_sems st _ iface free (shutdown_found_sems (lock_iface_devs st iface) _ _ 0)
  run_sems (pair_count dev_index) st iface free runs =
      unlock-lock_sems st _ iface free (on_device_sems (lock_iface_devs st iface) iface _ _)
  run_sems (get_pair dev_index pair_index idx) st iface free runs =
      unlock-lock_sems st _ iface free (λ i. refl)
  run_sems (add_pair env dev_index pair_str) st iface free runs =
      add_pair_on_sems lib env st iface pair_str _ free runs
  run_sems (delete_pair dev_index pair_index) st iface free runs =
      unlock-lock_sems st _ iface free (on_device_sems (lock_iface_devs st iface) iface _ _)
  run_sems (clear dev_index) st iface free runs =
      unlock-lock_sems st _ iface free (on_device_sems (lock_iface_devs st iface) iface _ _)
