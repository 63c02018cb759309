-- ===== src/Emulator/Steps.antt =====
-- The module as a transition system: what may happen to it, one step at a time, in any order, and the
-- states that are reached. A step that takes a semaphore happens only while it is free, since down()
-- waits; the kernel's answers are those of each step.
pub mod Files
use linux_hardware_devices_e.Prelude.{
  ℕ, ◌<◌, ◌≡◌, ◌≢◌, refl, ap, sym, subst, ◌∙◌, Option-cases, inl, inr, true, false, List, [],
  Option, none, some, Bytes,
}
use linux_hardware_devices_e.Consts.{Iface, tty, i2c, net, spi, Ret}
use linux_hardware_devices_e.Utils.Kernel.{KernelLib}
use linux_hardware_devices_e.Sysfs.Dev.{HweDev, DevAttr, AddEnv, dev_attr_store}
use linux_hardware_devices_e.Sysfs.Registry.{State, DevEnv}
use linux_hardware_devices_e.Sysfs.Calls.{
  lock_iface_devs, unlock_iface_devs, device_at, put_dev, Call, run,
}
use linux_hardware_devices_e.Sysfs.Files.{iface_add_store, iface_uninstall_store}
use linux_hardware_devices_e.Sysfs.Calls.Invariant.{run-Registries}
use linux_hardware_devices_e.Async.{timer_func}
use linux_hardware_devices_e.Async.Invariant.{timer_func-Registries}
use linux_hardware_devices_e.Ioctl.{Cmd, hwemu_ioctl}
use linux_hardware_devices_e.Ioctl.Dispatch.{hwemu_ioctl_keeps}
use linux_hardware_devices_e.Handles.Calls.{run-Linked}
use linux_hardware_devices_e.Handles.Rounds.{timer_func-Linked}
use linux_hardware_devices_e.Net.{NetRx}
use linux_hardware_devices_e.I2c.{I2cMsg, ReadWrite, SmbusSize}
use linux_hardware_devices_e.Spi.{SpiTransfer}
use linux_hardware_devices_e.Drivers.{Drivers, DriversEnv, RxEnv, dev_ops, async_rx, owner, IsSound}
use linux_hardware_devices_e.Drivers.Laws.{dev_ops-Contract}
use linux_hardware_devices_e.Drivers.Rx.{async_rx-Keeps}
use linux_hardware_devices_e.Emulator.{
  Emulator, hwetty_open, hwetty_close, hwetty_write, hwetty_write_room, net_open, net_stop,
  net_xmit, i2c_master, i2c_smbus, spi_transfer,
}
use linux_hardware_devices_e.Emulator.Keeps.{
  IsConsistent, lock-IsConsistent, unlock-IsConsistent, hwetty_open-IsConsistent,
  hwetty_write-IsConsistent,
}
use linux_hardware_devices_e.Emulator.Keeps.Bus.{
  net_open-IsConsistent, net_stop-IsConsistent, net_xmit-IsConsistent, i2c_master-IsConsistent,
  i2c_smbus-IsConsistent, spi_transfer-IsConsistent,
}
use linux_hardware_devices_e.Emulator.Steps.Files.{
  dev_store, dev_store-IsConsistent, iface_add_store-IsConsistent,
  iface_uninstall_store-IsConsistent,
}

-- The semaphore of an interface can be taken.
abbrev pub Free : Emulator → Iface → Type 0
Free st iface = 0 < (st.ifaces iface).sem

module _ (lib : KernelLib) where
  pub data Step : Emulator → Emulator → Type 0 where
    call :
        (st : Emulator) (env : DriversEnv) (c : Call) (iface : Iface)
        → Free st iface
        → Step st (run lib (dev_ops env) c st iface).0
    ioctl :
        (st : Emulator) (env : DriversEnv) (add_env : AddEnv) (dev_env : DevEnv) (cmd : Cmd)
        → ((iface : Iface) → Free st iface)
        → Step st (hwemu_ioctl (dev_ops env) lib add_env dev_env st cmd).0
    device_file :
        (st : Emulator) (iface : Iface) (i : ℕ) (dev : HweDev) (attr : DevAttr) (env : AddEnv)
        (buf : Bytes)
        → Free st iface
        → device_at st iface i ≡ some dev
        → Step st (dev_store lib attr env st iface dev buf)
    add_file :
        (st : Emulator) (env : DriversEnv) (dev_env : DevEnv) (name buf : Bytes)
        → ((iface : Iface) → Free st iface)
        → Step st (iface_add_store lib (dev_ops env) dev_env st name buf).0
    uninstall_file :
        (st : Emulator) (env : DriversEnv) (name buf : Bytes)
        → ((iface : Iface) → Free st iface)
        → Step st (iface_uninstall_store lib (dev_ops env) st name buf).0
    timer :
        (st : Emulator) (env : RxEnv) (jiff : ℕ)
        → env.network.alloc_skb ≡ true
        → Step st (timer_func (async_rx env) jiff st)
    tty_open : (st : Emulator) (i : ℕ) → Free st tty → Step st (hwetty_open st i).0
    tty_close : (st : Emulator) → Free st tty → Step st (hwetty_close st)
    tty_write :
        (st : Emulator) (accepts : ℕ → Bytes → ℕ) (i : ℕ) (buffer : Bytes)
        → Free st tty
        → Step st (hwetty_write accepts st i buffer).0
    tty_write_room : (st : Emulator) (i : ℕ) → Free st tty → Step st (hwetty_write_room st i).0
    queue_start : (st : Emulator) (a : ℕ) → Step st (net_open st a).0
    queue_stop : (st : Emulator) (a : ℕ) → Step st (net_stop st a).0
    packet : (st : Emulator) (env : NetRx) (a : ℕ) (skb : Bytes) → Step st (net_xmit env st a skb).0
    i2c_messages :
        (st : Emulator) (a : ℕ) (msgs : List I2cMsg)
        → Free st i2c
        → Step st (i2c_master st a msgs).0
    i2c_command :
        (st : Emulator) (a : ℕ) (rw_flag : ReadWrite) (command : ℕ) (size : SmbusSize)
        (data_block : Bytes)
        → Free st i2c
        → Step st (i2c_smbus st a rw_flag command size data_block).0
    spi_message : (st : Emulator) (a : ℕ) (t : SpiTransfer) → Step st (spi_transfer st a t).0

  -- The states that are reached from one by steps.
  pub data Reach (first : Emulator) : Emulator → Type 0 where
    here : Reach first first
    next : {st st' : Emulator} → Reach first st → Step st st' → Reach first st'

  call-IsConsistent :
      (st : Emulator) (env : DriversEnv) (c : Call) (iface : Iface)
      → IsConsistent st
      → IsConsistent (run lib (dev_ops env) c st iface).0
  call-IsConsistent st env c iface v = record {
    registries = run-Registries lib (dev_ops env) c st iface v.registries;
    linked =
        run-Linked lib (dev_ops env) owner IsSound (dev_ops-Contract env) c st iface v.registries
          v.linked;
  }

  -- Whatever happens to a consistent state, and whatever the kernel answers, leaves it consistent.
  pub Step-IsConsistent : {st st' : Emulator} → Step st st' → IsConsistent st → IsConsistent st'
  unfolding hwetty_close hwetty_write_room
  Step-IsConsistent (call st env c iface free) v = call-IsConsistent st env c iface v
  Step-IsConsistent (ioctl st env add_env dev_env cmd free) v =
      hwemu_ioctl_keeps lib (dev_ops env) add_env dev_env IsConsistent st v
        (λ c iface. call-IsConsistent st env c iface v) cmd
  Step-IsConsistent (device_file st iface i dev attr env buf free at) v =
      dev_store-IsConsistent lib attr env st iface i dev buf at v
  Step-IsConsistent (add_file st env dev_env name buf free) v =
      iface_add_store-IsConsistent lib env dev_env st name buf v
  Step-IsConsistent (uninstall_file st env name buf free) v =
      iface_uninstall_store-IsConsistent lib env st name buf v
  Step-IsConsistent (timer st env jiff memory) v = record {
    registries = timer_func-Registries (async_rx env) jiff st v.registries;
    linked =
        timer_func-Linked (async_rx env) owner IsSound (async_rx-Keeps env memory) jiff st
          v.registries v.linked;
  }
  Step-IsConsistent (tty_open st i free) v = hwetty_open-IsConsistent st i v
  Step-IsConsistent (tty_close st free) v =
      unlock-IsConsistent (lock_iface_devs st tty) tty (lock-IsConsistent st tty v)
  Step-IsConsistent (tty_write st accepts i buffer free) v =
      hwetty_write-IsConsistent accepts st i buffer v
  Step-IsConsistent (tty_write_room st i free) v =
      unlock-IsConsistent (lock_iface_devs st tty) tty (lock-IsConsistent st tty v)
  Step-IsConsistent (queue_start st a) v = net_open-IsConsistent st a v
  Step-IsConsistent (queue_stop st a) v = net_stop-IsConsistent st a v
  Step-IsConsistent (packet st env a skb) v = net_xmit-IsConsistent env st a skb v
  Step-IsConsistent (i2c_messages st a msgs free) v = i2c_master-IsConsistent st a v msgs
  Step-IsConsistent (i2c_command st a rw_flag command size data_block free) v =
      i2c_smbus-IsConsistent st a v rw_flag command size data_block
  Step-IsConsistent (spi_message st a t) v = spi_transfer-IsConsistent st a v t

  -- From a consistent state, in whatever order calls, ioctl commands, writes to the files of
  -- interfaces and devices, rounds of the timer (with memory for the network's packets) and
  -- transfers through the four drivers follow one another: every state that is reached has the
  -- invariant of the interfaces, every listed device has live private data of its own, all live
  -- private data belong to a listed device, and neither the timer nor the destruction of a device
  -- has dereferenced private data that are null or freed.
  pub Reach-IsConsistent :
      {first st : Emulator} → Reach first st → IsConsistent first → IsConsistent st
  Reach-IsConsistent here v = v
  Reach-IsConsistent (next r s) v = Step-IsConsistent s (Reach-IsConsistent r v)
