-- ===== src/Tty.antt =====
-- kernel/hwe_tty.c: the table of private data, the ports, and what the handlers do between taking and
-- releasing the interface's semaphore. An array is a function of its index; a pointer to private data
-- is known by its place in `devices`, and `hwedev` by its index among the interface's devices. What
-- the code only hands to the kernel once, such as the driver's names and flags, is left out.
pub mod Slots
pub mod Load
use linux_hardware_devices_e.Prelude.{
  ℕ, zero, suc, ◌+◌, Bool, true, false, List, [], ◌++◌, Option, none, some, Bytes, ◌==◌, ltb,
  length, take, if◌then◌else◌,
}
use linux_hardware_devices_e.Consts.{hwe_max_devices, Errno, enodev, enomem, Ret, ok, err, fault}
use linux_hardware_devices_e.Utils.Pair.{HwePair}
use linux_hardware_devices_e.Utils.Lookup.{find_pair}

-- struct hwe_dev_priv; `tty` says that the pointer is set.
pub record TtyPriv : Type 0 where
  pub hwedev : ℕ
  pub tty : Bool
  pub index : ℕ

-- `driver` says that a driver is allocated and registered. A port is what its flip buffer was given,
-- or `none` where it is not initialised.
pub record TtyDriver : Type 0 where
  pub driver : Bool
  pub devices : ℕ → Option TtyPriv
  pub ports : ℕ → Option Bytes

-- What the kernel answers to the creation of a device: kzalloc(), and the error of
-- tty_port_register_device().
pub record TtyEnv : Type 0 where
  pub kzalloc : Bool
  pub register_device : Option Errno

-- A write to an array.
abbrev pub store {ℓ} : {A : Type ℓ} → ℕ → A → (ℕ → A) → ℕ → A
store i x f k = if i == k then x else f k

abbrev pub put_device : ℕ → Option TtyPriv → TtyDriver → TtyDriver
put_device i dev t = record t { devices = store i dev t.devices }

-- From tty_port_register_device() on.
abbrev registered : ℕ → TtyDriver → Option Errno → TtyDriver × Option ℕ
registered index t none = (t, some index)
registered index t (some e) = (put_device index none t, none)

-- `none` is the result NULL.
unfoldable pub hwe_create_tty_device : TtyEnv → TtyDriver → ℕ → ℕ → TtyDriver × Option ℕ
hwe_create_tty_device env t hwedev index =
    let dev : TtyPriv = record { hwedev = hwedev; tty = false; index = index } in
    if ltb index hwe_max_devices
    then if env.kzalloc
      then registered index (put_device index (some dev) t) env.register_device
      else (t, none)
    else (t, none)

-- Private data that are not there are NULL or freed, and are dereferenced.
abbrev destroy_priv : TtyDriver → Option TtyPriv → TtyDriver × Ret
destroy_priv t none = (t, fault)
destroy_priv t (some dev) = (put_device dev.index none t, ok 0)

-- The private data stand at a place of the table.
unfoldable pub hwe_destroy_tty_device : TtyDriver → ℕ → TtyDriver × Ret
hwe_destroy_tty_device t device = destroy_priv t (t.devices device)

-- tty_port_init() of `n` ports from one on.
init_ports : ℕ → ℕ → (ℕ → Option Bytes) → ℕ → Option Bytes
init_ports zero i ports = ports
init_ports (suc n) i ports = init_ports n (i + 1) (store i (some []) ports)

-- tty_port_destroy() of `n` ports from one on.
destroy_ports : ℕ → ℕ → (ℕ → Option Bytes) → ℕ → Option Bytes
destroy_ports zero i ports = ports
destroy_ports (suc n) i ports = destroy_ports n (i + 1) (store i none ports)

-- From tty_register_driver() on.
abbrev driver_registered : TtyDriver → Option Errno → TtyDriver × Ret
driver_registered t none = (record t { driver = true }, ok 0)
driver_registered t (some e) = (record t { ports = destroy_ports hwe_max_devices 0 t.ports }, err e)

-- tty_alloc_driver() succeeds or not, and tty_register_driver() has an error or not. A failure of
-- tty_alloc_driver() is an error pointer, which the test for NULL lets pass: the ports are
-- initialised, and the pointer is dereferenced.
unfoldable pub hwe_init_tty : Bool → Option Errno → TtyDriver → TtyDriver × Ret
unfolding init_ports destroy_ports
hwe_init_tty alloc_driver register_driver t =
    let t' = record t { ports = init_ports hwe_max_devices 0 t.ports } in
    if alloc_driver then driver_registered t' register_driver else (t', fault)

-- One round of the sanity check, by what stands at a place of the table.
abbrev pub destroy_at : TtyDriver → ℕ → Option TtyPriv → TtyDriver
destroy_at t i none = t
destroy_at t i (some dev) = (hwe_destroy_tty_device t i).0

-- The loop of the sanity check, over `n` places from one on.
destroy_left : ℕ → ℕ → TtyDriver → TtyDriver
unfolding hwe_destroy_tty_device
destroy_left zero i t = t
destroy_left (suc n) i t = destroy_left n (i + 1) (destroy_at t i (t.devices i))

unfoldable pub hwe_cleanup_tty : TtyDriver → TtyDriver
unfolding destroy_left destroy_ports
hwe_cleanup_tty t =
    let t' = destroy_left hwe_max_devices 0 t in
    record t' { driver = false; ports = destroy_ports hwe_max_devices 0 t'.ports }

abbrev pub opened : TtyDriver → ℕ → Option TtyPriv → TtyDriver × Ret
opened t index none = (t, err enodev)
opened t index (some dev) = (put_device index (some (record dev { tty = true })) t, ok 0)

-- hwetty_open() under the semaphore, at tty->index.
unfoldable pub open_locked : TtyDriver → ℕ → TtyDriver × Ret
open_locked t index = opened t index (t.devices index)

-- The kernel's page size.
abbrev pub page_size : ℕ
page_size = 4096

abbrev room : Option TtyPriv → Ret
room none = err enodev
room (some dev) = ok page_size

-- hwetty_write_room() under the semaphore.
unfoldable pub write_room_locked : TtyDriver → ℕ → Ret
write_room_locked t index = room (t.devices index)

abbrev push : ℕ → Bytes → Option Bytes → Option Bytes
push n resp none = none
push n resp (some flip) = some (flip ++ take n resp)

-- tty_insert_flip_string_fixed_flag() and tty_flip_buffer_push(); `accepts` is how many bytes of a text
-- the kernel takes into the port's buffer.
module _ (accepts : ℕ → Bytes → ℕ) where
  abbrev insert_flip : TtyDriver → ℕ → HwePair → TtyDriver
  insert_flip t i pair = record t {
    ports = store i (push (accepts i pair.resp) pair.resp (t.ports i)) t.ports;
  }

  abbrev pub delivered : TtyDriver → ℕ → Option HwePair → TtyDriver
  delivered t i none = t
  delivered t i (some pair) = insert_flip t i pair

  -- With a list of pairs; `none` is a device that is freed.
  abbrev pub answered : TtyDriver → ℕ → Bytes → Option (List HwePair) → TtyDriver × Ret
  answered t i buffer none = (t, fault)
  answered t i buffer (some pairs) = (delivered t i (find_pair pairs buffer), ok (length buffer))

  abbrev pub written :
      (ℕ → Option (List HwePair)) → TtyDriver → Bytes → Option TtyPriv → TtyDriver × Ret
  written pairs t buffer none = (t, err enodev)
  written pairs t buffer (some dev) = answered t dev.index buffer (pairs dev.hwedev)

  -- hwetty_write() under the semaphore; `pairs` has the pairs of each device of the interface.
  unfoldable pub write_locked :
      (ℕ → Option (List HwePair)) → TtyDriver → ℕ → Bytes → TtyDriver × Ret
  write_locked pairs t index buffer = written pairs t buffer (t.devices index)

  abbrev pub received : TtyDriver → HwePair → Option TtyPriv → TtyDriver
  received t pair none = t
  received t pair (some dev) = insert_flip t dev.index pair

  unfoldable pub hwe_tty_async_rx : TtyDriver → ℕ → HwePair → TtyDriver
  hwe_tty_async_rx t device pair = received t pair (t.devices device)
