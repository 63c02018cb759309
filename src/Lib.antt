-- ===== src/Lib.antt =====
-- The driver that emulates hardware devices: the kernel module under kernel/.
--
-- A user describes a device by pairs of a request and its response. The texts of the pairs come in
-- through sysfs files or through ioctl; a driver that writes a request to the emulated TTY, I2C, network
-- or SPI device then reads the response. A pair "timer:<time>=<response>" has no request: a timer
-- offers its response again and again.
--
-- What models what:
--   Consts.antt        kernel/hwe_consts.h, the error numbers, and what a call returns.
--   Utils/             kernel/hwe_utils.c: Kernel (the kernel's routines that are not in the repository,
--                      as a parameter with their laws), Hex (hex_to_bin, hex2bin, bin2hex of
--                      tests/kernel_utils.c and is_hex_str), Time (hwe_str_to_time,
--                      hwe_time_to_str), Pair (struct hwe_pair of kernel/hwemu.h, str_to_pair,
--                      pair_to_str), Lookup (iface_to_str, str_to_iface, find_pair,
--                      get_pair_at_index).
--   Sysfs/             kernel/hwe_sysfs.c: Bitmap, Dev (struct hwe_dev and the files of a device),
--                      Registry (struct hwe_iface, new_dev, shutdown_dev and the searches), Calls
--                      (hwe_add_device and the other calls, each with lock and unlock), Files (the files
--                      of an interface and of a pair), Load (hwe_init_sysfs and hwe_cleanup_sysfs).
--   Response.antt      the pending response in the private data of kernel/hwe_i2c.c and
--                      kernel/hwe_spi.c, which both keep in the same fields.
--   I2c.antt, Spi.antt the transfers and the asynchronous handlers of these two drivers.
--   Pool.antt          the lists of private data of the drivers, known by their addresses.
--   I2c/Devices, Spi/Devices, Net.antt, Tty.antt
--                      the creation and destruction of devices, loading and unloading of the four
--                      drivers; Net and Tty also have the handlers of kernel/hwe_net.c and
--                      kernel/hwe_tty.c.
--   Async.antt         the timer of kernel/hwe_async.c; Async/Walk has its loop as it is written.
--   Ioctl.antt         device ids and the commands of kernel/hwe_ioctl.c; Ioctl/Load has the
--                      character device.
--   Main.antt          loading and unloading in kernel/hwe_main.c, over units that are parameters;
--                      Loading.antt fills them in.
--   Handles.antt       the contract between kernel/hwe_sysfs.c and a driver: which private data are
--                      live, and which device they belong to. The calls use it as a parameter.
--   Drivers.antt       the tables dev_ops[] and async_rx[], filled in with the four drivers.
--   Emulator.antt      the handlers of the drivers with the devices that they look pairs up in,
--                      Emulator/Steps the module as a transition system, and Emulator/Answers the
--                      way of a pair from the ioctl command to the tty's answer.
--   Loading.antt       the units of Main filled in: the whole module from load to unload.
--   Tests/             concrete inputs for the theorems.
--
-- How the state corresponds: a `struct list_head` is the list of its entries; a buffer with its size
-- is the list of the bytes in use; a bitmap is a list of Booleans of the macro's length; a device in a
-- list is known by its index, which no other has, so a change through a pointer is a change of
-- that entry. A semaphore is its count. `none` stands for a null pointer and for a negative result where the
-- code has but one. What the kernel answers (memory, sysfs, copies from the caller) is an argument,
-- and so is what stands in memory that the code reads uninitialised. The kernel's own lists, bitmaps,
-- strings and semaphores are taken as part of the language's library.
--
-- Private data are known by their address, or by their place in the table for the tty driver; the pointer
-- `hwedev` back to the device is that device's index. What is freed stands in no list any more, so to
-- follow a pointer to it finds nothing, which is the result `fault`, or sets the flag `oops` of the
-- drivers. An access of an SMBus command outside of the chip or of its data is a fault, too.
--
-- Fuel: the decimal print has more than the number of digits. The loops that shut all devices of an
-- interface down take as many rounds as there are devices, which is enough since each round takes one
-- off the list; the timer's loop of Async/Walk takes any number of rounds from that on. Every other
-- loop goes down a text, a list or a count.
--
-- How the parts interact: Sysfs parses texts with Utils, keeps the pairs, and creates and destroys
-- devices through the table of the drivers; the drivers look requests up in the pairs of their device
-- with find_pair; Ioctl and the sysfs files call the same operations; Async goes through the devices
-- of Sysfs and calls the drivers' handlers; Main starts and stops all. A step of the transition system is
-- what is done between taking a semaphore and giving it back, and for the network and SPI handlers,
-- which take none, the whole handler, so interleavings within one are not modelled.
--
-- Not modelled: logging, the stubs plat_probe and plat_remove and the empty close_dev of the drivers, the
-- constant fields that are handed to the kernel when an adapter, a driver or a network device is
-- registered, the version-dependent alternatives for old kernels, and the user-space tools under
-- control/, tests/ and install/.
pub mod Prelude
pub mod Consts
pub mod Utils
pub mod Sysfs
pub mod Response
pub mod I2c
pub mod Spi
pub mod Async
pub mod Ioctl
pub mod Main
pub mod Handles
pub mod Drivers
pub mod Emulator
pub mod Loading
pub mod Pool
pub mod Tty
pub mod Net
pub mod Tests
