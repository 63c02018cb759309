-- ===== src/Tests/Loads.antt =====
-- A load of the module that fails at its last unit, where the character device cannot be added.
use linux_hardware_devices_e.Prelude.{some}
use linux_hardware_devices_e.Consts.{enomem}
use linux_hardware_devices_e.Loading.{LoadEnv}
use linux_hardware_devices_e.Tests.Machine.{load_env}

abbrev no_cdev : LoadEnv
no_cdev = record load_env { ioctl = record load_env.ioctl { cdev_add = some enomem } }
