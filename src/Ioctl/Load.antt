-- ===== src/Ioctl/Load.antt =====
-- Loading and unloading in kernel/hwe_ioctl.c: the region of device numbers, the class, the character
-- device and its node.
use linux_hardware_devices_e.Prelude.{◌≡◌, refl, Bool, true, false, Option, none, some}
use linux_hardware_devices_e.Consts.{Errno}

-- What the kernel holds for the module.
pub record Chrdev : Type 0 where
  pub region : Bool
  pub cls : Bool
  pub cdev : Bool
  pub node : Bool

-- The errors of alloc_chrdev_region(), class_create(), cdev_add() and device_create(), `none` for none.
pub record ChrdevEnv : Type 0 where
  pub alloc_region : Option Errno
  pub class_create : Option Errno
  pub cdev_add : Option Errno
  pub device_create : Option Errno

-- The labels `err_dev` and `err_class`.
abbrev err_dev : Chrdev → Chrdev
err_dev c = record c { region = false }

abbrev err_class : Chrdev → Chrdev
err_class c = err_dev (record c { cls = false })

-- A node that fails goes to `err_class` with `err` still 0.
abbrev node_created : Chrdev → Option Errno → Chrdev × Option Errno
node_created c none = (record c { node = true }, none)
node_created c (some e) = (err_class c, none)

abbrev cdev_added : Chrdev → Option Errno → Option Errno → Chrdev × Option Errno
cdev_added c made none = node_created (record c { cdev = true }) made
cdev_added c made (some e) = (err_class c, some e)

abbrev class_created : Chrdev → Option Errno → Option Errno → Option Errno → Chrdev × Option Errno
class_created c made add none = cdev_added (record c { cls = true }) made add
class_created c made add (some e) = (err_dev c, some e)

abbrev region_allocated : ChrdevEnv → Chrdev → Option Errno → Chrdev × Option Errno
region_allocated env c none =
    class_created (record c { region = true }) env.device_create env.cdev_add env.class_create
region_allocated env c (some e) = (c, some e)

-- `none` is the result 0.
unfoldable pub hwe_init_ioctl : ChrdevEnv → Chrdev → Chrdev × Option Errno
hwe_init_ioctl env c = region_allocated env c env.alloc_region

-- The character device is not deleted.
abbrev pub hwe_cleanup_ioctl : Chrdev → Chrdev
hwe_cleanup_ioctl c = record c { node = false; cls = false; region = false }

abbrev pub nothing_held : Chrdev
nothing_held = record { region = false; cls = false; cdev = false; node = false }

-- What is held behind hwe_init_ioctl(), by its result and by whether the node could be made.
abbrev pub held_after : Option Errno → Option Errno → Chrdev
held_after (some e) made = nothing_held
held_after none none = record { region = true; cls = true; cdev = true; node = true }
held_after none (some e) = record { region = false; cls = false; cdev = true; node = false }

-- From nothing, an error leaves nothing behind, and 0 with a node is returned with everything held. If
-- device_create() fails, 0 is returned all the same, with the class and the region released, and with
-- the character device still added.
pub hwe_init_ioctl_cases :
    (env : ChrdevEnv)
    → (hwe_init_ioctl env nothing_held).0
      ≡ held_after (hwe_init_ioctl env nothing_held).1 env.device_create
unfolding hwe_init_ioctl
hwe_init_ioctl_cases env = go env.alloc_region env.class_create env.cdev_add env.device_create
  where
    go :
        (a b c d : Option Errno)
        → let x =
            region_allocated
              (record { alloc_region = a; class_create = b; cdev_add = c; device_create = d })
              nothing_held
              a in
          x.0 ≡ held_after x.1 d
    go (some e) b c d = refl
    go none (some e) c d = refl
    go none none (some e) d = refl
    go none none none none = refl
    go none none none (some e) = refl

-- An error leaves no region, no class and no node where there were none.
pub hwe_init_ioctl_failed :
    (env : ChrdevEnv) (c : Chrdev) (e : Errno)
    → (hwe_init_ioctl env c).1 ≡ some e
    → (c.region ≡ false) × (c.cls ≡ false) × (c.node ≡ false)
    → let c' = (hwe_init_ioctl env c).0 in
      (c'.region ≡ false) × (c'.cls ≡ false) × (c'.node ≡ false)
unfolding hwe_init_ioctl
hwe_init_ioctl_failed env c e h off =
    go env.alloc_region env.class_create env.cdev_add env.device_create h
  where
    go :
        (a b add d : Option Errno)
        → let x =
            region_allocated
              (record { alloc_region = a; class_create = b; cdev_add = add; device_create = d })
              c
              a in
          x.1 ≡ some e → (x.0.region ≡ false) × (x.0.cls ≡ false) × (x.0.node ≡ false)
    go (some e') b add d h' = off
    go none (some e') add d h' = (refl, off.1, off.2)
    go none none (some e') d h' = (refl, refl, off.2)
    go none none none none h' = absurd cc
    go none none none (some e') h' = absurd cc

-- Unloading a module that was loaded releases the node, the class and the region, and leaves the
-- character device added.
pub hwe_cleanup_ioctl_cdev :
    (env : ChrdevEnv)
    → (hwe_init_ioctl env nothing_held).1 ≡ none
    → hwe_cleanup_ioctl (hwe_init_ioctl env nothing_held).0 ≡ record nothing_held { cdev = true }
unfolding hwe_init_ioctl
hwe_cleanup_ioctl_cdev env is =
    go env.alloc_region env.class_create env.cdev_add env.device_create is
  where
    go :
        (a b c d : Option Errno)
        → let x =
            region_allocated
              (record { alloc_region = a; class_create = b; cdev_add = c; device_create = d })
              nothing_held
              a in
          x.1 ≡ none → hwe_cleanup_ioctl x.0 ≡ record nothing_held { cdev = true }
    go (some e) b c d is' = absurd cc
    go none (some e) c d is' = absurd cc
    go none none (some e) d is' = absurd cc
    go none none none none is' = refl
    go none none none (some e) is' = refl
