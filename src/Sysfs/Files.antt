-- ===== src/Sysfs/Files.antt =====
-- The files of an interface and of a pair in kernel/hwe_sysfs.c. The names of the objects above a file
-- are texts; `buf` with its `count` is the list of the bytes.
pub mod Words
pub mod Names
pub mod Show
use linux_hardware_devices_e.Prelude.{
  ℕ, zero, suc, ◌+◌, Bool, true, false, not, ◌&&◌, ◌||◌, [], ◌∷◌, ◌++◌, Option, none, some, Bytes,
  codes, decimal, ℤ, pos, negsuc, ◌==◌, ltb, length, if◌then◌else◌,
}
use linux_hardware_devices_e.Consts.{Iface, Errno, eio, einval, Ret, ok, err}
use linux_hardware_devices_e.Utils.Kernel.{KernelLib}
use linux_hardware_devices_e.Utils.Pair.{HwePair, pair_to_str}
use linux_hardware_devices_e.Utils.Lookup.{str_to_iface}
use linux_hardware_devices_e.Sysfs.Dev.{HweDev}
use linux_hardware_devices_e.Sysfs.Registry.{DevOps, State, DevEnv, find_device, new_dev}
use linux_hardware_devices_e.Sysfs.Calls.{
  lock_iface_devs, unlock_iface_devs, printed_text, pair_at, shutdown_found,
}

-- `sizeof(dev_name)`
abbrev pub dev_name_size : ℕ
dev_name_size = 16

-- `%ld`
abbrev pub print_long : ℤ → Bytes
print_long (pos n) = decimal n
print_long (negsuc n) = b'-' ∷ decimal (n + 1)

-- The text of the pair at an index, or none.
pub pair_line : Option HwePair → Bytes
pair_line none = []
pair_line (some pair) = printed_text (pair_to_str pair)

pub dev_line : Bytes → ℤ → Option HweDev → Bytes
dev_line dev_name idx none = codes "ERROR: device '" ++ dev_name ++ codes "' not found!"
dev_line dev_name idx (some dev) = pair_line (pair_at dev.pair_list idx)

pub or_missing : ℤ → Bytes → Bytes
or_missing idx line =
    if length line == 0
    then codes "ERROR: pair with index " ++ print_long idx ++ codes " not found!"
    else line

module _ (lib : KernelLib) where
  open lib use {isspace, isprint, kstrtol}

  pub skip_spaces : Bytes → Bytes
  skip_spaces [] = []
  skip_spaces (c ∷ s) = let rest = skip_spaces s in if isspace c then rest else c ∷ s

  -- The second loop; room for the NUL is kept.
  pub copy_chars : ℕ → Bytes → Bytes
  copy_chars zero s = []
  copy_chars (suc zero) s = []
  copy_chars (suc (suc n)) [] = []
  copy_chars (suc (suc n)) (c ∷ s) =
      let rest = copy_chars (suc n) s in
      if not (c == 0) && (not (isspace c) && isprint c) then c ∷ rest else []

  -- The word; the result is its length.
  unfoldable pub copy_word : Bytes → ℕ → Bytes
  unfolding skip_spaces copy_chars
  copy_word src dst_len =
      let rest = skip_spaces src in
      if length rest == 0 || ltb dst_len 1 then [] else copy_chars dst_len rest

  module _ {D : Type 0} (ops : DevOps D) where
    pub added_count : Option HweDev → ℕ → Ret
    added_count none n = err eio
    added_count (some dev) n = ok n

    unfoldable pub add_locked : DevEnv → State D → Bytes → Option Iface → State D × Ret
    add_locked env st buf none = (st, err eio)
    add_locked env st buf (some ifc) =
        let (st₁, dev) = new_dev ops env (lock_iface_devs st ifc) ifc in
        (unlock_iface_devs st₁ ifc, added_count dev (length buf))

    -- The file `add` of an interface.
    unfoldable pub iface_add_store : DevEnv → State D → Bytes → Bytes → State D × Ret
    unfolding add_locked added_count
    iface_add_store env st iface_name buf =
        if length buf == 0 then (st, err eio) else add_locked env st buf (str_to_iface iface_name)

    unfoldable pub uninstall_locked : State D → Bytes → Option Iface → State D × Ret
    uninstall_locked st buf none = (st, err einval)
    uninstall_locked st buf (some ifc) =
        let dev_name = copy_word buf dev_name_size in
        if length dev_name == 0
        then (st, err einval)
        else (let st₁ = lock_iface_devs st ifc in
            let (st₂, ret) =
              shutdown_found ops st₁ (find_device (st₁.ifaces ifc).dev_list dev_name) einval
                (length buf) in
            (unlock_iface_devs st₂ ifc, ret))

    -- The file `uninstall` of an interface.
    unfoldable pub iface_uninstall_store : State D → Bytes → Bytes → State D × Ret
    unfolding uninstall_locked
    iface_uninstall_store st iface_name buf =
        if length buf == 0
        then (st, err einval)
        else uninstall_locked st buf (str_to_iface iface_name)

  module _ {D : Type 0} where
    pub show_in : State D → Bytes → ℤ → Bytes → Option Iface → State D × Bytes
    show_in st dev_name idx iface_name none =
        (st, codes "ERROR: invalid interface '" ++ iface_name ++ codes "'!")
    show_in st dev_name idx iface_name (some iface) =
        let st₁ = lock_iface_devs st iface in
        let line = dev_line dev_name idx (find_device (st₁.ifaces iface).dev_list dev_name) in
        (unlock_iface_devs st₁ iface, or_missing idx line)

    pub show_at : State D → Bytes → Bytes → Bytes → Option ℤ → State D × Bytes
    show_at st iface_name dev_name filename none =
        (st, codes "ERROR: invalid index '" ++ filename ++ codes "'!")
    show_at st iface_name dev_name filename (some idx) =
        show_in st dev_name idx iface_name (str_to_iface iface_name)

    -- The file of a pair.
    unfoldable pub pair_show : State D → Bytes → Bytes → Bytes → State D × Bytes
    unfolding show_at show_in dev_line pair_line or_missing
    pair_show st iface_name dev_name filename =
        show_at st iface_name dev_name filename (kstrtol filename)
