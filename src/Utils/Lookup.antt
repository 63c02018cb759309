-- ===== src/Utils/Lookup.antt =====
-- The searches of kernel/hwe_utils.c and list_entry_count() of kernel/hwemu.h. A `struct list_head`
-- is the list of its entries, from the one behind the head on.
pub mod Find
use linux_hardware_devices_e.Prelude.{
  ℕ, ◌+◌, Bool, not, ◌&&◌, ◌||◌, List, [], ◌∷◌, Option, none, some, Bytes, codes, beq, ◌==◌, length,
  if◌then◌else◌,
}
use linux_hardware_devices_e.Consts.{Iface, tty, i2c, net, spi}
use linux_hardware_devices_e.Utils.Pair.{HwePair}

unfoldable pub iface_to_str : Iface → Bytes
iface_to_str tty = codes "tty"
iface_to_str i2c = codes "i2c"
iface_to_str net = codes "net"
iface_to_str spi = codes "spi"

-- One `CHECK`: the name in upper case or in lower case.
names : Bytes → Bytes → Bytes → Bool
names str upper lower = beq str upper || beq str lower

-- `none` is the result 0.
unfoldable pub str_to_iface : Bytes → Option Iface
unfolding names beq
str_to_iface str =
    if names str (codes "TTY") (codes "tty")
    then some tty
    else if names str (codes "I2C") (codes "i2c")
    then some i2c
    else if names str (codes "NET") (codes "net")
    then some net
    else if names str (codes "SPI") (codes "spi")
    then some spi
    else none

-- The test of the loop in find_pair(); memcmp() compares as many bytes as both have.
unfoldable pub answers : HwePair → Bytes → Bool
answers pair request =
    not pair.async_rx && (length pair.req == length request && beq pair.req request)

unfoldable pub find_pair : List HwePair → Bytes → Option HwePair
unfolding answers
find_pair [] request = none
find_pair (p ∷ list) request = if answers p request then some p else find_pair list request

unfoldable pub get_pair_at_index : List HwePair → ℕ → Option HwePair
get_pair_at_index [] index = none
get_pair_at_index (p ∷ list) index =
    if index == p.index then some p else get_pair_at_index list index

unfoldable pub list_entry_count : List HwePair → ℕ → ℕ
list_entry_count [] ret = ret
list_entry_count (p ∷ list) ret = list_entry_count list (ret + 1)
