-- ===== src/Spi.antt =====
-- The transfer and the asynchronous handler of kernel/hwe_spi.c. The private data of a device, less
-- its links, is its pending response; `pair_list` of its `hwedev` is an argument of the transfer.
pub mod Transfer
pub mod Devices
use linux_hardware_devices_e.Prelude.{
  ℕ, ◌-◌, Bool, true, false, List, [], ◌∷◌, ◌++◌, Option, none, some, Bytes, ◌==◌, ltb, length,
  take, replicate, if◌then◌else◌,
}
use linux_hardware_devices_e.Utils.Pair.{HwePair}
use linux_hardware_devices_e.Utils.Lookup.{find_pair}
use linux_hardware_devices_e.Response.{
  Response, memcpy, load, discard, chunk, read_bytes, consume, async_load,
}

-- struct spi_transfer; a buffer is `none` where it is NULL, and holds `len` bytes otherwise.
pub record SpiTransfer : Type 0 where
  pub tx_buf : Option Bytes
  pub rx_buf : Option Bytes
  pub len : ℕ

pub answer : Response → Option HwePair → Response
answer r none = discard r
answer r (some pair) = load r pair.resp false

-- Reading without writing: what is pending, then zeros.
pub read_rx : Response → ℕ → Response × Bytes
read_rx r len =
    if r.resp_size == 0
    then (r, replicate len 0)
    else let sz = chunk r len in (consume r sz, read_bytes r sz ++ replicate (len - sz) 0)

by_buffers : List HwePair → Response → ℕ → Option Bytes → Option Bytes → Response × Option Bytes
by_buffers pairs r len (some tx) (some rx) = (discard r, some (replicate len 0))
by_buffers pairs r len none (some rx) = let (r', rx') = read_rx r len in (r', some rx')
by_buffers pairs r len (some tx) none = (answer r (find_pair pairs (take len tx)), none)
by_buffers pairs r len none none = (r, none)

-- The result is always 0.
unfoldable pub hwespi_transfer_one : List HwePair → Response → SpiTransfer → Response × SpiTransfer
unfolding by_buffers read_rx answer
hwespi_transfer_one pairs r t =
    let (r', rx) = by_buffers pairs r t.len t.tx_buf t.rx_buf in (r', record t { rx_buf = rx })

unfoldable pub hwe_spi_async_rx : Response → HwePair → Response
hwe_spi_async_rx device pair = async_load device pair.resp
