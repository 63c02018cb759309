-- ===== src/I2c.antt =====
-- The transfers of kernel/hwe_i2c.c: the private data of a device, the I2C messages and the SMBus
-- commands, and the asynchronous handler. A transfer holds the interface's semaphore from its
-- beginning to its end, so it is one step. The bytes of a 16-bit word stand in little-endian order.
pub mod Master
pub mod Chip
pub mod Inside
pub mod Smbus
pub mod Devices
use linux_hardware_devices_e.Prelude.{
  ℕ, zero, suc, ◌+◌, ◌-◌, ◌*◌, ◌/◌, ◌%◌, ◌^◌, Bool, true, false, List, [], ◌∷◌, ◌++◌, Option, none,
  some, Bytes, ◌==◌, ltb, leb, length, take, drop, get_or, set, if◌then◌else◌,
}
use linux_hardware_devices_e.Consts.{Errno, einval, enodev, eopnotsupp, Ret, ok, err, fault}
use linux_hardware_devices_e.Utils.Pair.{HwePair}
use linux_hardware_devices_e.Utils.Lookup.{find_pair}
use linux_hardware_devices_e.Response.{
  Response, memcpy, load, discard, chunk, read_bytes, consume, async_load,
}

abbrev pub i2c_chip_size : ℕ
i2c_chip_size = 256

abbrev pub i2c_smbus_block_max : ℕ
i2c_smbus_block_max = 32

-- struct hwe_chip; `pos` is a u8.
pub record HweChip : Type 0 where
  pub pos : ℕ
  pub dat : Bytes

-- struct hwe_dev_priv, less its links. `pair_list` of its `hwedev` is an argument of the transfers.
pub record I2cDev : Type 0 where
  pub in_use : Bool
  pub response : Response
  pub chip : HweChip

-- struct i2c_msg; `rd` is the flag I2C_M_RD.
pub record I2cMsg : Type 0 where
  pub rd : Bool
  pub len : ℕ
  pub buf : Bytes

-- find_response() and what a write does with its result.
answer : Response → Option HwePair → Response
answer r none = discard r
answer r (some pair) = load r pair.resp false

read_msg : Response → I2cMsg → Response × I2cMsg × Bool
read_msg r m =
    if r.resp_size == 0
    then (r, record m { len = 0 }, true)
    else let sz = chunk r m.len in
      (consume r sz, record m { buf = memcpy m.buf (read_bytes r sz) }, false)

-- One round of the loop; the flag says that it sets the error.
unfoldable pub xfer_msg : List HwePair → Response → I2cMsg → Response × I2cMsg × Bool
unfolding answer read_msg
xfer_msg pairs r m =
    if m.rd then read_msg r m else (answer r (find_pair pairs (take m.len m.buf)), m, false)

-- The loop, with `err` so far.
pub xfer_loop : List HwePair → Response → List I2cMsg → Ret → Response × List I2cMsg × Ret
xfer_loop pairs r [] e = (r, [], e)
xfer_loop pairs r (m ∷ msgs) e =
    let (r₁, m', failed) = xfer_msg pairs r m in
    let (r₂, msgs', e') = xfer_loop pairs r₁ msgs (if failed then err einval else e) in
    (r₂, m' ∷ msgs', e')

unfoldable pub do_master_xfer : List HwePair → Response → List I2cMsg → Response × List I2cMsg × Ret
unfolding xfer_loop
do_master_xfer pairs r msgs = xfer_loop pairs r msgs (ok (length msgs))

unfoldable pub hwei2c_master_xfer : List HwePair → I2cDev → List I2cMsg → I2cDev × List I2cMsg × Ret
hwei2c_master_xfer pairs dev msgs =
    if dev.in_use
    then (let (r, msgs', e) = do_master_xfer pairs dev.response msgs in
        (record dev { response = r }, msgs', e))
    else (dev, msgs, err enodev)

pub data SmbusSize : Type 0 where
  quick byte byte_data word_data block_data i2c_block_data unsupported : SmbusSize

pub data ReadWrite : Type 0 where
  smbus_read smbus_write : ReadWrite

infixl 5 ◌>>=◌
abbrev pub ◌>>=◌ {ℓ κ} : {A : Type ℓ} {B : Type κ} → Option A → (A → Option B) → Option B
none >>= f = none
some x >>= f = f x

-- A read and a write of an array: `none` is an access outside of it.
unfoldable pub fetch : Bytes → ℕ → Option ℕ
fetch xs i = if ltb i (length xs) then some (get_or xs i 0) else none

unfoldable pub put : Bytes → ℕ → ℕ → Option Bytes
put xs i x = if ltb i (length xs) then some (set xs i x) else none

-- `for (i = 0; i < len; i++) dst[d + i] = src[s + i];`
unfoldable pub copy_bytes : ℕ → Bytes → ℕ → Bytes → ℕ → Option Bytes
unfolding fetch put
copy_bytes zero dst d src s = some dst
copy_bytes (suc len) dst d src s = do
  x ← fetch src s
  dst' ← put dst d x
  copy_bytes len dst' (d + 1) src (s + 1)

-- The two tests of a block's length, block[0].
unfoldable pub block_len : ℕ → ℕ → ℕ
block_len command b =
    let b₁ = if ltb i2c_smbus_block_max b then i2c_smbus_block_max else b in
    if ltb (i2c_chip_size - command) b₁ then i2c_chip_size - command else b₁

-- The data of a command is a union: `byte` is its first byte, `word` its first two, and `block` all of it.
xfer_byte : ReadWrite → ℕ → HweChip → Bytes → Option (HweChip × Bytes)
unfolding fetch put
xfer_byte smbus_write command chip data_block = some (record chip { pos = command }, data_block)
xfer_byte smbus_read command chip data_block = do
  x ← fetch chip.dat chip.pos
  data_block' ← put data_block 0 x
  some (record chip { pos = (chip.pos + 1) % 256 }, data_block')

xfer_byte_data : ReadWrite → ℕ → HweChip → Bytes → Option (HweChip × Bytes)
unfolding fetch put
xfer_byte_data smbus_write command chip data_block = do
  x ← fetch data_block 0
  dat ← put chip.dat command x
  some (record chip { dat = dat; pos = (command + 1) % 256 }, data_block)
xfer_byte_data smbus_read command chip data_block = do
  x ← fetch chip.dat command
  data_block' ← put data_block 0 x
  some (record chip { pos = (command + 1) % 256 }, data_block')

-- A word at the last byte of the chip is cut to that byte.
xfer_word_data : ReadWrite → ℕ → HweChip → Bytes → Option (HweChip × Bytes)
unfolding fetch put
xfer_word_data smbus_write command chip data_block =
    if ltb command 255
    then (do
      low ← fetch data_block 0
      high ← fetch data_block 1
      dat ← put chip.dat command low
      dat' ← put dat (command + 1) high
      some (record chip { dat = dat' }, data_block))
    else (do
      low ← fetch data_block 0
      dat ← put chip.dat command low
      some (record chip { dat = dat }, data_block))
xfer_word_data smbus_read command chip data_block =
    if ltb command 255
    then (do
      low ← fetch chip.dat command
      high ← fetch chip.dat (command + 1)
      data_block' ← put data_block 0 low
      data_block'' ← put data_block' 1 high
      some (chip, data_block''))
    else (do
      low ← fetch chip.dat command
      data_block' ← put data_block 0 low
      data_block'' ← put data_block' 1 0
      some (chip, data_block''))

xfer_block_data : ReadWrite → ℕ → HweChip → Bytes → Option (HweChip × Bytes)
unfolding fetch put copy_bytes block_len
xfer_block_data smbus_write command chip data_block = do
  asked ← fetch data_block 0
  block ← put data_block 0 (block_len command asked)
  dat ← copy_bytes (block_len command asked) chip.dat command block 1
  some (record chip { dat = dat }, block)
xfer_block_data smbus_read command chip data_block = do
  asked ← fetch data_block 0
  block ← put data_block 0 (block_len command asked)
  block' ← copy_bytes (block_len command asked) block 1 chip.dat command
  some (chip, block')

-- The result 0, or a fault of the chip and the data as they were.
with_ok : HweChip → Bytes → Option (HweChip × Bytes) → HweChip × Bytes × Ret
with_ok chip data_block none = (chip, data_block, fault)
with_ok chip data_block (some (chip', data_block')) = (chip', data_block', ok 0)

unfoldable pub do_smbus_xfer : ReadWrite → ℕ → SmbusSize → HweChip → Bytes → HweChip × Bytes × Ret
unfolding xfer_byte xfer_byte_data xfer_word_data xfer_block_data with_ok block_len copy_bytes
do_smbus_xfer read_write command quick chip data_block = (chip, data_block, ok 0)
do_smbus_xfer read_write command byte chip data_block =
    with_ok chip data_block (xfer_byte read_write command chip data_block)
do_smbus_xfer read_write command byte_data chip data_block =
    with_ok chip data_block (xfer_byte_data read_write command chip data_block)
do_smbus_xfer read_write command word_data chip data_block =
    with_ok chip data_block (xfer_word_data read_write command chip data_block)
do_smbus_xfer read_write command block_data chip data_block =
    with_ok chip data_block (xfer_block_data read_write command chip data_block)
do_smbus_xfer read_write command i2c_block_data chip data_block =
    with_ok chip data_block (xfer_block_data read_write command chip data_block)
do_smbus_xfer read_write command unsupported chip data_block = (chip, data_block, err eopnotsupp)

unfoldable pub hwei2c_smbus_xfer : ReadWrite → ℕ → SmbusSize → I2cDev → Bytes → I2cDev × Bytes × Ret
hwei2c_smbus_xfer read_write command size dev data_block =
    if dev.in_use
    then (let (chip, data_block', ret) =
          do_smbus_xfer read_write command size dev.chip data_block in
        (record dev { chip = chip }, data_block', ret))
    else (dev, data_block, err enodev)

unfoldable pub hwe_i2c_async_rx : I2cDev → HwePair → I2cDev
hwe_i2c_async_rx dev pair =
    if dev.in_use
    then record dev {
      chip = record dev.chip { dat = memcpy dev.chip.dat (take i2c_chip_size pair.resp) };
      response = async_load dev.response pair.resp;
    }
    else dev
