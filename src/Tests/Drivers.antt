-- ===== src/Tests/Drivers.antt =====
-- Transfers of the I2C and SPI devices.
use linux_hardware_devices_e.Prelude.{
  ℕ, ◌≡◌, refl, true, false, List, [], ◌∷◌, none, some, arith, Bytes, length-replicate, replicate,
  inl, inr,
}
use linux_hardware_devices_e.Consts.{Ret}
use linux_hardware_devices_e.Utils.Pair.Samples.{sync_pair}
use linux_hardware_devices_e.Response.{zeroed}
use linux_hardware_devices_e.Response.Pending.{pending, IsInside, zeroed-IsInside}
use linux_hardware_devices_e.I2c.{
  HweChip, I2cDev, I2cMsg, hwei2c_master_xfer, smbus_read, smbus_write, block_data, i2c_block_data,
  word_data, do_smbus_xfer,
}
use linux_hardware_devices_e.I2c.Master.{queue_xfer, hwei2c_master_xfer-queue}
use linux_hardware_devices_e.I2c.Chip.{IsChip}
use linux_hardware_devices_e.I2c.Smbus.{
  do_smbus_xfer-IsInRange, IsInRange, IsWordRead, BlockRoundTrip, smbus_read-smbus_write,
  smbus_read-smbus_write_word,
}
use linux_hardware_devices_e.Spi.{SpiTransfer}
use linux_hardware_devices_e.Spi.Transfer.{MatchesQueue, hwespi_transfer_one-queue}

abbrev chip : HweChip
chip = record { pos = 0; dat = replicate 256 0 }

chip-IsChip : IsChip chip
chip-IsChip = record { size = length-replicate {A = ℕ} 256 0; inside = omega arith }

abbrev i2c_dev : I2cDev
i2c_dev = record { in_use = true; response = zeroed; chip = chip }

-- The request of the pair, a read of its response, and a read that finds nothing.
abbrev msgs : List I2cMsg
msgs =
    record { rd = false; len = 2; buf = 1 ∷ 171 ∷ [] }
    ∷ record { rd = true; len = 4; buf = 0 ∷ 0 ∷ 0 ∷ 0 ∷ [] }
    ∷ record { rd = true; len = 1; buf = 0 ∷ [] }
    ∷ []

abbrev after : I2cDev × List I2cMsg × Ret
after = hwei2c_master_xfer (sync_pair ∷ []) i2c_dev msgs

hwei2c_master_xfer-queue_example :
    ((pending after.0.response, after.1, after.2)
      ≡ queue_xfer (sync_pair ∷ []) (pending zeroed) msgs)
    × IsInside after.0.response
    × (after.0.chip ≡ chip)
    × (after.0.in_use ≡ true)
hwei2c_master_xfer-queue_example =
    hwei2c_master_xfer-queue (sync_pair ∷ []) i2c_dev msgs refl zeroed-IsInside (omega arith, tt)

abbrev transfer : SpiTransfer
transfer = record { tx_buf = some (1 ∷ 171 ∷ []); rx_buf = none; len = 2 }

hwespi_transfer_one-queue_example : MatchesQueue (sync_pair ∷ []) zeroed transfer
hwespi_transfer_one-queue_example =
    hwespi_transfer_one-queue (sync_pair ∷ []) zeroed transfer zeroed-IsInside (omega arith, tt)

-- Three bytes asked for at the last two of the chip.
abbrev block : Bytes
block = 3 ∷ 5 ∷ 6 ∷ 7 ∷ replicate 30 0

abbrev asked : Bytes
asked = 3 ∷ replicate 33 0

do_smbus_xfer-IsInRange_example : IsInRange (do_smbus_xfer smbus_write 255 word_data chip block)
do_smbus_xfer-IsInRange_example =
    do_smbus_xfer-IsInRange 255 chip block chip-IsChip (omega arith) refl smbus_write word_data

smbus_read-smbus_write_example :
    BlockRoundTrip 254 chip block asked chip-IsChip
      (omega arith)
      refl
      refl
      1
      253
      refl
      block_data
      i2c_block_data
smbus_read-smbus_write_example =
    smbus_read-smbus_write 254 chip block asked chip-IsChip (omega arith) refl refl 1 253 refl
      (omega arith) (inl (omega arith)) block_data i2c_block_data (inl refl) (inr refl)

abbrev word_written : HweChip × Bytes × Ret
word_written = do_smbus_xfer smbus_write 255 word_data chip block

smbus_read-smbus_write_word_example :
    IsWordRead 255 chip block asked chip-IsChip
      (omega arith)
      refl
      refl
      word_written
      (do_smbus_xfer smbus_read 255 word_data word_written.0 asked)
smbus_read-smbus_write_word_example =
    smbus_read-smbus_write_word 255 chip block asked chip-IsChip (omega arith) refl refl
