-- ===== src/I2c/Inside.antt =====
-- The SMBus commands of kernel/hwe_i2c.c make no access outside of the chip and of the data.
use linux_hardware_devices_e.Prelude.{
  ℕ, ◌+◌, ◌<◌, ◌≡◌, refl, ap, ◌∙◌, Bool-cases, inl, inr, Option, some, arith, Bytes, ltb, lt→ltb,
  length, get_or, set, length-set, if◌then◌else◌, ◌%◌,
}
use linux_hardware_devices_e.Consts.{Ret, ok, err, eopnotsupp}
use linux_hardware_devices_e.I2c.{
  HweChip, ReadWrite, smbus_read, smbus_write, SmbusSize, quick, byte, byte_data, word_data,
  block_data, i2c_block_data, unsupported, copy_bytes, block_len, do_smbus_xfer, with_ok, xfer_byte,
  xfer_byte_data, xfer_word_data, xfer_block_data, ◌>>=◌, put,
}
use linux_hardware_devices_e.I2c.Chip.{
  IsChip, copied, copy_bytes-copied, fetch_inside, put_inside, block_len-le, block_len-fits,
}

-- What a command does where every access is inside.
abbrev pub byte_inside : ReadWrite → ℕ → HweChip → Bytes → HweChip × Bytes
byte_inside smbus_write command chip d = (record chip { pos = command }, d)
byte_inside smbus_read command chip d =
    (record chip { pos = (chip.pos + 1) % 256 }, set d 0 (get_or chip.dat chip.pos 0))

abbrev pub byte_data_inside : ReadWrite → ℕ → HweChip → Bytes → HweChip × Bytes
byte_data_inside smbus_write command chip d =
    (record chip { dat = set chip.dat command (get_or d 0 0); pos = (command + 1) % 256 }, d)
byte_data_inside smbus_read command chip d =
    (record chip { pos = (command + 1) % 256 }, set d 0 (get_or chip.dat command 0))

abbrev pub word_data_inside : ReadWrite → ℕ → HweChip → Bytes → HweChip × Bytes
word_data_inside smbus_write command chip d =
    let low = set chip.dat command (get_or d 0 0) in
    (record chip { dat = if ltb command 255 then set low (command + 1) (get_or d 1 0) else low }, d)
word_data_inside smbus_read command chip d = (
  chip,
  set (set d 0 (get_or chip.dat command 0)) 1
      (if ltb command 255 then get_or chip.dat (command + 1) 0 else 0),
)

abbrev pub block_data_inside : ReadWrite → ℕ → HweChip → Bytes → HweChip × Bytes
block_data_inside smbus_write command chip d =
    let len = block_len command (get_or d 0 0) in
    (record chip { dat = copied len chip.dat command (set d 0 len) 1 }, set d 0 len)
block_data_inside smbus_read command chip d =
    let len = block_len command (get_or d 0 0) in
    (chip, copied len (set d 0 len) 1 chip.dat command)

module _ (command : ℕ) (chip : HweChip) (d : Bytes) (v : IsChip chip) (h : command < 256)
    (size : length d ≡ 34) where
  byte_is :
      (rw_flag : ReadWrite)
      → xfer_byte rw_flag command chip d ≡ some (byte_inside rw_flag command chip d)
  unfolding xfer_byte
  byte_is smbus_write = refl
  byte_is smbus_read =
      rw
        (
          lt→ltb chip.pos (length chip.dat) (omega (arith, v.size, v.inside)),
          lt→ltb 0 (length d) (omega (arith, size)),
        )
        refl

  byte_data_is :
      (rw_flag : ReadWrite)
      → xfer_byte_data rw_flag command chip d ≡ some (byte_data_inside rw_flag command chip d)
  unfolding xfer_byte_data
  byte_data_is smbus_write =
      rw
        (
          lt→ltb 0 (length d) (omega (arith, size)),
          lt→ltb command (length chip.dat) (omega (arith, v.size, h)),
        )
        refl
  byte_data_is smbus_read =
      rw
        (
          lt→ltb 0 (length d) (omega (arith, size)),
          lt→ltb command (length chip.dat) (omega (arith, v.size, h)),
        )
        refl

  word_data_is :
      (rw_flag : ReadWrite)
      → xfer_word_data rw_flag command chip d ≡ some (word_data_inside rw_flag command chip d)
  unfolding xfer_word_data
  word_data_is smbus_write = elim (Bool-cases (ltb command 255)) [
    | inl t ↦
        let lt : command < 255 = ground arith in
        rw
          (
            t,
            lt→ltb 0 (length d) (omega (arith, size)),
            lt→ltb 1 (length d) (omega (arith, size)),
            lt→ltb command (length chip.dat) (omega (arith, v.size, h)),
            lt→ltb (command + 1) (length (set chip.dat command (get_or d 0 0)))
                (omega (arith, v.size, lt, length-set chip.dat command (get_or d 0 0))),
          )
          refl
    | inr f ↦
        rw
          (
            f,
            lt→ltb 0 (length d) (omega (arith, size)),
            lt→ltb command (length chip.dat) (omega (arith, v.size, h)),
          )
          refl
  ]
  word_data_is smbus_read = elim (Bool-cases (ltb command 255)) [
    | inl t ↦
        let lt : command < 255 = ground arith in
        rw
          (
            t,
            lt→ltb command (length chip.dat) (omega (arith, v.size, h)),
            lt→ltb (command + 1) (length chip.dat) (omega (arith, v.size, lt)),
            lt→ltb 0 (length d) (omega (arith, size)),
            lt→ltb 1 (length (set d 0 (get_or chip.dat command 0)))
                (omega (arith, size, length-set d 0 (get_or chip.dat command 0))),
          )
          refl
    | inr f ↦
        rw
          (
            f,
            lt→ltb command (length chip.dat) (omega (arith, v.size, h)),
            lt→ltb 0 (length d) (omega (arith, size)),
            lt→ltb 1 (length (set d 0 (get_or chip.dat command 0)))
                (omega (arith, size, length-set d 0 (get_or chip.dat command 0))),
          )
          refl
  ]

  block_data_is :
      (rw_flag : ReadWrite)
      → xfer_block_data rw_flag command chip d ≡ some (block_data_inside rw_flag command chip d)
  unfolding xfer_block_data
  block_data_is smbus_write =
      let len = block_len command (get_or d 0 0) in
      let fits = block_len-fits command (get_or d 0 0) h in
      let le = block_len-le command (get_or d 0 0) h in
      let rest : Bytes → Option (HweChip × Bytes) = λ block.
        copy_bytes len chip.dat command block 1 >>= λ dat.
        some (record chip { dat = dat }, block) in
      ap
        (λ o. o >>= λ asked. put d 0 (block_len command asked) >>= λ block.
          copy_bytes (block_len command asked) chip.dat command block 1 >>= λ dat.
          some (record chip { dat = dat }, block))
        (fetch_inside d 0 (omega (arith, size)))
      ∙ ap (λ o. o >>= rest) (put_inside d 0 len (omega (arith, size)))
      ∙ ap (λ o. o >>= λ dat. some (record chip { dat = dat }, set d 0 len))
          (copy_bytes-copied len chip.dat command (set d 0 len) 1 (omega (arith, v.size, fits))
            (omega (arith, size, le, length-set d 0 len)))
  block_data_is smbus_read =
      let len = block_len command (get_or d 0 0) in
      let fits = block_len-fits command (get_or d 0 0) h in
      let le = block_len-le command (get_or d 0 0) h in
      let rest : Bytes → Option (HweChip × Bytes) =
        λ block. copy_bytes len block 1 chip.dat command >>= λ block'. some (chip, block') in
      ap
        (λ o. o >>= λ asked. put d 0 (block_len command asked) >>= λ block.
          copy_bytes (block_len command asked) block 1 chip.dat command >>= λ block'.
          some (chip, block'))
        (fetch_inside d 0 (omega (arith, size)))
      ∙ ap (λ o. o >>= rest) (put_inside d 0 len (omega (arith, size)))
      ∙ ap (λ o. o >>= λ block'. some (chip, block'))
          (copy_bytes-copied len (set d 0 len) 1 chip.dat command
            (omega (arith, size, le, length-set d 0 len)) (omega (arith, v.size, fits)))

  -- What the command as a whole does there.
  abbrev pub xfer_inside : ReadWrite → SmbusSize → HweChip × Bytes × Ret
  xfer_inside rw_flag quick = (chip, d, ok 0)
  xfer_inside rw_flag byte = let (c, d') = byte_inside rw_flag command chip d in (c, d', ok 0)
  xfer_inside rw_flag byte_data =
      let (c, d') = byte_data_inside rw_flag command chip d in (c, d', ok 0)
  xfer_inside rw_flag word_data =
      let (c, d') = word_data_inside rw_flag command chip d in (c, d', ok 0)
  xfer_inside rw_flag block_data =
      let (c, d') = block_data_inside rw_flag command chip d in (c, d', ok 0)
  xfer_inside rw_flag i2c_block_data =
      let (c, d') = block_data_inside rw_flag command chip d in (c, d', ok 0)
  xfer_inside rw_flag unsupported = (chip, d, err eopnotsupp)

  pub do_smbus_xfer_inside :
      (rw_flag : ReadWrite) (z : SmbusSize)
      → do_smbus_xfer rw_flag command z chip d ≡ xfer_inside rw_flag z
  unfolding do_smbus_xfer with_ok
  do_smbus_xfer_inside rw_flag quick = refl
  do_smbus_xfer_inside rw_flag byte = ap (with_ok chip d) (byte_is rw_flag)
  do_smbus_xfer_inside rw_flag byte_data = ap (with_ok chip d) (byte_data_is rw_flag)
  do_smbus_xfer_inside rw_flag word_data = ap (with_ok chip d) (word_data_is rw_flag)
  do_smbus_xfer_inside rw_flag block_data = ap (with_ok chip d) (block_data_is rw_flag)
  do_smbus_xfer_inside rw_flag i2c_block_data = ap (with_ok chip d) (block_data_is rw_flag)
  do_smbus_xfer_inside rw_flag unsupported = refl
