-- ===== src/I2c/Smbus.antt =====
-- The SMBus commands of kernel/hwe_i2c.c on the chip of 256 bytes.
use linux_hardware_devices_e.Prelude.{
  ℕ, if_elim, ◌+◌, ◌<◌, ◌≤◌, ◌≡◌, ◌≢◌, refl, sym, subst, ◌⊎◌, inl, inr, ◌∙◌, arith, Bytes, ltb,
  length, get_or, set, length-set, get_or-set_self, get_or-set_ne, if◌then◌else◌, Bool-cases,
}
use linux_hardware_devices_e.Consts.{Ret, ok, fault}
use linux_hardware_devices_e.I2c.{
  HweChip, ReadWrite, smbus_read, smbus_write, SmbusSize, quick, byte, byte_data, word_data,
  block_data, i2c_block_data, unsupported, block_len, do_smbus_xfer,
}
use linux_hardware_devices_e.I2c.Chip.{
  IsChip, copied, length-copied, copied_outside, copied_inside, block_len-le, block_len-fits, moved,
  block_len-moved,
}
use linux_hardware_devices_e.I2c.Inside.{xfer_inside, do_smbus_xfer_inside}

abbrev chip_of : HweChip × Bytes × Ret → HweChip
chip_of x = x.0

abbrev data_of : HweChip × Bytes × Ret → Bytes
data_of x = x.1

abbrev ret_of : HweChip × Bytes × Ret → Ret
ret_of x = x.2

-- A command has made no access outside of the chip and of the data, and left a chip and as much data.
abbrev pub IsInRange : HweChip × Bytes × Ret → Type 0
IsInRange x = (ret_of x ≢ fault) × IsChip (chip_of x) × (length (data_of x) ≡ 34)

module _ (command : ℕ) (chip : HweChip) (d : Bytes) (v : IsChip chip) (h : command < 256)
    (size : length d ≡ 34) where
  block_in_range :
      (rw_flag : ReadWrite) → IsInRange (xfer_inside command chip d v h size rw_flag block_data)
  block_in_range smbus_write = (
    (λ e. cc),
    record {
      size =
          length-copied (block_len command (get_or d 0 0)) chip.dat command
            (set d 0 (block_len command (get_or d 0 0))) 1
          ∙ v.size;
      inside = v.inside;
    },
    length-set d 0 _ ∙ size,
  )
  block_in_range smbus_read =
      let len = block_len command (get_or d 0 0) in
      ((λ e. cc), v, length-copied len (set d 0 len) 1 chip.dat command ∙ length-set d 0 len ∙ size)

  inside_in_range :
      (rw_flag : ReadWrite) (z : SmbusSize)
      → IsInRange (xfer_inside command chip d v h size rw_flag z)
  inside_in_range rw_flag quick = ((λ e. cc), v, size)
  inside_in_range smbus_write byte = ((λ e. cc), record { size = v.size; inside = h }, size)
  inside_in_range smbus_read byte =
      ((λ e. cc), record { size = v.size; inside = omega arith }, length-set d 0 _ ∙ size)
  inside_in_range smbus_write byte_data = (
    (λ e. cc),
    record { size = length-set chip.dat command _ ∙ v.size; inside = omega arith },
    size,
  )
  inside_in_range smbus_read byte_data =
      ((λ e. cc), record { size = v.size; inside = omega arith }, length-set d 0 _ ∙ size)
  inside_in_range smbus_write word_data = (
    (λ e. cc),
    record {
      size =
          if_elim (λ xs. length xs ≡ 256) (ltb command 255)
            (length-set (set chip.dat command (get_or d 0 0)) (command + 1) _
              ∙ length-set chip.dat command _
              ∙ v.size)
            (length-set chip.dat command _ ∙ v.size);
      inside = v.inside;
    },
    size,
  )
  inside_in_range smbus_read word_data =
      ((λ e. cc), v, length-set (set d 0 (get_or chip.dat command 0)) 1 _ ∙ length-set d 0 _ ∙ size)
  inside_in_range rw_flag block_data = block_in_range rw_flag
  inside_in_range rw_flag i2c_block_data = block_in_range rw_flag
  inside_in_range rw_flag unsupported = ((λ e. cc), v, size)

  -- On a chip of 256 bytes whose position is a u8, with a command byte below 256 and a union of 34
  -- bytes, no SMBus command makes an access outside of the chip or of the union, and each leaves
  -- such a chip and such a union.
  pub do_smbus_xfer-IsInRange :
      (rw_flag : ReadWrite) (z : SmbusSize) → IsInRange (do_smbus_xfer rw_flag command z chip d)
  do_smbus_xfer-IsInRange rw_flag z =
      subst IsInRange (sym (do_smbus_xfer_inside command chip d v h size rw_flag z))
        (inside_in_range rw_flag z)

by_size :
    (P : SmbusSize → Type 0) {size : SmbusSize}
    → (size ≡ block_data) ⊎ (size ≡ i2c_block_data)
    → P block_data
    → P i2c_block_data
    → P size
by_size P (inl e) a b = subst P (sym e) a
by_size P (inr e) a b = subst P (sym e) b

module _ (command : ℕ) (chip : HweChip) (d d' : Bytes) (v : IsChip chip) (h : command < 256)
    (size : length d ≡ 34) (size' : length d' ≡ 34) where
  -- A property of a write and of a read behind it holds of the two commands if it holds of what they do
  -- inside of the chip and the data.
  write_read :
      (P : HweChip × Bytes × Ret → HweChip × Bytes × Ret → Type 0) (z₁ z₂ : SmbusSize)
      → (let w = xfer_inside command chip d v h size smbus_write z₁ in
          P w (
            xfer_inside command
              (chip_of w)
              d'
              (inside_in_range command chip d v h size smbus_write z₁).1
              h
              size'
              smbus_read
              z₂))
      → (let w = do_smbus_xfer smbus_write command z₁ chip d in
          P w (do_smbus_xfer smbus_read command z₂ (chip_of w) d'))
  write_read P z₁ z₂ inside =
      let w = xfer_inside command chip d v h size smbus_write z₁ in
      subst (λ x. P x (do_smbus_xfer smbus_read command z₂ (chip_of x) d'))
        (sym (do_smbus_xfer_inside command chip d v h size smbus_write z₁))
        (subst (P w)
          (sym (
            do_smbus_xfer_inside command (chip_of w) d'
              (inside_in_range command chip d v h size smbus_write z₁).1 h size' smbus_read z₂))
          inside)

  module _ (i j : ℕ) (first : get_or d' 0 0 ≡ get_or d 0 0) where
    -- What a write of a block leaves for a read of as many bytes at the same command byte, and outside.
    abbrev pub IsBlockRead : HweChip × Bytes × Ret → HweChip × Bytes × Ret → Type 0
    IsBlockRead w r =
        (ret_of w ≡ ok 0)
        × (ret_of r ≡ ok 0)
        × (get_or (data_of r) 0 0 ≡ moved command (get_or d 0 0))
        × (get_or (data_of r) (1 + i) 0 ≡ get_or d (1 + i) 0)
        × (get_or (chip_of w).dat j 0 ≡ get_or chip.dat j 0)

    abbrev pub BlockRoundTrip : SmbusSize → SmbusSize → Type 0
    BlockRoundTrip size₁ size₂ =
        let w = do_smbus_xfer smbus_write command size₁ chip d in
        IsBlockRead w (do_smbus_xfer smbus_read command size₂ (chip_of w) d')

    -- On a chip of 256 bytes, with a command byte below 256 and unions of 34 bytes: a write of a block
    -- by either block command and then a read by either that asks for as many bytes both return 0. The
    -- number of bytes that is moved is what was asked for, but at most 32, and at most the 256 less the
    -- command byte that are left of the chip; each byte `i` of them comes back as it was written, and
    -- each byte `j` of the chip outside of the block is left as it was.
    pub smbus_read-smbus_write :
        i < moved command (get_or d 0 0)
        → (j < command) ⊎ (command + moved command (get_or d 0 0) ≤ j)
        → (size₁ size₂ : SmbusSize) → (size₁ ≡ block_data) ⊎ (size₁ ≡ i2c_block_data)
        → (size₂ ≡ block_data) ⊎ (size₂ ≡ i2c_block_data)
        → BlockRoundTrip size₁ size₂
    smbus_read-smbus_write below outside size₁ size₂ s₁ s₂ =
        let len = block_len command (get_or d 0 0) in
        let same : len ≡ moved command (get_or d 0 0) = block_len-moved command (get_or d 0 0) in
        let block = set d 0 len in
        let dat' = copied len chip.dat command block 1 in
        let len_le : len ≤ 32 = block_len-le command (get_or d 0 0) h in
        let fits : command + len ≤ 256 = block_len-fits command (get_or d 0 0) h in
        let below' : i < len = subst (λ n. i < n) (sym same) below in
        let outside' : (j < command) ⊎ (command + len ≤ j) =
          subst (λ n. (j < command) ⊎ (command + n ≤ j)) (sym same) outside in
        let back : (get_or (copied len (set d' 0 len) 1 dat' command) 0 0 ≡ len) =
          copied_outside len (set d' 0 len) 1 dat' command 0 (inl (omega arith))
          ∙ get_or-set_self d' 0 len 0 (omega (arith, size')) in
        let room : 1 + len ≤ length (set d' 0 len) =
          omega (arith, size', length-set d' 0 len, len_le) in
        let read : (get_or (copied len (set d' 0 len) 1 dat' command) (1 + i) 0
            ≡ get_or d (1 + i) 0) =
          copied_inside len (set d' 0 len) 1 dat' command i below' room
          ∙ copied_inside len chip.dat command block 1 i below' (omega (arith, v.size, fits))
          ∙ get_or-set_ne d 0 (1 + i) len 0 (omega arith) in
        let inside : IsBlockRead (xfer_inside command chip d v h size smbus_write block_data) (
            xfer_inside command (record chip { dat = dat' }) d'
              (block_in_range command chip d v h size smbus_write).1 h size' smbus_read
              block_data) =
          rw first (
            refl,
            refl,
            back ∙ same,
            read,
            copied_outside len chip.dat command block 1 j outside',
          ) in
        let trip = write_read IsBlockRead in
        by_size (λ z. BlockRoundTrip z size₂) s₁
          (by_size (BlockRoundTrip block_data) s₂ (trip block_data block_data inside)
            (trip block_data i2c_block_data inside))
          (by_size (BlockRoundTrip i2c_block_data) s₂ (trip i2c_block_data block_data inside)
            (trip i2c_block_data i2c_block_data inside))

get_or-set-set :
    (xs : Bytes) (k x y : ℕ) → k + 1 < length xs → get_or (set (set xs k x) (k + 1) y) k 0 ≡ x
get_or-set-set xs k x y h =
    get_or-set_ne (set xs k x) (k + 1) k y 0 (omega arith)
    ∙ get_or-set_self xs k x 0 (omega (arith, h))

get_or-set-set_next :
    (xs : Bytes) (k x y : ℕ) → k + 1 < length xs → get_or (set (set xs k x) (k + 1) y) (k + 1) 0 ≡ y
get_or-set-set_next xs k x y h =
    get_or-set_self (set xs k x) (k + 1) y 0 (omega (arith, h, length-set xs k x))

module _ (command : ℕ) (chip : HweChip) (d d' : Bytes) (v : IsChip chip) (h : command < 256)
    (size : length d ≡ 34) (size' : length d' ≡ 34) where
  -- What a write of a word leaves for a read at the same command byte.
  abbrev pub IsWordRead : HweChip × Bytes × Ret → HweChip × Bytes × Ret → Type 0
  IsWordRead w r =
      (ret_of w ≡ ok 0)
      × (ret_of r ≡ ok 0)
      × (get_or (data_of r) 0 0 ≡ get_or d 0 0)
      × (get_or (data_of r) 1 0 ≡ (if ltb command 255 then get_or d 1 0 else 0))
      × ((chip_of r).pos ≡ chip.pos)

  -- On a chip of 256 bytes, with a command byte below 256 and unions of 34 bytes: a write of a word and
  -- a read of a word both return 0, so neither makes an access outside of the chip, also at its last
  -- byte; the word is read back, but at the last byte only its low byte is kept, and the high byte
  -- is read as 0. Neither command moves the position.
  pub smbus_read-smbus_write_word :
      let w = do_smbus_xfer smbus_write command word_data chip d in
      IsWordRead w (do_smbus_xfer smbus_read command word_data (chip_of w) d')
  smbus_read-smbus_write_word =
      write_read command chip d d' v h size size' IsWordRead word_data word_data
        (elim (Bool-cases (ltb command 255)) [
          | inl t ↦
              (let lt : command < 255 = ground arith in
                let room : command + 1 < length chip.dat = omega (arith, v.size, lt) in
                rw t (
                  refl,
                  refl,
                  get_or-set-set d' 0 _ _ (omega (arith, size'))
                      ∙ get_or-set-set chip.dat command _ _ room,
                  get_or-set-set_next d' 0 _ _ (omega (arith, size'))
                      ∙ get_or-set-set_next chip.dat command _ _ room,
                  refl,
                ))
          | inr f ↦ rw f (
            refl,
            refl,
            get_or-set-set d' 0 _ _ (omega (arith, size'))
                ∙ get_or-set_self chip.dat command _ 0 (omega (arith, v.size, h)),
            get_or-set-set_next d' 0 _ _ (omega (arith, size')),
            refl,
          )
        ])
