-- ===== src/E4k/Regs.antt =====
-- The register access of rtl-sdr/src/tuner_e4k.c, over the I2C calls of rtl-sdr/src/librtlsdr.c.
pub mod Masked
use ebc_sdr_native.Prelude.{
  ℕ, suc, ◌+◌, ◌-◌, ◌*◌, ◌/◌, ◌%◌, ◌^◌, bit_and, bit_or, Bool, true, false, List, [], ◌∷◌, ◌==◌,
  if◌then◌else◌, get_or,
}
use ebc_sdr_native.Prelude.Int.{ℤ, pos, negsuc, is_neg, ◌==ℤ◌, ltb_ℤ}
use ebc_sdr_native.I2c.{I2c}
use ebc_sdr_native.E4k.{Band, PllParams}

-- struct e4k_state, with the bus behind its rtl_dev
pub record E4kState (i : I2c) : Type 0 where
  pub bus : i.Bus
  pub i2c_addr : ℕ
  pub band : Band
  pub vco : PllParams

-- struct reg_field
pub record RegField : Type 0 where
  pub reg : ℕ
  pub shift : ℕ
  pub width : ℕ

abbrev pub width2mask : List ℕ
width2mask = 0 ∷ 1 ∷ 3 ∷ 7 ∷ 0xf ∷ 0x1f ∷ 0x3f ∷ 0x7f ∷ 0xff ∷ []

-- an int stored into a uint8_t
abbrev pub to_u8 : ℤ → ℕ
to_u8 (pos n) = n % 256
to_u8 (negsuc n) = 255 - n % 256

-- (tmp & ~mask) | (val & mask)
abbrev pub merge : ℕ → ℕ → ℕ → ℕ
merge tmp mask val = bit_or (bit_and tmp (255 - mask)) (bit_and val mask)

abbrev pub field_mask : RegField → ℕ
field_mask f = get_or width2mask f.width 0 * 2 ^ f.shift % 256

abbrev pub field_of : RegField → ℤ → ℤ
field_of field (negsuc n) = negsuc n
field_of field (pos n) = pos (bit_and (n / 2 ^ field.shift) (get_or width2mask field.width 0))

module _ {i : I2c} where
  unfoldable pub reg_write : ℕ → ℕ → E4kState i → ℤ × E4kState i
  reg_write reg val s =
      let (r, b) = i.write s.bus s.i2c_addr (reg ∷ val ∷ []) in
      (if r ==ℤ pos 2 then pos 0 else negsuc 0, record s { bus = b })

  -- `data` holds the register's number until a byte is received
  unfoldable pub reg_read : ℕ → E4kState i → ℤ × E4kState i
  reg_read reg s =
      let (r, b) = i.write s.bus s.i2c_addr (reg ∷ []) in
      elim (ltb_ℤ r (pos 1)) [
        | true ↦ (negsuc 0, record s { bus = b })
        | false ↦
            let (r2, got, b2) = i.read b s.i2c_addr 1 in
            (if ltb_ℤ r2 (pos 1) then negsuc 0 else pos (get_or got 0 reg), record s { bus = b2 })
      ]

  -- the rest of e4k_reg_set_mask() after its read, whose failure is taken for 0xff
  unfoldable pub mask_step : ℕ → ℕ → ℕ → ℕ → E4kState i → ℤ × E4kState i
  unfolding reg_write
  mask_step reg mask val tmp s = elim (bit_and tmp mask == val) [
    | true ↦ (pos 0, s)
    | false ↦ reg_write reg (merge tmp mask val) s
  ]

  unfoldable pub reg_set_mask : ℕ → ℕ → ℕ → E4kState i → ℤ × E4kState i
  unfolding reg_read mask_step
  reg_set_mask reg mask val s = let (r, s1) = reg_read reg s in mask_step reg mask val (to_u8 r) s1

  -- the rest of e4k_field_write() after its read
  unfoldable pub field_step : RegField → ℕ → ℤ × E4kState i → ℤ × E4kState i
  unfolding reg_set_mask
  field_step field val (negsuc n, s) = (negsuc n, s)
  field_step field val (pos _, s) =
      reg_set_mask field.reg (field_mask field) (val * 2 ^ field.shift % 256) s

  unfoldable pub field_write : RegField → ℕ → E4kState i → ℤ × E4kState i
  unfolding reg_read field_step
  field_write field val s = field_step field val (reg_read field.reg s)

  unfoldable pub field_read : RegField → E4kState i → ℤ × E4kState i
  unfolding reg_read
  field_read field s = let (r, s1) = reg_read field.reg s in (field_of field r, s1)
