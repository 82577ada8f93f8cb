-- ===== src/Fitipower/Fc0013.antt =====
-- rtl-sdr/src/tuner_fc0013.c.
pub mod Range
pub mod Tunes
use ebc_sdr_native.Prelude.{
  ℕ, suc, ◌+◌, ◌-◌, ◌*◌, ◌/◌, ◌%◌, bit_and, bit_or, Bool, true, false, Option, none, some, List, [],
  ◌∷◌, ltb, leb, ◌==◌, if◌then◌else◌, get_or,
}
use ebc_sdr_native.Prelude.Int.{ℤ, pos, negsuc, ltb_ℤ, is_neg, ◌+ℤ◌, pos_part}
use ebc_sdr_native.I2c.{I2c}
use ebc_sdr_native.Fitipower.{
  Cmd, pure, ◌>>=◌, ◌>>◌, writereg, readreg, write_regs, Divider, settings, or_fail, calibrate,
}
use ebc_sdr_native.Fitipower.Fc0012.{by, value_or}

-- reg[1] to reg[21] of fc0013_init(), with the bits that it sets last
abbrev pub init_regs : List ℕ
init_regs =
    0x09 ∷ 0x16 ∷ 0x00 ∷ 0x00 ∷ 0x17 ∷ 0x02 ∷ 0x2a ∷ 0xff ∷ 0x6e ∷ 0xb8 ∷ 0x82 ∷ 0xfe ∷ 0x01 ∷ 0x00
    ∷ 0x00 ∷ 0x00 ∷ 0x00 ∷ 0x00 ∷ 0x00 ∷ 0x50 ∷ 0x01 ∷ []

unfoldable pub divider : ℕ → Divider
divider freq =
    if ltb freq 37084000
    then by 96 0x82 0x00
    else if ltb freq 55625000
    then by 64 0x02 0x02
    else if ltb freq 74167000
    then by 48 0x42 0x00
    else if ltb freq 111250000
    then by 32 0x82 0x02
    else if ltb freq 148334000
    then by 24 0x22 0x00
    else if ltb freq 222500000
    then by 16 0x42 0x02
    else if ltb freq 296667000
    then by 12 0x12 0x00
    else if ltb freq 445000000
    then by 8 0x22 0x02
    else if ltb freq 593334000
    then by 6 0x0a 0x00
    else if ltb freq 950000000
    then by 4 0x12 0x02
    else by 2 0x0a 0x02

-- the bits of register 0x1d for a frequency
abbrev pub vhf_track : ℕ → ℕ
vhf_track freq =
    if leb freq 177500000
    then 0x1c
    else if leb freq 184500000
    then 0x18
    else if leb freq 191500000
    then 0x14
    else if leb freq 198500000
    then 0x10
    else if leb freq 205500000
    then 0x0c
    else if leb freq 219500000
    then 0x08
    else if ltb freq 300000000
    then 0x04
    else 0x1c

-- fc0013_lna_gains: the gain in tenths of a dB, and the bits of register 0x14
abbrev pub lna_gains : List (ℤ × ℕ)
lna_gains =
    (negsuc 98, 0x02)
    ∷ (negsuc 72, 0x03)
    ∷ (negsuc 64, 0x05)
    ∷ (negsuc 62, 0x04)
    ∷ (negsuc 62, 0x00)
    ∷ (negsuc 59, 0x07)
    ∷ (negsuc 57, 0x01)
    ∷ (negsuc 53, 0x06)
    ∷ (pos 58, 0x0f)
    ∷ (pos 61, 0x0e)
    ∷ (pos 63, 0x0d)
    ∷ (pos 65, 0x0c)
    ∷ (pos 67, 0x0b)
    ∷ (pos 68, 0x0a)
    ∷ (pos 70, 0x09)
    ∷ (pos 71, 0x08)
    ∷ (pos 179, 0x17)
    ∷ (pos 181, 0x16)
    ∷ (pos 182, 0x15)
    ∷ (pos 184, 0x14)
    ∷ (pos 186, 0x13)
    ∷ (pos 188, 0x12)
    ∷ (pos 191, 0x11)
    ∷ (pos 197, 0x10)
    ∷ []

-- the loop of fc0013_set_lna_gain(): the first entry that reaches the gain, else the last
unfoldable pub lna_bits : ℤ → List (ℤ × ℕ) → ℕ
lna_bits gain [] = 0
lna_bits gain ((g, bits) ∷ []) = bits
lna_bits gain ((g, bits) ∷ (x ∷ rest)) = if ltb_ℤ g gain then lna_bits gain (x ∷ rest) else bits

-- rc_cal + rc_val within a nibble
abbrev pub rc_cal_value : ℤ → ℕ
rc_cal_value val = if ltb_ℤ (pos 15) val then 15 else pos_part val

-- the code of calls whose codes are joined by `|`
abbrev pub both : {A B : Type 0} → Option A → Option B → Option (Unit {0})
both (some a) (some b) = some tt
both _ _ = none

module _ (i : I2c) where
  unfoldable pub init : Cmd i.Bus (Unit {0})
  unfolding write_regs
  init = write_regs i 1 init_regs

  unfoldable pub rc_cal_add : ℤ → Cmd i.Bus (Unit {0})
  unfolding readreg writereg ◌+ℤ◌
  rc_cal_add rc_val = do
    writereg i 0x10 0x00
    rc_cal ← readreg i 0x10
    writereg i 0x0d 0x11
    writereg i 0x10 (rc_cal_value (pos (bit_and rc_cal 0x0f) +ℤ rc_val))

  unfoldable pub rc_cal_reset : Cmd i.Bus (Unit {0})
  unfolding writereg
  rc_cal_reset = do writereg i 0x0d 0x01; writereg i 0x10 0x00

  unfoldable pub set_vhf_track : ℕ → Cmd i.Bus (Unit {0})
  unfolding readreg writereg
  set_vhf_track freq = do
    tmp ← readreg i 0x1d
    writereg i 0x1d (bit_or (bit_and tmp 0xe3) (vhf_track freq))

  -- the VHF filter, and UHF; up to 862 MHz and above it alike
  unfoldable pub set_filters : ℕ → Cmd i.Bus (Unit {0})
  unfolding readreg writereg
  set_filters freq = do
    filter ← readreg i 0x07
    writereg i 0x07 (if ltb freq 300000000 then bit_or filter 0x10 else bit_and filter 0xef)
    path ← readreg i 0x14
    writereg i 0x14
        (if ltb freq 300000000 then bit_and path 0x1f else bit_or (bit_and path 0x1f) 0x40)

  -- the bit of register 0x11 for the divider by 64
  unfoldable pub set_divider_64 : ℕ → Cmd i.Bus (Unit {0})
  unfolding readreg writereg
  set_divider_64 multi = do
    tmp ← readreg i 0x11
    writereg i 0x11 (if multi == 64 then bit_or tmp 0x04 else bit_and tmp 0xfb)

  unfoldable pub set_params : (clock freq bandwidth : ℕ) → Cmd i.Bus (Unit {0})
  unfolding set_vhf_track set_filters divider settings write_regs set_divider_64 calibrate
  set_params clock freq bandwidth = do
    set_vhf_track freq
    set_filters freq
    s ← or_fail (settings (divider freq) freq clock bandwidth)
    write_regs i 1 s.regs
    set_divider_64 (divider freq).multi
    calibrate i s

  -- a failed read leaves 0, and all three calls are made
  unfoldable pub set_gain_mode : Bool → Cmd i.Bus (Unit {0})
  unfolding readreg writereg
  set_gain_mode manual b =
      let (got, b1) = readreg i 0x0d b in
      let tmp = value_or 0 got in
      let (r2, b2) = writereg i 0x0d (if manual then bit_or tmp 0x08 else bit_and tmp 0xf7) b1 in
      let (r3, b3) = writereg i 0x13 0x0a b2 in (both (both got r2) r3, b3)

  unfoldable pub set_lna_gain : ℤ → Cmd i.Bus (Unit {0})
  unfolding readreg writereg lna_bits
  set_lna_gain gain b =
      let (got, b1) = readreg i 0x14 b in
      let (r, b2) =
        writereg i 0x14 (bit_or (bit_and (value_or 0 got) 0xe0) (lna_bits gain lna_gains)) b1 in
      (both got r, b2)
