-- ===== src/Fitipower/Fc0012.antt =====
-- rtl-sdr/src/tuner_fc0012.c, and what rtl-sdr/src/librtlsdr.c makes of it for the tuner interface.
pub mod Range
pub mod Tunes
use ebc_sdr_native.Prelude.{
  ℕ, suc, ◌+◌, ◌-◌, ◌*◌, ◌/◌, ◌%◌, bit_and, bit_or, Bool, true, false, Option, none, some, List, [],
  ◌∷◌, ltb, if◌then◌else◌, get_or,
}
use ebc_sdr_native.Prelude.Int.{ℤ, pos, negsuc, ltb_ℤ}
use ebc_sdr_native.I2c.{I2c}
use ebc_sdr_native.Fitipower.{
  Cmd, pure, ◌>>=◌, ◌>>◌, writereg, readreg, write_regs, Divider, settings, or_fail, calibrate,
  code_of,
}

-- reg[1] to reg[21] of fc0012_init(), with the bits that it sets last
abbrev pub init_regs : List ℕ
init_regs =
    0x05 ∷ 0x10 ∷ 0x00 ∷ 0x00 ∷ 0x0f ∷ 0x00 ∷ 0x20 ∷ 0xff ∷ 0x6e ∷ 0xb8 ∷ 0x82 ∷ 0xfe ∷ 0x02 ∷ 0x00
    ∷ 0x00 ∷ 0x00 ∷ 0x00 ∷ 0x1f ∷ 0x00 ∷ 0x00 ∷ 0x04 ∷ []

abbrev pub by : ℕ → ℕ → ℕ → Divider
by multi reg5 reg6 = record { multi = multi; reg5 = reg5; reg6 = reg6 }

unfoldable pub divider : ℕ → Divider
divider freq =
    if ltb freq 37084000
    then by 96 0x82 0x00
    else if ltb freq 55625000
    then by 64 0x82 0x02
    else if ltb freq 74167000
    then by 48 0x42 0x00
    else if ltb freq 111250000
    then by 32 0x42 0x02
    else if ltb freq 148334000
    then by 24 0x22 0x00
    else if ltb freq 222500000
    then by 16 0x22 0x02
    else if ltb freq 296667000
    then by 12 0x12 0x00
    else if ltb freq 445000000
    then by 8 0x12 0x02
    else if ltb freq 593334000
    then by 6 0x0a 0x00
    else by 4 0x0a 0x02

-- the bits of register 0x13 for a gain
abbrev pub gain_bits : ℤ → ℕ
gain_bits gain =
    if ltb_ℤ gain (negsuc 39)
    then 0x02
    else if ltb_ℤ gain (pos 71)
    then 0x00
    else if ltb_ℤ gain (pos 179)
    then 0x08
    else if ltb_ℤ gain (pos 192)
    then 0x17
    else 0x10

abbrev pub value_or : ℕ → Option ℕ → ℕ
value_or old none = old
value_or old (some val) = val

module _ (i : I2c) where
  unfoldable pub init : Cmd i.Bus (Unit {0})
  unfolding write_regs
  init = write_regs i 1 init_regs

  -- `clock` is rtlsdr_get_tuner_clock()
  unfoldable pub set_params : (clock freq bandwidth : ℕ) → Cmd i.Bus (Unit {0})
  unfolding divider settings write_regs calibrate
  set_params clock freq bandwidth = do
    s ← or_fail (settings (divider freq) freq clock bandwidth)
    write_regs i 1 s.regs
    calibrate i s

  -- a failed read leaves 0, and its code is lost
  unfoldable pub set_gain : ℤ → Cmd i.Bus (Unit {0})
  unfolding readreg writereg
  set_gain gain b =
      let (got, b') = readreg i 0x13 b in
      writereg i 0x13 (bit_or (bit_and (value_or 0 got) 0xe0) (gain_bits gain)) b'
