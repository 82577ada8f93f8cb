-- ===== src/E4k/Gains.antt =====
-- The gains of rtl-sdr/src/tuner_e4k.c, and e4000_set_gain(), e4000_set_if_gain() and
-- e4000_set_gain_mode() of rtl-sdr/src/librtlsdr.c.
pub mod Accepted
use ebc_sdr_native.Prelude.{
  ℕ, zero, suc, ◌+◌, ◌-◌, ◌*◌, ◌/◌, ◌%◌, ◌^◌, bit_or, Bool, true, false, Option, none, some, List,
  [], ◌∷◌, ltb, leb, ◌==◌, if◌then◌else◌, get_or,
}
use ebc_sdr_native.Prelude.Int.{ℤ, pos, negsuc, ◌==ℤ◌, ltb_ℤ, ◌-ℤ◌}
use ebc_sdr_native.I2c.{I2c}
use ebc_sdr_native.E4k.Regs.{E4kState, RegField, field_mask, reg_set_mask}

-- -EINVAL
abbrev pub einval : ℤ
einval = negsuc 21

-- lnagain: the gain in tenths of a dB, and the value of the register
abbrev pub lnagain : List (ℤ × ℕ)
lnagain =
    (negsuc 49, 0)
    ∷ (negsuc 24, 1)
    ∷ (pos 0, 4)
    ∷ (pos 25, 5)
    ∷ (pos 50, 6)
    ∷ (pos 75, 7)
    ∷ (pos 100, 8)
    ∷ (pos 125, 9)
    ∷ (pos 150, 10)
    ∷ (pos 175, 11)
    ∷ (pos 200, 12)
    ∷ (pos 250, 13)
    ∷ (pos 300, 14)
    ∷ []

abbrev pub enhgain : List (ℤ × ℕ)
enhgain = (pos 10, 0) ∷ (pos 30, 1) ∷ (pos 50, 2) ∷ (pos 70, 3) ∷ []

-- the first entry for a gain
abbrev pub find_gain : ℤ → List (ℤ × ℕ) → Option ℕ
find_gain gain [] = none
find_gain gain ((g, val) ∷ rest) = if g ==ℤ gain then some val else find_gain gain rest

-- if_stage_gain, in dB
abbrev pub stage_gains : List (List ℤ)
stage_gains =
    []
    ∷ (negsuc 2 ∷ pos 6 ∷ [])
    ∷ (pos 0 ∷ pos 3 ∷ pos 6 ∷ pos 9 ∷ [])
    ∷ (pos 0 ∷ pos 3 ∷ pos 6 ∷ pos 9 ∷ [])
    ∷ (pos 0 ∷ pos 1 ∷ pos 2 ∷ pos 2 ∷ [])
    ∷ (pos 3 ∷ pos 6 ∷ pos 9 ∷ pos 12 ∷ pos 15 ∷ pos 15 ∷ pos 15 ∷ pos 15 ∷ [])
    ∷ (pos 3 ∷ pos 6 ∷ pos 9 ∷ pos 12 ∷ pos 15 ∷ pos 15 ∷ pos 15 ∷ pos 15 ∷ [])
    ∷ []

abbrev field : ℕ → ℕ → ℕ → RegField
field reg shift width = record { reg = reg; shift = shift; width = width }

abbrev pub if_stage_gain_regs : List RegField
if_stage_gain_regs =
    field 0 0 0
    ∷ field 0x16 0 1
    ∷ field 0x16 1 2
    ∷ field 0x16 3 2
    ∷ field 0x16 5 2
    ∷ field 0x17 0 3
    ∷ field 0x17 3 3
    ∷ []

-- the loop of find_stage_gain() from index `i` on
abbrev pub stage_loop : ℤ → ℕ → List ℤ → Option ℕ
stage_loop val i [] = none
stage_loop val i (g ∷ rest) = if g ==ℤ val then some i else stage_loop val (suc i) rest

-- `none` is -EINVAL, which a stage past the table gives as well
unfoldable pub find_stage_gain : ℕ → ℤ → Option ℕ
find_stage_gain stage val = stage_loop val 0 (get_or stage_gains stage [])

-- the gains of the mixer in dB and of the LNA in tenths of a dB that e4000_set_gain() splits one into
abbrev pub mix_gain : ℤ → ℕ
mix_gain gain = if ltb_ℤ (pos 340) gain then 12 else 4

unfoldable pub lna_gain : ℤ → ℤ
unfolding ◌-ℤ◌
lna_gain gain =
    let rest = gain -ℤ pos (mix_gain gain * 10) in if ltb_ℤ (pos 300) rest then pos 300 else rest

module _ {i : I2c} where
  unfoldable pub set_lna_gain : ℤ → E4kState i → ℤ × E4kState i
  unfolding reg_set_mask
  set_lna_gain gain s = elim (find_gain gain lnagain) [
    | none ↦ (einval, s)
    | some val ↦ (gain, (reg_set_mask 0x14 0xf val s).1)
  ]

  unfoldable pub set_enh_gain : ℤ → E4kState i → ℤ × E4kState i
  unfolding reg_set_mask
  set_enh_gain gain s = elim (find_gain gain enhgain) [
    | some n ↦ (gain, (reg_set_mask 0x24 0x7 (bit_or 1 (n * 2)) s).1)
    | none ↦ (if gain ==ℤ pos 0 then pos 0 else einval, (reg_set_mask 0x24 0x7 0 s).1)
  ]

  unfoldable pub enable_manual_gain : Bool → E4kState i → ℤ × E4kState i
  unfolding reg_set_mask
  enable_manual_gain true s = (pos 0, (reg_set_mask 0x20 1 0 (reg_set_mask 0x1a 0xf 0x0 s).1).1)
  enable_manual_gain false s =
      let s1 = (reg_set_mask 0x1a 0xf 0x9 s).1 in
      let s2 = (reg_set_mask 0x20 1 1 s1).1 in (pos 0, (reg_set_mask 0x24 0x7 0 s2).1)

  unfoldable pub if_gain_set : ℕ → ℤ → E4kState i → ℤ × E4kState i
  unfolding find_stage_gain reg_set_mask
  if_gain_set stage value s = elim (find_stage_gain stage value) [
    | none ↦ (einval, s)
    | some n ↦
        let f = get_or if_stage_gain_regs stage (field 0 0 0) in
        reg_set_mask f.reg (field_mask f) (n * 2 ^ f.shift % 256) s
  ]

  unfoldable pub mixer_gain_set : ℤ → E4kState i → ℤ × E4kState i
  unfolding reg_set_mask
  mixer_gain_set value s =
      if value ==ℤ pos 4
      then reg_set_mask 0x15 1 0 s
      else if value ==ℤ pos 12
      then reg_set_mask 0x15 1 1 s
      else (einval, s)

  unfoldable pub commonmode_set : ℤ → E4kState i → ℤ × E4kState i
  unfolding reg_set_mask
  commonmode_set (negsuc n) s = (einval, s)
  commonmode_set (pos n) s = if ltb 7 n then (einval, s) else reg_set_mask 0x2f 7 n s

  -- the mixer's part of e4000_set_gain(), after the LNA's
  unfoldable pub mixer_step : ℤ → ℤ × E4kState i → ℤ × E4kState i
  unfolding mixer_gain_set
  mixer_step mixgain (r, s) = elim (r ==ℤ einval) [
    | true ↦ (negsuc 0, s)
    | false ↦
        let (r2, s2) = mixer_gain_set mixgain s in (if r2 ==ℤ einval then negsuc 0 else pos 0, s2)
  ]

  unfoldable pub e4000_set_gain : ℤ → E4kState i → ℤ × E4kState i
  unfolding set_lna_gain mixer_step lna_gain
  e4000_set_gain gain s = mixer_step (pos (mix_gain gain)) (set_lna_gain (lna_gain gain) s)

-- a byte as an int8_t
abbrev byte_to_int : ℕ → ℤ
byte_to_int n = if ltb n 128 then pos n else negsuc (255 - n)

-- a quotient by 10 towards zero, as an int8_t
abbrev pub tenth : ℤ → ℤ
tenth (pos n) = byte_to_int (n / 10 % 256)
tenth (negsuc n) = byte_to_int ((256 - suc n / 10 % 256) % 256)

module _ {i : I2c} where
  -- e4000_set_if_gain(): the stage is cut to a uint8_t
  unfoldable pub e4000_set_if_gain : ℕ → ℤ → E4kState i → ℤ × E4kState i
  unfolding if_gain_set
  e4000_set_if_gain stage gain s = if_gain_set (stage % 256) (tenth gain) s
