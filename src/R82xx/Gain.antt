-- ===== src/R82xx/Gain.antt =====
-- r82xx_read_gain() and r82xx_set_gain() of rtl-sdr/src/tuner_r82xx.c.
pub mod Steps
use ebc_sdr_native.Prelude.{
  ℕ, zero, suc, ◌+◌, ◌*◌, ◌/◌, ◌%◌, refl, bit_and, Bool, true, false, List, ltb, if◌then◌else◌,
  get_or,
}
use ebc_sdr_native.Prelude.Int.{ℤ, pos, negsuc, ◌+ℤ◌, ltb_ℤ}
use ebc_sdr_native.I2c.{I2c, IsChip}
use ebc_sdr_native.R82xx.{St, Run, Cmd, pure, and_then, ◌>>=◌, ◌>>◌}
use ebc_sdr_native.R82xx.Tables.{lna_gain_steps, mixer_gain_steps}
use ebc_sdr_native.R82xx.Regs.{read, write_reg_mask}
use ebc_sdr_native.R82xx.Regs.Sound.{
  Sound, pure-Sound, if-Sound, bind, ◌⨟◌, read-Sound, write_reg_mask-Sound,
}

-- the two table indices
pub record GainIndex : Type 0 where
  pub lna_index : ℕ
  pub mix_index : ℕ

abbrev pub lna_step : ℕ → ℤ
lna_step n = get_or lna_gain_steps n (pos 0)

abbrev pub mixer_step : ℕ → ℤ
mixer_step n = get_or mixer_gain_steps n (pos 0)

-- the loop `for (i = 0; i < 15; i++)`, with the rounds left; it stops once total_gain >= gain
pub gain_loop : ℤ → ℕ → ℤ → ℕ → ℕ → GainIndex
unfolding ◌+ℤ◌
gain_loop gain zero total lna mix = record { lna_index = lna; mix_index = mix }
gain_loop gain (suc rounds) total lna mix =
    let after_lna = total +ℤ lna_step (lna + 1) in
    let next = gain_loop gain rounds (after_lna +ℤ mixer_step (mix + 1)) (lna + 1) (mix + 1) in
    if ltb_ℤ total gain
    then (if ltb_ℤ after_lna gain then next else record { lna_index = lna + 1; mix_index = mix })
    else record { lna_index = lna; mix_index = mix }

pub gain_index : ℤ → GainIndex
unfolding gain_loop
gain_index gain = gain_loop gain 15 (pos 0) 0 0

module _ {i : I2c} where
  pub read_gain : Cmd i ℕ
  read_gain = do
    bytes ← read 0x00 4
    pure (bit_and (get_or bytes 3 0) 0x0f * 2 + bit_and (get_or bytes 3 0) 0xf0 / 16)

  pub manual_gain : ℤ → Cmd i (Unit {0})
  unfolding gain_index
  manual_gain gain = do
    write_reg_mask 0x05 0x10 0x10
    write_reg_mask 0x07 0 0x10
    _ ← read 0x00 4
    write_reg_mask 0x0c 0x08 0x9f
    write_reg_mask 0x05 (gain_index gain).lna_index 0x0f
    write_reg_mask 0x07 (gain_index gain).mix_index 0x0f

  pub auto_gain : Cmd i (Unit {0})
  auto_gain = do
    write_reg_mask 0x05 0 0x10
    write_reg_mask 0x07 0x10 0x10
    write_reg_mask 0x0c 0x0b 0x9f

  pub set_gain : Bool → ℤ → Cmd i (Unit {0})
  unfolding manual_gain auto_gain
  set_gain set_manual_gain gain = if set_manual_gain then manual_gain gain else auto_gain

  -- r82xx_set_gain() returns from every state in sync: in sync, or with a negative code.
  pub set_gain-Sound : (c : IsChip i) (manual : Bool) (gain : ℤ) → Sound c (set_gain manual gain)
  unfolding set_gain
  set_gain-Sound c manual gain =
      if-Sound manual
        (write_reg_mask-Sound 0x05 0x10 0x10 refl
          ⨟ write_reg_mask-Sound 0x07 0 0x10 refl
          ⨟ bind (read-Sound 0x00 4) λ _.
            write_reg_mask-Sound 0x0c 0x08 0x9f refl
            ⨟ write_reg_mask-Sound 0x05 (gain_index gain).lna_index 0x0f refl
            ⨟ write_reg_mask-Sound 0x07 (gain_index gain).mix_index 0x0f refl)
        (write_reg_mask-Sound 0x05 0 0x10 refl
          ⨟ write_reg_mask-Sound 0x07 0x10 0x10 refl
          ⨟ write_reg_mask-Sound 0x0c 0x0b 0x9f refl)
