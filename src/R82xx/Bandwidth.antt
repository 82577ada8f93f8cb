-- ===== src/R82xx/Bandwidth.antt =====
-- r82xx_set_bandwidth() of rtl-sdr/src/tuner_r82xx.c: the filters for a bandwidth, and the
-- intermediate frequency that goes with them.
pub mod Filter
use ebc_sdr_native.Prelude.{
  ℕ, zero, suc, ◌+◌, ◌-◌, ◌/◌, ◌%◌, ◌^◌, refl, bit_or, Bool, true, false, List, [], ◌∷◌, ltb,
  if◌then◌else◌, get_or,
}
use ebc_sdr_native.Prelude.Int.{ℤ, pos, negsuc, ◌-ℤ◌, ltb_ℤ}
use ebc_sdr_native.I2c.{I2c, IsChip}
use ebc_sdr_native.R82xx.{Priv, St, Run, Cmd, pure, and_then, ◌>>=◌, ◌>>◌}
use ebc_sdr_native.R82xx.Tables.{if_low_pass_bw_table}
use ebc_sdr_native.R82xx.Regs.{modify, write_reg_mask}
use ebc_sdr_native.R82xx.Regs.Sound.{
  Sound, pure-Sound, modify-Sound, bind, ◌⨟◌, write_reg_mask-Sound,
}

abbrev pub filt_hp_bw1 : ℕ
filt_hp_bw1 = 350000

abbrev pub filt_hp_bw2 : ℕ
filt_hp_bw2 = 380000

-- `reg_0b` before the low-pass bits; the bandwidth that is left, and what the high-pass parts added
pub record Filters : Type 0 where
  pub reg_0a : ℕ
  pub reg_0b : ℕ
  pub if_freq : ℕ

-- the loop over the low-pass table: the first index whose entry is below `bw`, or the table's length
pub low_pass_loop : ℤ → List ℕ → ℕ
low_pass_loop bw [] = 0
low_pass_loop bw (b ∷ rest) = if ltb_ℤ (pos b) bw then 0 else low_pass_loop bw rest + 1

-- `--i` on an unsigned int
pub low_pass_index : ℤ → ℕ
unfolding low_pass_loop
low_pass_index bw = (low_pass_loop bw if_low_pass_bw_table + 2 ^ 32 - 1) % 2 ^ 32

-- the low-pass filter, from what the high-pass part left: `bw`, `if_freq`, `real_bw` and `reg_0b`
pub low_pass : ℤ → ℕ → ℕ → ℕ → Filters
unfolding low_pass_index
low_pass bw if_freq real_bw reg_0b =
    let i = low_pass_index bw in
    let real = real_bw + get_or if_low_pass_bw_table i 0 in
    record { reg_0a = 0x00; reg_0b = bit_or reg_0b (15 - i); if_freq = if_freq - real / 2 }

-- the second high-pass test
pub high_pass1 : ℤ → ℕ → ℕ → ℕ → Filters
unfolding low_pass ◌-ℤ◌
high_pass1 bw if_freq real_bw reg_0b =
    if ltb_ℤ (pos 1700000) bw
    then low_pass (bw -ℤ pos filt_hp_bw1) (if_freq + filt_hp_bw1) (real_bw + filt_hp_bw1) reg_0b
    else low_pass bw if_freq real_bw (bit_or reg_0b 0x40)

-- the first high-pass test
pub high_pass2 : ℤ → ℕ → ℕ → ℕ → Filters
unfolding high_pass1 ◌-ℤ◌
high_pass2 bw if_freq real_bw reg_0b =
    if ltb_ℤ (pos (1700000 + filt_hp_bw1)) bw
    then high_pass1 (bw -ℤ pos filt_hp_bw2) (if_freq + filt_hp_bw2) (real_bw + filt_hp_bw2) reg_0b
    else high_pass1 bw if_freq real_bw (bit_or reg_0b 0x20)

pub filters : ℤ → Filters
unfolding high_pass2
filters bw =
    if ltb_ℤ (pos 7000000) bw
    then record { reg_0a = 0x10; reg_0b = 0x0b; if_freq = 4570000 }
    else if ltb_ℤ (pos 6000000) bw
    then record { reg_0a = 0x10; reg_0b = 0x2a; if_freq = 4570000 }
    else if ltb_ℤ (pos (1700000 + filt_hp_bw1 + filt_hp_bw2)) bw
    then record { reg_0a = 0x10; reg_0b = 0x6b; if_freq = 3570000 }
    else high_pass2 bw 2300000 0 0x80

module _ {i : I2c} where
  -- returns priv->int_freq
  pub set_bandwidth : ℤ → Cmd i ℕ
  unfolding filters
  set_bandwidth bw = do
    modify (λ p. record p { int_freq = (filters bw).if_freq })
    write_reg_mask 0x0a (filters bw).reg_0a 0x10
    write_reg_mask 0x0b (filters bw).reg_0b 0xef
    pure (filters bw).if_freq

  -- r82xx_set_bandwidth() returns from every state in sync: in sync, or with a negative code.
  pub set_bandwidth-Sound : (c : IsChip i) (bw : ℤ) → Sound c (set_bandwidth bw)
  unfolding set_bandwidth
  set_bandwidth-Sound c bw =
      modify-Sound (λ p. record p { int_freq = (filters bw).if_freq }) (λ p. refl) (λ p. refl)
      ⨟ write_reg_mask-Sound 0x0a (filters bw).reg_0a 0x10 refl
      ⨟ write_reg_mask-Sound 0x0b (filters bw).reg_0b 0xef refl
      ⨟ pure-Sound (filters bw).if_freq
