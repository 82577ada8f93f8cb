-- ===== src/R82xx/Mux.antt =====
-- r82xx_set_mux() of rtl-sdr/src/tuner_r82xx.c: the tracking filter for a frequency.
pub mod Range
use ebc_sdr_native.Prelude.{
  ℕ, zero, suc, ◌+◌, ◌/◌, ◌≤◌, ◌<◌, ◌≡◌, refl, bit_or, Bool, true, false, List, [], ◌∷◌, arith, ltb,
  if◌then◌else◌, Bool-cases, inl, inr,
}
use ebc_sdr_native.I2c.{I2c, IsChip}
use ebc_sdr_native.R82xx.{
  XtalCap, low_cap_30p, low_cap_20p, low_cap_10p, low_cap_0p, high_cap_0p, Priv, St, Run, Cmd,
  and_then, ◌>>=◌, ◌>>◌,
}
use ebc_sdr_native.R82xx.Tables.{FreqRange, first_range, later_ranges}
use ebc_sdr_native.R82xx.Regs.{write_reg, write_reg_mask, gets}
use ebc_sdr_native.R82xx.Regs.Sound.{
  Sound, gets-Sound, bind, ◌⨟◌, write_reg-Sound, write_reg_mask-Sound,
}

-- the search loop: the entry before the first one that starts above `freq`, or the last one
pub find_range : ℕ → FreqRange → List FreqRange → FreqRange
find_range freq r [] = r
find_range freq r (n ∷ rest) = if ltb freq n.freq then r else find_range freq n rest

-- of a frequency in Hz
pub freq_range : ℕ → FreqRange
unfolding find_range
freq_range freq = find_range (freq / 1000000) first_range later_ranges

-- the switch over priv->xtal_cap_sel
pub xtal_cap : XtalCap → FreqRange → ℕ
xtal_cap low_cap_30p r = bit_or r.xtal_cap20p 0x08
xtal_cap low_cap_20p r = bit_or r.xtal_cap20p 0x08
xtal_cap low_cap_10p r = bit_or r.xtal_cap10p 0x08
xtal_cap high_cap_0p r = bit_or r.xtal_cap0p 0x00
xtal_cap low_cap_0p r = bit_or r.xtal_cap0p 0x08

module _ {i : I2c} where
  pub set_range : FreqRange → Cmd i (Unit {0})
  unfolding xtal_cap
  set_range r = do
    write_reg_mask 0x17 r.open_d 0x08
    write_reg_mask 0x1a r.rf_mux_ploy 0xc3
    write_reg 0x1b r.tf_c
    sel ← gets (λ p. p.xtal_cap_sel)
    write_reg_mask 0x10 (xtal_cap sel r) 0x0b
    write_reg_mask 0x08 0x00 0x3f
    write_reg_mask 0x09 0x00 0x3f

  unfoldable pub set_mux : ℕ → Cmd i (Unit {0})
  unfolding freq_range set_range
  set_mux freq = set_range (freq_range freq)

  set_range-Sound : (c : IsChip i) (r : FreqRange) → Sound c (set_range r)
  unfolding set_range
  set_range-Sound c r =
      write_reg_mask-Sound 0x17 r.open_d 0x08 refl
      ⨟ write_reg_mask-Sound 0x1a r.rf_mux_ploy 0xc3 refl
      ⨟ write_reg-Sound 0x1b r.tf_c refl
      ⨟ bind (gets-Sound (λ p. p.xtal_cap_sel)) λ sel.
        write_reg_mask-Sound 0x10 (xtal_cap sel r) 0x0b refl
        ⨟ write_reg_mask-Sound 0x08 0x00 0x3f refl
        ⨟ write_reg_mask-Sound 0x09 0x00 0x3f refl

  pub set_mux-Sound : (c : IsChip i) (freq : ℕ) → Sound c (set_mux freq)
  unfolding set_mux
  set_mux-Sound c freq = set_range-Sound c (freq_range freq)
