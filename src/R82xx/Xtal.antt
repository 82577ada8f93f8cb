-- ===== src/R82xx/Xtal.antt =====
-- r82xx_xtal_check() of rtl-sdr/src/tuner_r82xx.c, which looks for the capacitor of the crystal.
use ebc_sdr_native.Prelude.{
  ℕ, Bool, true, false, not, ◌&&◌, ◌||◌, List, [], ◌∷◌, ltb, ◌==◌, get_or, bit_and,
}
use ebc_sdr_native.Prelude.Int.{negsuc}
use ebc_sdr_native.I2c.{I2c}
use ebc_sdr_native.R82xx.{XtalCap, Priv, Cmd, err, pure, ◌>>=◌, ◌>>◌}
use ebc_sdr_native.R82xx.Tables.{r82xx_init_array, xtal_capacitor}
use ebc_sdr_native.R82xx.Regs.{overwrite, read, write_reg_mask, gets, modify}

-- data[2] has a lock, and its value ends the search
unfoldable pub is_locked : ℕ → ℕ → Bool
is_locked xtal data2 =
    let val = bit_and data2 0x3f in
    not (bit_and data2 0x40 == 0)
    && ((xtal == 16000000 && (ltb 29 val || ltb val 23)) || not (val == 0x3f))

-- the shadow gets its initial values; the chip is not written
abbrev pub preset_shadow : Priv → Priv
preset_shadow p = record p { regs = overwrite p.regs 0 r82xx_init_array }

module _ {i : I2c} where
  -- the loop over the capacitors that are left; none that fits is -1
  unfoldable pub try_capacitors : List (ℕ × XtalCap) → Cmd i XtalCap
  unfolding read is_locked
  try_capacitors [] = err (negsuc 0)
  try_capacitors ((drive, cap) ∷ rest) = do
    write_reg_mask 0x10 drive 0x1b
    bytes ← read 0 3
    xtal ← gets (λ p. p.cfg.xtal)
    elim (is_locked xtal (get_or bytes 2 0)) [ true ↦ pure cap | false ↦ try_capacitors rest ]

  unfoldable pub xtal_check : Cmd i XtalCap
  unfolding try_capacitors
  xtal_check = do
    modify preset_shadow
    write_reg_mask 0x10 0x0b 0x0b
    write_reg_mask 0x1a 0x00 0x0c
    write_reg_mask 0x13 0x7f 0x7f
    write_reg_mask 0x13 0x00 0x40
    try_capacitors xtal_capacitor
