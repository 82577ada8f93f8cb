-- ===== src/R82xx/Tables.antt =====
-- The constant tables of rtl-sdr/src/tuner_r82xx.c.
use ebc_sdr_native.Prelude.{ℕ, List, [], ◌∷◌}
use ebc_sdr_native.Prelude.Int.{ℤ, pos, negsuc}
use ebc_sdr_native.R82xx.{XtalCap, low_cap_30p, low_cap_20p, low_cap_10p, low_cap_0p, high_cap_0p}

-- from register 0x05 on; the array has NUM_REGS = 30 entries, and C fills the last three with zero
abbrev pub r82xx_init_array : List ℕ
r82xx_init_array =
    0x83 ∷ 0x32 ∷ 0x75 ∷ 0xc0 ∷ 0x40 ∷ 0xd6 ∷ 0x6c ∷ 0xf5 ∷ 0x63 ∷ 0x75 ∷ 0x68 ∷ 0x6c ∷ 0x83 ∷ 0x80
    ∷ 0x00 ∷ 0x0f ∷ 0x00 ∷ 0xc0 ∷ 0x30 ∷ 0x48 ∷ 0xcc ∷ 0x60 ∷ 0x00 ∷ 0x54 ∷ 0xae ∷ 0x4a ∷ 0xc0
    ∷ 0x00 ∷ 0x00 ∷ 0x00 ∷ []

-- struct r82xx_freq_range
pub record FreqRange : Type 0 where
  pub freq : ℕ
  pub open_d : ℕ
  pub rf_mux_ploy : ℕ
  pub tf_c : ℕ
  pub xtal_cap20p : ℕ
  pub xtal_cap10p : ℕ
  pub xtal_cap0p : ℕ

abbrev range_of : ℕ → ℕ → ℕ → ℕ → ℕ → ℕ → ℕ → FreqRange
range_of f od mux tf c20 c10 c0 = record {
  freq = f;
  open_d = od;
  rf_mux_ploy = mux;
  tf_c = tf;
  xtal_cap20p = c20;
  xtal_cap10p = c10;
  xtal_cap0p = c0;
}

-- the first of freq_ranges, and the others
abbrev pub first_range : FreqRange
first_range = range_of 0 0x08 0x02 0xdf 0x02 0x01 0x00

abbrev pub later_ranges : List FreqRange
later_ranges =
    range_of 50 0x08 0x02 0xbe 0x02 0x01 0x00
    ∷ range_of 55 0x08 0x02 0x8b 0x02 0x01 0x00
    ∷ range_of 60 0x08 0x02 0x7b 0x02 0x01 0x00
    ∷ range_of 65 0x08 0x02 0x69 0x02 0x01 0x00
    ∷ range_of 70 0x08 0x02 0x58 0x02 0x01 0x00
    ∷ range_of 75 0x00 0x02 0x44 0x02 0x01 0x00
    ∷ range_of 80 0x00 0x02 0x44 0x02 0x01 0x00
    ∷ range_of 90 0x00 0x02 0x34 0x01 0x01 0x00
    ∷ range_of 100 0x00 0x02 0x34 0x01 0x01 0x00
    ∷ range_of 110 0x00 0x02 0x24 0x01 0x01 0x00
    ∷ range_of 120 0x00 0x02 0x24 0x01 0x01 0x00
    ∷ range_of 140 0x00 0x02 0x14 0x01 0x01 0x00
    ∷ range_of 180 0x00 0x02 0x13 0x00 0x00 0x00
    ∷ range_of 220 0x00 0x02 0x13 0x00 0x00 0x00
    ∷ range_of 250 0x00 0x02 0x11 0x00 0x00 0x00
    ∷ range_of 280 0x00 0x02 0x00 0x00 0x00 0x00
    ∷ range_of 310 0x00 0x41 0x00 0x00 0x00 0x00
    ∷ range_of 450 0x00 0x41 0x00 0x00 0x00 0x00
    ∷ range_of 588 0x00 0x40 0x00 0x00 0x00 0x00
    ∷ range_of 650 0x00 0x40 0x00 0x00 0x00 0x00
    ∷ []

-- r82xx_xtal_capacitor
abbrev pub xtal_capacitor : List (ℕ × XtalCap)
xtal_capacitor =
    (0x0b, low_cap_30p)
    ∷ (0x02, low_cap_20p)
    ∷ (0x01, low_cap_10p)
    ∷ (0x00, low_cap_0p)
    ∷ (0x10, high_cap_0p)
    ∷ []

-- r82xx_lna_gain_steps
abbrev pub lna_gain_steps : List ℤ
lna_gain_steps =
    pos 0
    ∷ pos 9
    ∷ pos 13
    ∷ pos 40
    ∷ pos 38
    ∷ pos 13
    ∷ pos 31
    ∷ pos 22
    ∷ pos 26
    ∷ pos 31
    ∷ pos 26
    ∷ pos 14
    ∷ pos 19
    ∷ pos 5
    ∷ pos 35
    ∷ pos 13
    ∷ []

-- r82xx_mixer_gain_steps; the last step is -8
abbrev pub mixer_gain_steps : List ℤ
mixer_gain_steps =
    pos 0
    ∷ pos 5
    ∷ pos 10
    ∷ pos 10
    ∷ pos 19
    ∷ pos 9
    ∷ pos 10
    ∷ pos 25
    ∷ pos 17
    ∷ pos 10
    ∷ pos 8
    ∷ pos 16
    ∷ pos 13
    ∷ pos 6
    ∷ pos 3
    ∷ negsuc 7
    ∷ []

-- r82xx_if_low_pass_bw_table
abbrev pub if_low_pass_bw_table : List ℕ
if_low_pass_bw_table =
    1700000 ∷ 1600000 ∷ 1550000 ∷ 1450000 ∷ 1200000 ∷ 900000 ∷ 700000 ∷ 550000 ∷ 450000 ∷ 350000
    ∷ []
