-- ===== src/E4k/Setup.antt =====
-- The DC offset, standby and initialisation of rtl-sdr/src/tuner_e4k.c.
use ebc_sdr_native.Prelude.{
  ℕ, ◌+◌, ◌*◌, ◌/◌, ◌%◌, bit_or, Bool, true, false, ◌||◌, List, [], ◌∷◌, ltb, if◌then◌else◌,
}
use ebc_sdr_native.Prelude.Int.{ℤ, pos, negsuc, is_neg, pos_part}
use ebc_sdr_native.I2c.{I2c}
use ebc_sdr_native.E4k.Regs.{E4kState, reg_write, reg_read, reg_set_mask, to_u8}
use ebc_sdr_native.E4k.Filters.{IfFilter, if_filter_bw_set, if_filter_chan_enable}
use ebc_sdr_native.E4k.Gains.{einval, if_gain_set, mixer_gain_set, enable_manual_gain}

-- outside 0 .. `top`
abbrev outside : ℕ → ℤ → Bool
outside top v = is_neg v || ltb top (pos_part v)

-- struct gain_comb
pub record GainComb : Type 0 where
  pub mixer_gain : ℤ
  pub if1_gain : ℤ
  pub reg : ℕ

abbrev comb : ℤ → ℤ → ℕ → GainComb
comb mixer if1 reg = record { mixer_gain = mixer; if1_gain = if1; reg = reg }

abbrev pub dc_gain_comb : List GainComb
dc_gain_comb =
    comb (pos 4) (negsuc 2) 0x50
    ∷ comb (pos 4) (pos 6) 0x51
    ∷ comb (pos 12) (negsuc 2) 0x52
    ∷ comb (pos 12) (pos 6) 0x53
    ∷ []

-- TO_LUT, cut to a uint8_t
abbrev pub to_lut : ℕ → ℕ → ℕ
to_lut offset range = bit_or offset (range * 64) % 256

module _ {i : I2c} where
  -- calls whose codes are ignored, one after the other
  abbrev each : {A : Type 0} → (A → E4kState i → ℤ × E4kState i) → List A → E4kState i → E4kState i
  each f [] s = s
  each f (x ∷ xs) s = each f xs (f x s).1

  abbrev and_if_ok : ℤ × E4kState i → (E4kState i → ℤ × E4kState i) → ℤ × E4kState i
  and_if_ok (r, s) f = elim (is_neg r) [ true ↦ (r, s) | false ↦ f s ]

  unfoldable pub manual_dc_offset : ℤ → ℤ → ℤ → ℤ → E4kState i → ℤ × E4kState i
  unfolding reg_set_mask
  manual_dc_offset iofs irange qofs qrange s =
      elim (outside 0x3f iofs || outside 3 irange || outside 0x3f qofs || outside 3 qrange) [
        | true ↦ (einval, s)
        | false ↦
            and_if_ok
              (and_if_ok (reg_set_mask 0x2a 0x3f (pos_part iofs) s)
                (reg_set_mask 0x2b 0x3f (pos_part qofs)))
              (reg_set_mask 0x2c 0x33 (bit_or (pos_part qrange * 16) (pos_part irange)))
      ]

  unfoldable pub dc_offset_calibrate : E4kState i → ℤ × E4kState i
  unfolding reg_set_mask reg_write
  dc_offset_calibrate s = reg_write 0x29 0x01 (reg_set_mask 0x2d 4 4 s).1

  -- one round of the loop over the combinations of gains
  unfoldable pub calibrate_comb : GainComb → E4kState i → ℤ × E4kState i
  unfolding mixer_gain_set if_gain_set dc_offset_calibrate reg_read reg_write
  calibrate_comb g s =
      let s1 = (if_gain_set 1 g.if1_gain (mixer_gain_set g.mixer_gain s).1).1 in
      let (i2, s2) = reg_read 0x2a (dc_offset_calibrate s1).1 in
      let (q2, s3) = reg_read 0x2b s2 in
      let (r2, s4) = reg_read 0x2c s3 in
      let range_i = to_u8 r2 % 4 in
      let range_q = to_u8 r2 / 16 % 4 in
      let s5 = (reg_write g.reg (to_lut (to_u8 q2 % 64) range_q) s4).1 in
      reg_write (g.reg + 0x10) (to_lut (to_u8 i2 % 64) range_i) s5

  -- the gains of the stages 2 to 6 are set to their maximum
  unfoldable pub dc_offset_gen_table : E4kState i → ℤ × E4kState i
  unfolding reg_set_mask if_gain_set calibrate_comb
  dc_offset_gen_table s =
      let s1 = (reg_set_mask 0x1a 0xf 0x0 (reg_set_mask 0x20 1 0 s).1).1 in
      let s2 =
        each (λ (g : ℕ × ℕ). if_gain_set g.0 (pos g.1))
          ((2, 9) ∷ (3, 9) ∷ (4, 2) ∷ (5, 15) ∷ (6, 15) ∷ []) s1 in
      (pos 0, each calibrate_comb dc_gain_comb s2)

  unfoldable pub e4k_standby : Bool → E4kState i → ℤ × E4kState i
  unfolding reg_set_mask
  e4k_standby enable s = (pos 0, (reg_set_mask 0x00 0x02 (if enable then 0 else 0x02) s).1)

-- reset, clock input and output
abbrev power_on : List (ℕ × ℕ)
power_on = (0x00, 0x07) ∷ (0x05, 0x00) ∷ (0x06, 0x00) ∷ (0x7a, 0x96) ∷ []

abbrev magic : List (ℕ × ℕ)
magic =
    (0x7e, 0x01)
    ∷ (0x7f, 0xfe)
    ∷ (0x82, 0x00)
    ∷ (0x86, 0x50)
    ∷ (0x87, 0x20)
    ∷ (0x88, 0x01)
    ∷ (0x9f, 0x7f)
    ∷ (0xa0, 0x07)
    ∷ []

-- the thresholds and the calibration of the AGC
abbrev agc_levels : List (ℕ × ℕ)
agc_levels = (0x1d, 0x10) ∷ (0x1e, 0x04) ∷ (0x1f, 0x1a) ∷ []

module _ {i : I2c} where
  abbrev write_pairs : List (ℕ × ℕ) → E4kState i → E4kState i
  write_pairs = each (λ p. reg_write p.0 p.1)

  unfoldable pub magic_init : E4kState i → E4kState i
  unfolding reg_write
  magic_init s = write_pairs magic s

  -- the moderate gains of the six stages
  unfoldable pub moderate_gains : E4kState i → E4kState i
  unfolding if_gain_set
  moderate_gains s =
      each (λ (g : ℕ × ℕ). if_gain_set g.0 (pos g.1))
        ((1, 6) ∷ (2, 0) ∷ (3, 0) ∷ (4, 0) ∷ (5, 9) ∷ (6, 9) ∷ []) s

  -- the narrowest filters
  unfoldable pub narrow_filters : E4kState i → E4kState i
  unfolding if_filter_bw_set if_filter_chan_enable
  narrow_filters s =
      let s1 = (if_filter_bw_set IfFilter.mix 1900000 s).1 in
      let s2 = (if_filter_bw_set IfFilter.rc 1000000 s1).1 in
      let s3 = (if_filter_bw_set IfFilter.chan 2150000 s2).1 in (if_filter_chan_enable true s3).1

  unfoldable pub e4k_init : E4kState i → ℤ × E4kState i
  unfolding reg_read reg_write reg_set_mask magic_init enable_manual_gain moderate_gains
      narrow_filters
  e4k_init s =
      let s1 = magic_init (write_pairs power_on (reg_read 0 s).1) in
      let s2 = write_pairs agc_levels s1 in
      let s3 = (reg_set_mask 0x20 1 0 (reg_set_mask 0x1a 0xf 0x0 s2).1).1 in
      let s4 = narrow_filters (moderate_gains (enable_manual_gain false s3).1) in
      (pos 0, each (λ r. reg_set_mask r 0x03 0) (0x2d ∷ 0x70 ∷ 0x71 ∷ []) s4)

  -- the tuner interface of rtl-sdr/src/librtlsdr.c: `clock` is the corrected crystal
  unfoldable pub e4000_init : ℕ → E4kState i → ℤ × E4kState i
  unfolding e4k_init
  e4000_init clock s = e4k_init (record s { i2c_addr = 0xc8; vco = record s.vco { fosc = clock } })

  unfoldable pub e4000_exit : E4kState i → ℤ × E4kState i
  unfolding e4k_standby
  e4000_exit s = e4k_standby true s
