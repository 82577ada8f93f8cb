-- ===== src/E4k/Filters.antt =====
-- The filters and the tuning of rtl-sdr/src/tuner_e4k.c.
pub mod BandWidth
use ebc_sdr_native.Prelude.{
  ℕ, suc, ◌+◌, ◌*◌, ◌/◌, ◌%◌, ◌^◌, Bool, true, false, Option, none, some, List, [], ◌∷◌, ltb, ◌==◌,
  if◌then◌else◌, get_or,
}
use ebc_sdr_native.Prelude.Int.{ℤ, pos, negsuc, is_neg, ◌||ℤ◌}
use ebc_sdr_native.I2c.{I2c}
use ebc_sdr_native.E4k.{Band, PllParams, closest_arr_idx, choose_rf_filter, e4k_compute_pll_params}
use ebc_sdr_native.E4k.Regs.{
  E4kState, RegField, reg_write, reg_read, reg_set_mask, field_write, field_read, to_u8,
}
use mathlib.Core.List.{map}

-- enum e4k_if_filter
pub data IfFilter : Type 0 where
  mix chan rc : IfFilter

abbrev khz : List ℕ → List ℕ
khz = map (λ x. x * 1000)

abbrev mix_filter_bw : List ℕ
mix_filter_bw =
    27000 ∷ 27000 ∷ 27000 ∷ 27000 ∷ 27000 ∷ 27000 ∷ 27000 ∷ 27000 ∷ 4600 ∷ 4200 ∷ 3800 ∷ 3400 ∷ 3300
    ∷ 2700 ∷ 2300 ∷ 1900 ∷ []

abbrev ifrc_filter_bw : List ℕ
ifrc_filter_bw =
    21400 ∷ 21000 ∷ 17600 ∷ 14700 ∷ 12400 ∷ 10600 ∷ 9000 ∷ 7700 ∷ 6400 ∷ 5300 ∷ 4400 ∷ 3400 ∷ 2600
    ∷ 1800 ∷ 1200 ∷ 1000 ∷ []

abbrev ifch_filter_bw : List ℕ
ifch_filter_bw =
    5500 ∷ 5300 ∷ 5000 ∷ 4800 ∷ 4600 ∷ 4400 ∷ 4300 ∷ 4100 ∷ 3900 ∷ 3800 ∷ 3700 ∷ 3600 ∷ 3400 ∷ 3300
    ∷ 3200 ∷ 3100 ∷ 3000 ∷ 2950 ∷ 2900 ∷ 2800 ∷ 2750 ∷ 2700 ∷ 2600 ∷ 2550 ∷ 2500 ∷ 2450 ∷ 2400
    ∷ 2300 ∷ 2280 ∷ 2240 ∷ 2200 ∷ 2150 ∷ []

abbrev pub if_filter_bw : IfFilter → List ℕ
if_filter_bw mix = khz mix_filter_bw
if_filter_bw chan = khz ifch_filter_bw
if_filter_bw rc = khz ifrc_filter_bw

abbrev pub if_filter_field : IfFilter → RegField
if_filter_field mix = record { reg = 0x11; shift = 4; width = 4 }
if_filter_field chan = record { reg = 0x12; shift = 0; width = 5 }
if_filter_field rc = record { reg = 0x11; shift = 0; width = 4 }

unfoldable pub find_if_bw : IfFilter → ℕ → ℕ
unfolding closest_arr_idx
find_if_bw filter bw = closest_arr_idx (if_filter_bw filter) bw

abbrev pub band_number : Band → ℕ
band_number Band.vhf2 = 0
band_number Band.vhf3 = 1
band_number Band.uhf = 2
band_number Band.l = 3

abbrev bias : Band → ℕ
bias Band.l = 0
bias _ = 3

abbrev pub band_of : ℕ → Band
band_of flo =
    if ltb flo 140000000
    then Band.vhf2
    else if ltb flo 350000000
    then Band.vhf3
    else if ltb flo 1135000000
    then Band.uhf
    else Band.l

-- an entry of the table, as an int
abbrev pub entry : IfFilter → ℤ → ℤ
entry filter (negsuc n) = negsuc n
entry filter (pos n) = pos (get_or (if_filter_bw filter) n 0)

-- the lowest bit of SYNTH1: a failed read has all bits set
abbrev pub has_lock : ℤ → Bool
has_lock r = to_u8 r % 2 == 1

module _ {i : I2c} where
  unfoldable pub rf_filter_set : E4kState i → ℤ × E4kState i
  unfolding reg_set_mask choose_rf_filter
  rf_filter_set s = reg_set_mask 0x10 0xf (choose_rf_filter s.band s.vco.flo) s

  unfoldable pub if_filter_bw_set : IfFilter → ℕ → E4kState i → ℤ × E4kState i
  unfolding field_write find_if_bw
  if_filter_bw_set filter bandwidth s =
      field_write (if_filter_field filter) (find_if_bw filter bandwidth % 256) s

  unfoldable pub if_filter_chan_enable : Bool → E4kState i → ℤ × E4kState i
  unfolding reg_set_mask
  if_filter_chan_enable on s = reg_set_mask 0x12 0x20 (if on then 0 else 0x20) s

  unfoldable pub if_filter_bw_get : IfFilter → E4kState i → ℤ × E4kState i
  unfolding field_read
  if_filter_bw_get filter s =
      let (r, s1) = field_read (if_filter_field filter) s in (entry filter r, s1)

  -- the first write of the two on SYNTH1 resets the field
  unfoldable pub band_set : Band → E4kState i → ℤ × E4kState i
  unfolding reg_write reg_set_mask
  band_set band s =
      let s1 = (reg_write 0x78 (bias band) s).1 in
      let s2 = (reg_set_mask 0x07 0x06 0 s1).1 in
      let (r, s3) = reg_set_mask 0x07 0x06 (band_number band * 2) s2 in
      (r, if is_neg r then s3 else record s3 { band = band })

  unfoldable pub tune_params : PllParams → E4kState i → E4kState i
  unfolding reg_write band_set rf_filter_set
  tune_params p s =
      let s1 = (reg_write 0x0d p.r_idx s).1 in
      let s2 = (reg_write 0x09 p.z s1).1 in
      let s3 = (reg_write 0x0a (p.x % 256) s2).1 in
      let s4 = (reg_write 0x0b (p.x / 256) s3).1 in
      (rf_filter_set (band_set (band_of p.flo) (record s4 { vco = p })).1).1

  unfoldable pub tune_freq : ℕ → E4kState i → ℤ × E4kState i
  unfolding e4k_compute_pll_params tune_params reg_read
  tune_freq freq s = elim (e4k_compute_pll_params s.vco.fosc freq) [
    | none ↦ (negsuc 21, s)
    | some p ↦
        let (r, s1) = reg_read 0x07 (tune_params p s) in
        (if has_lock r then pos 0 else negsuc 0, s1)
  ]

  -- e4000_set_bw()
  unfoldable pub e4000_set_bw : ℕ → E4kState i → ℤ × E4kState i
  unfolding if_filter_bw_set
  e4000_set_bw bw s =
      let (r1, s1) = if_filter_bw_set mix bw s in
      let (r2, s2) = if_filter_bw_set rc bw s1 in
      let (r3, s3) = if_filter_bw_set chan bw s2 in (r1 ||ℤ r2 ||ℤ r3, s3)
