-- ===== src/Device/Settings.antt =====
-- The control functions of rtl-sdr/src/librtlsdr.c on an open device: sample rate, bandwidth, gains,
-- offset tuning, clock correction and crystals.
pub mod Rate
use ebc_sdr_native.Prelude.{
  ℕ, suc, ◌+◌, ◌-◌, ◌*◌, ◌/◌, ◌%◌, bit_and, bit_or, Bool, true, false, not, ◌&&◌, ◌||◌, Option,
  none, some, List, [], ◌∷◌, ltb, leb, ◌==◌, if◌then◌else◌,
}
use ebc_sdr_native.Prelude.Int.{◌||ℤ◌, ℤ, pos, negsuc, ◌==ℤ◌, is_neg}
use ebc_sdr_native.Registers
use ebc_sdr_native.Device.{
  TunerKind, Tuner, SetBw, Radio, Op, demod, or_then, if_present, is_zero, is_rafael, repeated,
}
use ebc_sdr_native.Device.Clock.{set_if_freq, tuner_clock, set_sample_freq_correction}
use ebc_sdr_native.Device.Tune.{set_center_freq, apply_to}

-- a uint32_t passed as an int
abbrev pub to_int : ℕ → ℤ
to_int n = if ltb n 2147483648 then pos n else negsuc (4294967295 - n)

-- the rates that the resampler refuses
abbrev pub is_invalid_rate : ℕ → Bool
is_invalid_rate rate = leb rate 225000 || ltb 3200000 rate || ltb 300000 rate && leb rate 900000

-- (uint32_t)(rtl_xtal * 2^22 / rate) & 0x0ffffffc
unfoldable pub rsamp_ratio : ℕ → ℕ → ℕ
rsamp_ratio xtal rate = bit_and (xtal * 4194304 / rate) 0x0ffffffc

unfoldable pub real_rsamp_ratio : ℕ → ℕ
real_rsamp_ratio ratio = bit_or ratio (bit_and ratio 0x08000000 * 2)

unfoldable pub real_rate : ℕ → ℕ → ℕ
unfolding rsamp_ratio real_rsamp_ratio
real_rate xtal rate = xtal * 4194304 / real_rsamp_ratio (rsamp_ratio xtal rate)

-- MIN_RTL_XTAL_FREQ to MAX_RTL_XTAL_FREQ
abbrev pub is_invalid_xtal : ℕ → Bool
is_invalid_xtal xtal = ltb 0 xtal && (ltb xtal 28799000 || ltb 28801000 xtal)

module _ {k : Registers.Control} {t : Tuner k} where
  unfoldable pub set_tuner_gain : ℤ → Radio k t → ℤ × Radio k t
  unfolding if_present
  set_tuner_gain gain s =
      let (r, s') = if_present (pos 0) (apply_to t.set_gain gain) s in
      (r, record s' { gain = if is_zero r then gain else pos 0 })

  unfoldable pub set_tuner_if_gain : ℤ → ℤ → Radio k t → ℤ × Radio k t
  unfolding if_present
  set_tuner_if_gain stage gain s =
      if_present (pos 0) (apply_to (apply_to t.set_if_gain stage) gain) s

  unfoldable pub set_tuner_gain_mode : ℤ → Radio k t → ℤ × Radio k t
  unfolding if_present
  set_tuner_gain_mode mode s = if_present (pos 0) (apply_to t.set_gain_mode mode) s

  -- the bandwidth is kept if the tuner has taken it
  abbrev pub store_bw : ℕ → ℤ × Radio k t → ℤ × Radio k t
  store_bw bw (r, s) = elim (is_zero r) [ true ↦ (r, record s { bw = bw }) | false ↦ (r, s) ]

module _ {k : Registers.Control} {t : Tuner k} (apply_ppm : ℕ → ℤ → ℕ) where
  -- r820t_set_bw() after r82xx_set_bandwidth() has returned `r`
  unfoldable pub retune : ℤ × Radio k t → ℤ × Radio k t
  unfolding set_if_freq set_center_freq
  retune (negsuc n, s) = (negsuc n, s)
  retune (pos if_freq, s) =
      let (r, s1) = set_if_freq apply_ppm if_freq s in
      elim (is_zero r) [ true ↦ set_center_freq apply_ppm s1.freq s1 | false ↦ (r, s1) ]

  -- set_bw between the two calls of rtlsdr_set_i2c_repeater()
  unfoldable pub call_set_bw : SetBw k t.Chip → ℤ → Radio k t → ℤ × Radio k t
  unfolding repeated retune Registers.set_i2c_repeater
  call_set_bw (SetBw.plain op) bw s = repeated (op bw) s
  call_set_bw (SetBw.retunes op) bw s =
      let (r, chip, b) = op bw s.rate s.chip (Registers.set_i2c_repeater k s.bus true) in
      let (r', s') = retune (r, record s { chip = chip; bus = b }) in
      (r', record s' { bus = Registers.set_i2c_repeater k s'.bus false })

  -- where the code ignores what set_bw returns, or has none
  abbrev pub try_set_bw : ℤ → Radio k t → Radio k t
  try_set_bw bw s = elim t.set_bw [ none ↦ s | some w ↦ (call_set_bw w bw s).1 ]

  unfoldable pub set_tuner_bandwidth : ℕ → Radio k t → ℤ × Radio k t
  unfolding call_set_bw
  set_tuner_bandwidth bw s = elim t.set_bw [
    | none ↦ (pos 0, s)
    | some w ↦ store_bw bw (call_set_bw w (to_int (if ltb 0 bw then bw else s.rate)) s)
  ]

  unfoldable pub set_offset_tuning : Bool → Radio k t → ℤ × Radio k t
  unfolding call_set_bw set_if_freq set_center_freq
  set_offset_tuning on s = elim (is_rafael s.tuner_type) [
    | true ↦ (negsuc 1, s)
    | false ↦ elim (is_zero s.direct_sampling) [
      | false ↦ (negsuc 2, s)
      | true ↦
          let offs = if on then s.rate / 2 * 170 % 4294967296 / 100 else 0 in
          let (r, s1) = set_if_freq apply_ppm offs (record s { offs_freq = offs }) in
          let bw = if on then 2 * offs % 4294967296 else if ltb 0 s1.bw then s1.bw else s1.rate in
          let s2 = try_set_bw (to_int bw) s1 in
          elim (ltb s2.offs_freq s2.freq) [
            | true ↦ or_then (r, s2) (λ s. set_center_freq apply_ppm s.freq s)
            | false ↦ (r, s2)
          ]
    ]
  ]

  -- the part of rtlsdr_set_sample_rate() after set_bw: the registers of the resampler
  unfoldable pub program_rate : ℕ → Radio k t → ℤ × Radio k t
  unfolding set_sample_freq_correction
  program_rate ratio s =
      or_then
        (or_then
          (or_then
            (or_then (demod s 1 0x9f (ratio / 65536 % 65536) 2)
              (λ s. demod s 1 0xa1 (ratio % 65536) 2))
            (λ s. set_sample_freq_correction s.corr s))
          (λ s. demod s 1 0x01 0x14 1))
        (λ s. demod s 1 0x01 0x10 1)

  -- -EINVAL is -22
  unfoldable pub set_sample_rate : ℕ → Radio k t → ℤ × Radio k t
  unfolding call_set_bw program_rate set_offset_tuning rsamp_ratio real_rate
  set_sample_rate rate s = elim (is_invalid_rate rate) [
    | true ↦ (negsuc 21, s)
    | false ↦
        let s1 : Radio k t = record s { rate = real_rate s.rtl_xtal rate } in
        let s2 = try_set_bw (to_int (if ltb 0 s1.bw then s1.bw else s1.rate)) s1 in
        let (r, s3) = program_rate (rsamp_ratio s.rtl_xtal rate) s2 in
        elim (s3.offs_freq == 0) [ true ↦ (r, s3) | false ↦ (r, (set_offset_tuning true s3).1) ]
  ]

  abbrev pub load_clock : Radio k t → Radio k t
  load_clock s = record s { chip = t.load_clock (tuner_clock apply_ppm s) s.chip }

  -- the call that tunes again, if a frequency is set
  abbrev pub tune_again : ℤ × Radio k t → ℤ × Radio k t
  tune_again (r, s) = elim (s.freq == 0) [
    | true ↦ (r, s)
    | false ↦ set_center_freq apply_ppm s.freq s
  ]

  unfoldable pub set_freq_correction : ℤ → Radio k t → ℤ × Radio k t
  unfolding set_sample_freq_correction set_center_freq
  set_freq_correction ppm s = elim (s.corr ==ℤ ppm) [
    | true ↦ (negsuc 1, s)
    | false ↦
        let (r, s1) = set_sample_freq_correction ppm (record s { corr = ppm }) in
        or_then (r, load_clock s1) (λ s. tune_again (pos 0, s))
  ]

  unfoldable pub set_rtl_xtal : ℕ → Radio k t → ℤ × Radio k t
  unfolding set_sample_rate
  set_rtl_xtal xtal s = elim (ltb 0 xtal && not (s.rtl_xtal == xtal)) [
    | false ↦ (pos 0, s)
    | true ↦
        let s1 : Radio k t = record s { rtl_xtal = xtal } in
        elim (s1.rate == 0) [ true ↦ (pos 0, s1) | false ↦ set_sample_rate s1.rate s1 ]
  ]

  unfoldable pub set_xtal_freq : ℕ → ℕ → Radio k t → ℤ × Radio k t
  unfolding set_rtl_xtal set_center_freq
  set_xtal_freq rtl_freq tuner_freq s = elim (is_invalid_xtal rtl_freq) [
    | true ↦ (negsuc 1, s)
    | false ↦
        let (r, s1) = set_rtl_xtal rtl_freq s in
        elim (s1.tun_xtal == tuner_freq) [
          | true ↦ (r, s1)
          | false ↦
              let xtal = if tuner_freq == 0 then s1.rtl_xtal else tuner_freq in
              tune_again (r, load_clock (record s1 { tun_xtal = xtal }))
        ]
  ]
