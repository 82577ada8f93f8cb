-- ===== src/Fc2580/Calls.antt =====
-- The filter, the tables of the bands, and the calls of rtl-sdr/src/tuner_fc2580.c.
use ebc_sdr_native.Prelude.{
  ℕ, zero, suc, ◌+◌, ◌/◌, ◌%◌, bit_and, Bool, true, false, List, [], ◌∷◌, ◌++◌, ltb, leb, ◌==◌,
  if◌then◌else◌,
}
use ebc_sdr_native.Prelude.Int.{ℤ, pos}
use ebc_sdr_native.I2c.{I2c}
use ebc_sdr_native.Fc2580.{
  Cmd, also, Write, i2c_read, write_list, filter_regs, Band, uhf, l_band, vhf, band_of, pll,
  pll_regs, load_cap,
}

-- the writes that the frequency chooses within UHF
abbrev pub uhf_part : ℕ → List Write
uhf_part f_lo =
    if ltb f_lo 538000
    then (0x61, 0x07)
      ∷ (0x62, 0x06)
      ∷ (0x67, 0x06)
      ∷ (0x68, 0x08)
      ∷ (0x69, 0x10)
      ∷ (0x6a, 0x12)
      ∷ []
    else if ltb f_lo 794000
    then (0x61, 0x03)
      ∷ (0x62, 0x03)
      ∷ (0x67, 0x03)
      ∷ (0x68, 0x05)
      ∷ (0x69, 0x0c)
      ∷ (0x6a, 0x0e)
      ∷ []
    else (0x61, 0x07)
      ∷ (0x62, 0x06)
      ∷ (0x67, 0x07)
      ∷ (0x68, 0x09)
      ∷ (0x69, 0x10)
      ∷ (0x6a, 0x12)
      ∷ []

abbrev pub uhf_regs : ℕ → List Write
uhf_regs f_lo =
    ((0x25, 0xf0)
      ∷ (0x27, 0x77)
      ∷ (0x28, 0x53)
      ∷ (0x29, 0x60)
      ∷ (0x30, 0x09)
      ∷ (0x50, 0x8c)
      ∷ (0x53, 0x50)
      ∷ (0x5f, if ltb f_lo 538000 then 0x13 else 0x15)
      ∷ [])
    ++ (uhf_part f_lo
        ++ ((0x63, 0x15)
            ∷ (0x6b, 0x0b)
            ∷ (0x6c, 0x0c)
            ∷ (0x6d, 0x78)
            ∷ (0x6e, 0x32)
            ∷ (0x6f, 0x14)
            ∷ []))

abbrev pub vhf_regs : List Write
vhf_regs =
    (0x27, 0x77)
    ∷ (0x28, 0x33)
    ∷ (0x29, 0x40)
    ∷ (0x30, 0x09)
    ∷ (0x50, 0x8c)
    ∷ (0x53, 0x50)
    ∷ (0x5f, 0x0f)
    ∷ (0x61, 0x07)
    ∷ (0x62, 0x00)
    ∷ (0x63, 0x15)
    ∷ (0x67, 0x03)
    ∷ (0x68, 0x05)
    ∷ (0x69, 0x10)
    ∷ (0x6a, 0x12)
    ∷ (0x6b, 0x08)
    ∷ (0x6c, 0x0a)
    ∷ (0x6d, 0x78)
    ∷ (0x6e, 0x32)
    ∷ (0x6f, 0x54)
    ∷ []

abbrev pub l_band_regs : List Write
l_band_regs =
    (0x2b, 0x70)
    ∷ (0x2c, 0x37)
    ∷ (0x2d, 0xe7)
    ∷ (0x30, 0x09)
    ∷ (0x44, 0x20)
    ∷ (0x50, 0x8c)
    ∷ (0x53, 0x50)
    ∷ (0x5f, 0x0f)
    ∷ (0x61, 0x0f)
    ∷ (0x62, 0x00)
    ∷ (0x63, 0x13)
    ∷ (0x67, 0x00)
    ∷ (0x68, 0x02)
    ∷ (0x69, 0x0c)
    ∷ (0x6a, 0x0e)
    ∷ (0x6b, 0x08)
    ∷ (0x6c, 0x0a)
    ∷ (0x6d, 0xa0)
    ∷ (0x6e, 0x50)
    ∷ (0x6f, 0x14)
    ∷ []

-- the writes of a band, and the bandwidth of its filter
abbrev pub band_regs : Band → ℕ → List Write
band_regs uhf f_lo = uhf_regs f_lo
band_regs vhf f_lo = vhf_regs
band_regs l_band f_lo = l_band_regs

abbrev pub band_filter : Band → ℕ
band_filter uhf = 8
band_filter vhf = 7
band_filter l_band = 1

-- what fc2580_set_init() writes before the filter
abbrev pub agc_regs : ℕ → List Write
agc_regs ifagc_mode =
    if ifagc_mode == 1
    then (0x45, 0x10) ∷ (0x4c, 0x00) ∷ []
    else if ifagc_mode == 2
    then (0x45, 0x20) ∷ (0x4c, 0x02) ∷ []
    else []

abbrev pub first_regs : List Write
first_regs =
    (0x00, 0x00)
    ∷ (0x12, 0x86)
    ∷ (0x14, 0x5c)
    ∷ (0x16, 0x3c)
    ∷ (0x1f, 0xd2)
    ∷ (0x09, 0xd7)
    ∷ (0x0b, 0xd5)
    ∷ (0x0c, 0x32)
    ∷ (0x0e, 0x43)
    ∷ (0x21, 0x0a)
    ∷ (0x22, 0x82)
    ∷ []

-- CRYSTAL_FREQ in kHz
abbrev pub crystal_khz : ℕ
crystal_khz = 16384

-- FUNCTION_SUCCESS and FUNCTION_ERROR
abbrev pub status : {S : Type 0} → Bool × S → ℤ × S
status (true, b) = (pos 0, b)
status (false, b) = (pos 1, b)

module _ (i : I2c) where
  -- the loop of fc2580_set_filter(), with its rounds left and cal_mon
  unfoldable pub filter_loop : ℕ → ℕ → Cmd i.Bus
  unfolding i2c_read write_list
  filter_loop zero cal_mon b = (true, b)
  filter_loop (suc rounds) cal_mon b =
      let (now, r, b1) = i2c_read i 0x2f cal_mon b in
      elim (bit_and now 0xc0 == 0xc0) [
        | true ↦ (r, b1)
        | false ↦
            also (also (r, b1) (write_list i ((0x2e, 0x01) ∷ (0x2e, 0x09) ∷ [])))
              (filter_loop rounds now)
      ]

  unfoldable pub set_filter : ℕ → ℕ → Cmd i.Bus
  unfolding write_list filter_loop
  set_filter filter_bw xtal b =
      also (also (write_list i (filter_regs filter_bw xtal) b) (filter_loop 5 0))
        (write_list i ((0x2e, 0x01) ∷ []))

  unfoldable pub set_init : ℕ → ℕ → Cmd i.Bus
  unfolding write_list set_filter
  set_init ifagc_mode xtal b =
      also
        (also (also (write_list i first_regs b) (write_list i (agc_regs ifagc_mode)))
          (write_list i ((0x3f, 0x88) ∷ (0x02, 0x0e) ∷ (0x58, 0x14) ∷ [])))
        (set_filter 8 xtal)

  -- fc2580_set_freq() up to the PLL
  unfoldable pub set_band : Band → ℕ → ℕ → Cmd i.Bus
  unfolding write_list set_filter
  set_band band f_lo xtal b =
      also (also (write_list i (band_regs band f_lo) b) (set_filter (band_filter band) xtal))
        (write_list i (if leb 28000 xtal then (0x4b, 0x22) ∷ [] else []))

  unfoldable pub set_freq : ℕ → ℕ → Cmd i.Bus
  unfolding band_of pll set_band write_list
  set_freq f_lo xtal b =
      let band = band_of f_lo in
      also (also (set_band band f_lo xtal b) (write_list i (pll_regs band (pll f_lo xtal))))
        (write_list i (load_cap band f_lo))

  -- FC2580_AGC_EXTERNAL is 2
  unfoldable pub initialize : i.Bus → ℤ × i.Bus
  unfolding set_init
  initialize b = status (set_init 2 crystal_khz b)

  -- the frequency is an unsigned long, of 32 bits at least
  unfoldable pub set_rf_freq_hz : ℕ → i.Bus → ℤ × i.Bus
  unfolding set_freq
  set_rf_freq_hz rf_freq_hz b = status (set_freq ((rf_freq_hz + 500) / 1000) crystal_khz b)

  unfoldable pub set_bandwidth_mode : ℕ → i.Bus → ℤ × i.Bus
  unfolding set_filter
  set_bandwidth_mode mode b = status (set_filter (mode % 256) crystal_khz b)
