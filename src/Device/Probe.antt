-- ===== src/Device/Probe.antt =====
-- What rtlsdr_open() of rtl-sdr/src/librtlsdr.c and rtlsdr_open2() of android/librtlsdr_andro.c share:
-- the search for the tuner and its first settings.
use ebc_sdr_native.Prelude.{
  ℕ, ◌%◌, true, false, Option, none, some, List, [], ◌∷◌, ◌==◌, if◌then◌else◌,
}
use ebc_sdr_native.Prelude.Int.{ℤ, pos}
use ebc_sdr_native.Registers
use ebc_sdr_native.R82xx.{RtlDev}
use ebc_sdr_native.R82xx.Model.{is_v4}
use ebc_sdr_native.Device.{TunerKind, Tuner, Radio, demod}
use ebc_sdr_native.Device.Clock.{set_if_freq}
use ebc_sdr_native.Device.Tune.{r82xx_if_freq, set_direct_sampling}

-- the tuners that answer without a reset: the address, the register, its value
abbrev pub first_probes : List (TunerKind × ℕ × ℕ × ℕ)
first_probes =
    (TunerKind.e4000, 0xc8, 0x02, 0x40)
    ∷ (TunerKind.fc0013, 0xc6, 0x00, 0xa3)
    ∷ (TunerKind.r820t, 0x34, 0x00, 0x69)
    ∷ (TunerKind.r828d, 0x74, 0x00, 0x69)
    ∷ []

module _ (k : Registers.Control) where
  abbrev pub probe_each : List (TunerKind × ℕ × ℕ × ℕ) → k.Bus → Option TunerKind × k.Bus
  probe_each [] b = (none, b)
  probe_each ((kind, addr, reg, val) ∷ rest) b =
      let (got, b') = Registers.i2c_read_reg k b addr reg in
      elim (got == val) [ true ↦ (some kind, b') | false ↦ probe_each rest b' ]

  -- after the reset by GPIO 4
  unfoldable pub probe_reset : k.Bus → TunerKind × k.Bus
  unfolding Registers.set_gpio_output Registers.set_gpio_bit
  probe_reset b =
      let b1 = Registers.set_gpio_bit k (Registers.set_gpio_output k b 4) 4 true in
      let b2 = Registers.set_gpio_bit k b1 4 false in
      let (got, b3) = Registers.i2c_read_reg k b2 0xac 0x01 in
      elim (got % 128 == 0x56) [
        | true ↦ (TunerKind.fc2580, b3)
        | false ↦
            let (got2, b4) = Registers.i2c_read_reg k b3 0xc6 0x00 in
            elim (got2 == 0xa1) [
              | true ↦ (TunerKind.fc0012, Registers.set_gpio_output k b4 6)
              | false ↦ (TunerKind.unknown, b4)
            ]
      ]

  abbrev pub or_reset : Option TunerKind × k.Bus → TunerKind × k.Bus
  or_reset (some kind, b) = (kind, b)
  or_reset (none, b) = probe_reset b

  unfoldable pub probe : k.Bus → TunerKind × k.Bus
  unfolding probe_reset
  probe b = or_reset (probe_each first_probes b)

-- the crystal of the tuner: that of the demodulator, but for an R828D that is not a Blog V4
unfoldable pub tuner_xtal : TunerKind → RtlDev → ℕ → ℕ
unfolding is_v4
tuner_xtal TunerKind.r828d strings xtal = if is_v4 strings then xtal else 16000000
tuner_xtal _ strings xtal = xtal

module _ {k : Registers.Control} {t : Tuner k} (apply_ppm : ℕ → ℤ → ℕ) where
  abbrev pub setup_rafael : Radio k t → Radio k t
  setup_rafael s =
      let s1 = (demod s 1 0xb1 0x1a 1).1 in
      let s2 = (demod s1 0 0x08 0x4d 1).1 in
      let s3 = (set_if_freq apply_ppm r82xx_if_freq s2).1 in (demod s3 1 0x15 0x01 1).1

  -- the switch over the type of the tuner
  unfoldable pub setup_tuner : TunerKind → Radio k t → Radio k t
  unfolding set_if_freq set_direct_sampling
  setup_tuner TunerKind.r828d s = setup_rafael s
  setup_tuner TunerKind.r820t s = setup_rafael s
  setup_tuner TunerKind.unknown s = (set_direct_sampling apply_ppm (pos 1) s).1
  setup_tuner _ s = s
