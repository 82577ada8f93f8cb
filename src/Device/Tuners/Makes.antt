-- ===== src/Device/Tuners/Makes.antt =====
-- rtlsdr_set_center_freq() of rtl-sdr/src/librtlsdr.c on an FC0012, an FC0013 and an FC2580, while the
-- device does not leave the tuner for direct sampling: what the registers of the tuner make then.
use ebc_sdr_native.Prelude.{ℕ, ◌+◌, ◌-◌, ◌/◌, ◌≤◌, ◌<◌, ◌≡◌, ◌⊎◌, inl, inr, arith, Bool, ltb}
use ebc_sdr_native.Prelude.Int.{ℤ, pos}
use ebc_sdr_native.I2c.{AllOrNothing}
use ebc_sdr_native.Registers
use ebc_sdr_native.Registers.Tuner.{IsTuner, Implements, tuner_bus}
use ebc_sdr_native.Fitipower.Fc0012
use ebc_sdr_native.Fitipower.Fc0012.Tunes as Tunes12
use ebc_sdr_native.Fitipower.Fc0013
use ebc_sdr_native.Fitipower.Fc0013.Tunes as Tunes13
use ebc_sdr_native.Fc2580.Calls
use ebc_sdr_native.Fc2580.Makes as Exactly
use ebc_sdr_native.Device.{Radio, if_present}
use ebc_sdr_native.Device.Tune.{choose_mode, set_center_freq}
use ebc_sdr_native.Device.Tuners.{fc0012, fc0012_set_freq, fc0013, fc2580, coded, clocked}
use ebc_sdr_native.Device.Tuners.Made.{
  Done, OpDone, tuned_lem, coded-OpDone, clocked-OpDone, repeated-Done, set_center_freq-Done,
}

module _ {k : Registers.Control} (force_bt : Bool) (t : IsTuner k)
    (m : Implements (tuner_bus k force_bt) t.chip) (full : AllOrNothing (tuner_bus k force_bt))
    (apply_ppm : ℕ → ℤ → ℕ) where
  fc0012_set_freq-Makes :
      (clock freq : ℕ) (b : k.Bus)
      → clock ≡ 28800000
      → 13425000 ≤ freq
      → freq < 948600000
      → OpDone (λ b'. Tunes12.Makes freq (t.chip b')) (fc0012_set_freq k force_bt freq clock b)
  fc0012_set_freq-Makes clock freq b e h n =
      let b' = Registers.set_gpio_bit k b 6 (ltb 300000000 freq) in
      rw e (
        coded-OpDone force_bt t m (Tunes12.Makes freq) 28800000
          (Fc0012.set_params (tuner_bus k force_bt) 28800000 freq 6000000 b')
          (Tunes12.set_params-Makes m.is_chip full freq 6000000 b' h n).1)

  -- On an FC0012 with the clock of 28.8 MHz, with a bus that sends all bytes of a write or fails,
  -- while the tuner is in use and stays it: when rtlsdr_set_center_freq() returns 0, for a frequency
  -- below 2^32 Hz that less the offset of offset tuning is from 13.425 MHz to just below 948.6 MHz,
  -- it is stored, and the registers of the tuner make the difference: they hold the bits that the
  -- driver has for its output divider, and the VCO runs at the difference times that divider, or less
  -- than 1440 Hz below.
  pub fc0012-set_center_freq :
      (freq : ℕ) (s : Radio k (fc0012 k force_bt))
      → s.direct_sampling ≡ pos 0
      → (choose_mode apply_ppm freq s).direct_sampling ≡ pos 0
      → s.chip ≡ 28800000
      → s.offs_freq + 13425000 ≤ freq
      → freq < s.offs_freq + 948600000
      → freq < 4294967296
      → Done
          (λ s'. Tunes12.Makes (freq - s.offs_freq) (t.chip s'.bus) × (s'.freq ≡ freq))
          (set_center_freq apply_ppm freq s)
  unfolding choose_mode if_present
  fc0012-set_center_freq freq s e tunes c low high bound =
      let tuned = tuned_lem freq s.offs_freq (omega arith) bound in
      set_center_freq-Done t (Tunes12.Makes (freq - s.offs_freq)) apply_ppm freq s e tunes (
        rw tuned (
          repeated-Done t (Tunes12.Makes (freq - s.offs_freq))
            (fc0012_set_freq k force_bt (freq - s.offs_freq)) (choose_mode apply_ppm freq s)
            (λ b.
              fc0012_set_freq-Makes s.chip (freq - s.offs_freq) b c (omega arith) (omega arith))))

  fc0013_answer :
      (clock freq : ℕ) (b : k.Bus)
      → clock ≡ 28800000
      → 13425000 ≤ freq
      → freq < 1897200000
      → (freq < 948600000) ⊎ (950000000 ≤ freq)
      → OpDone
          (λ b'. Tunes13.Makes freq (t.chip b'))
          (coded k force_bt clock (Fc0013.set_params (tuner_bus k force_bt) clock freq 6000000 b))
  fc0013_answer clock freq b e h n outside =
      elim (Tunes13.set_params-Answer m.is_chip full freq 6000000 b h n) [
        | inl (gap, _) ↦ absurd (ground (arith, outside, gap.0, gap.1))
        | inr (_, _, ends) ↦ rw e (coded-OpDone force_bt t m (Tunes13.Makes freq) 28800000 _ ends)
      ]

  -- On an FC0013 with the clock of 28.8 MHz, with a bus that sends all bytes of a write or fails,
  -- while the tuner is in use and stays it: when rtlsdr_set_center_freq() returns 0, for a frequency
  -- below 2^32 Hz that less the offset of offset tuning is from 13.425 MHz to just below 948.6 MHz or
  -- from 950 MHz to just below 1897.2 MHz, it is stored, and the registers of the tuner make the
  -- difference: they hold the bits that the driver has for its output divider, that of register 0x11
  -- among them, and the VCO runs at the difference times that divider, or less than 1440 Hz below.
  pub fc0013-set_center_freq :
      (freq : ℕ) (s : Radio k (fc0013 k force_bt))
      → s.direct_sampling ≡ pos 0
      → (choose_mode apply_ppm freq s).direct_sampling ≡ pos 0
      → s.chip ≡ 28800000
      → s.offs_freq + 13425000 ≤ freq
      → freq < s.offs_freq + 1897200000
      → (freq < s.offs_freq + 948600000) ⊎ (s.offs_freq + 950000000 ≤ freq)
      → freq < 4294967296
      → Done
          (λ s'. Tunes13.Makes (freq - s.offs_freq) (t.chip s'.bus) × (s'.freq ≡ freq))
          (set_center_freq apply_ppm freq s)
  unfolding choose_mode if_present
  fc0013-set_center_freq freq s e tunes c low high outside bound =
      set_center_freq-Done t (Tunes13.Makes (freq - s.offs_freq)) apply_ppm freq s e tunes (
        rw (tuned_lem freq s.offs_freq (omega arith) bound) (
          repeated-Done t (Tunes13.Makes (freq - s.offs_freq))
            (λ c b.
              coded k force_bt c
                (Fc0013.set_params (tuner_bus k force_bt) c (freq - s.offs_freq) 6000000 b))
            (choose_mode apply_ppm freq s)
            (λ b.
              fc0013_answer s.chip (freq - s.offs_freq) b c (omega arith) (omega arith)
                (ground arith))))

  -- On an FC2580, with a bus that sends all bytes of a write or fails, while the tuner is in use and
  -- stays it: when rtlsdr_set_center_freq() returns 0, for a frequency below 2^32 Hz that is at least
  -- the offset of offset tuning and at most 4194.303 MHz above it, it is stored, and the registers of
  -- the tuner make exactly the difference, rounded to kHz.
  pub fc2580-set_center_freq :
      (freq : ℕ) (s : Radio k (fc2580 k force_bt))
      → s.direct_sampling ≡ pos 0
      → (choose_mode apply_ppm freq s).direct_sampling ≡ pos 0
      → s.offs_freq ≤ freq
      → freq ≤ s.offs_freq + 4194303000
      → freq < 4294967296
      → Done
          (λ s'.
            Exactly.Makes ((freq - s.offs_freq + 500) / 1000) (t.chip s'.bus) × (s'.freq ≡ freq))
          (set_center_freq apply_ppm freq s)
  unfolding choose_mode if_present Calls.set_rf_freq_hz
  fc2580-set_center_freq freq s e tunes low high bound =
      let f_lo = (freq - s.offs_freq + 500) / 1000 in
      set_center_freq-Done t (Exactly.Makes f_lo) apply_ppm freq s e tunes (
        rw (tuned_lem freq s.offs_freq low bound) (
          repeated-Done t (Exactly.Makes f_lo)
            (λ c b.
              clocked k force_bt c
                (Calls.set_rf_freq_hz (tuner_bus k force_bt) (freq - s.offs_freq) b))
            (choose_mode apply_ppm freq s)
            (λ b.
              clocked-OpDone force_bt t m (Exactly.Makes f_lo) s.chip
                (Calls.set_freq (tuner_bus k force_bt) f_lo 16384 b)
                (Exactly.set_freq-Makes m.is_chip full f_lo b (omega arith)))))
