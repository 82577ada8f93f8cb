-- ===== src/Device/R820t/Requests/Kept.antt =====
-- That the control functions of rtl-sdr/src/librtlsdr.c keep an R820T or R828D in sync with its driver.
use ebc_sdr_native.Prelude.{
  ℕ, ◌≡◌, ◌⊎◌, inl, inr, refl, ◌∙◌, arith, Bool, true, false, not, List, [], ◌∷◌, ◌==◌, Bool-cases,
}
use ebc_sdr_native.Prelude.Int.{ℤ, pos, negsuc, is_neg, ◌==ℤ◌, ◌||ℤ◌}
use ebc_sdr_native.Registers
use ebc_sdr_native.Registers.Tuner.{IsTuner, Implements, tuner_bus}
use ebc_sdr_native.R82xx.{RtlDev, Priv}
use ebc_sdr_native.R82xx.Gain.{set_gain}
use ebc_sdr_native.R82xx.Bandwidth.{set_bandwidth}
use ebc_sdr_native.R82xx.Calls.{set_gain-Settles, set_bandwidth-Settles}
use ebc_sdr_native.Device.{TunerKind, Radio, SetBw, is_zero, repeated}
use ebc_sdr_native.Device.Clock.{set_if_freq, set_sample_freq_correction}
use ebc_sdr_native.Device.Tune.{choose_mode, auto_mode}
use ebc_sdr_native.Device.Settings.{
  set_tuner_gain, set_tuner_gain_mode, set_tuner_bandwidth, set_freq_correction, retune,
  call_set_bw, store_bw, tune_again, load_clock,
}
use ebc_sdr_native.Device.R820t.Requests.{Request, perform, session, go_on, Tunes, Fits, AllFit}
use ebc_sdr_native.Device.R820t.Tuned.{Steady, set_center_freq-Done}
use ebc_sdr_native.Device.R820t.{r820t, on_device, returned, success}
use ebc_sdr_native.Device.R820t.Steady.{
  Done, demod_keeps, repeater_keeps, or_neg, moved, returned-Done, InTune, command-Done,
  set_if_freq-InTune,
}

module _ {k : Registers.Control} (force_bt : Bool) (t : IsTuner k)
    (m : Implements (tuner_bus k force_bt) t.chip) (kind : TunerKind) (strings : RtlDev)
    (apply_ppm : ℕ → ℤ → ℕ) where
  abbrev Device : Type 0
  Device = Radio k (r820t k force_bt kind strings)

  abbrev Synced : Device → Type 0
  Synced = InTune force_bt t m kind strings

  abbrev IsSteady : Device → Type 0
  IsSteady = Steady force_bt t m kind strings apply_ppm

  -- r82xx_set_gain() in either mode, as the gain calls make it
  gain_command-Done :
      (manual : Bool) (gain : ℤ) (s : Device)
      → Synced s
      → Done Synced (
          repeated
            (λ p b. returned success p b (set_gain manual gain (on_device k force_bt p b)))
            s)
  gain_command-Done manual gain =
      command-Done force_bt t m kind strings success (set_gain manual gain)
        (set_gain-Settles m.is_chip manual gain)

  set_tuner_gain-Done : (gain : ℤ) (s : Device) → IsSteady s → Done IsSteady (set_tuner_gain gain s)
  unfolding set_tuner_gain repeated
  set_tuner_gain-Done gain s steady = elim (gain_command-Done true gain s steady.synced) [
    | inl e ↦ inl e
    | inr q ↦ inr (record { synced = q; in_use = steady.in_use })
  ]

  set_tuner_gain_mode-Done :
      (mode : ℤ) (s : Device) → IsSteady s → Done IsSteady (set_tuner_gain_mode mode s)
  unfolding set_tuner_gain_mode repeated
  set_tuner_gain_mode-Done mode s steady =
      elim (gain_command-Done (not (is_zero mode)) (pos 0) s steady.synced) [
        | inl e ↦ inl e
        | inr q ↦ inr (record { synced = q; in_use = steady.in_use })
      ]

  tune_again-Done :
      (s : Device)
      → IsSteady s
      → Tunes apply_ppm s.freq s
      → Done IsSteady (tune_again apply_ppm (pos 0, s))
  tune_again-Done s steady tunes = elim (Bool-cases (s.freq == 0)) [
    | inl e ↦ rw (e, tune_again) (inr steady)
    | inr e ↦
        rw (e, tune_again)
          (set_center_freq-Done force_bt t m kind strings apply_ppm s.freq s steady tunes)
  ]

  or_Done : (r : ℤ) (next : ℤ × Device) → Done IsSteady next → Done IsSteady (r ||ℤ next.0, next.1)
  or_Done r (r', s) d = elim d [ inl e ↦ inl (or_neg r r' e) | inr q ↦ inr q ]

  -- the registers of the resampler, and the clock
  corrected :
      (ppm : ℤ) (s : Device)
      → IsSteady s
      → IsSteady (
          load_clock apply_ppm
            (set_sample_freq_correction {k = k} {t = r820t k force_bt kind strings} ppm
              (record s { corr = ppm })).1)
  unfolding set_sample_freq_correction
  corrected ppm s steady =
      let sync =
        moved force_bt t m s.chip s.bus _
          (λ a.
            demod_keeps t _ 1 0x3e _ 1 a (λ e. omega (arith, e))
            ∙ demod_keeps t s.bus 1 0x3f _ 1 a (λ e. omega (arith, e)))
          steady.synced in
      record {
        synced = record { sized = sync.sized; room = sync.room; same = sync.same };
        in_use = steady.in_use;
      }

  set_freq_correction-Done :
      (ppm : ℤ) (s : Device)
      → IsSteady s
      → Tunes apply_ppm s.freq s
      → Done IsSteady (set_freq_correction apply_ppm ppm s)
  unfolding set_freq_correction set_sample_freq_correction choose_mode auto_mode
  set_freq_correction-Done ppm s steady tunes = elim (Bool-cases (s.corr ==ℤ ppm)) [
    | inl e ↦ rw (e, set_freq_correction) (inl refl)
    | inr e ↦
        rw (e, set_freq_correction) (or_Done _ _ (tune_again-Done _ (corrected ppm s steady) tunes))
  ]

  retune-Done :
      (s : Device) (result : ℤ)
      → IsSteady s
      → Tunes apply_ppm s.freq s
      → Done IsSteady (retune apply_ppm (result, s))
  unfolding retune set_if_freq choose_mode auto_mode
  retune-Done s (negsuc n) steady tunes = inl refl
  retune-Done s (pos if_freq) steady tunes =
      let next : Device = (set_if_freq apply_ppm if_freq s).1 in
      let steady' : IsSteady next = record {
        synced = set_if_freq-InTune force_bt t m kind strings apply_ppm if_freq s steady.synced;
        in_use = steady.in_use;
      } in
      elim (Bool-cases (is_zero (set_if_freq apply_ppm if_freq s).0)) [
        | inl e ↦
            rw (e, retune)
              (set_center_freq-Done force_bt t m kind strings apply_ppm s.freq next steady' tunes)
        | inr e ↦ rw (e, retune) (inr steady')
      ]

  -- after r82xx_set_bandwidth() has returned `result`, with the repeater still on
  retuned-Done :
      (result : ℤ) (s : Device)
      → (is_neg result ≡ true) ⊎ Synced s
      → s.direct_sampling ≡ pos 0
      → Tunes apply_ppm s.freq s
      → Done IsSteady (retune apply_ppm (result, s))
  unfolding retune
  retuned-Done (negsuc n) s done used tunes = inl refl
  retuned-Done (pos n) s (inl e) used tunes = cc
  retuned-Done (pos n) s (inr sync) used tunes =
      retune-Done s (pos n) (record { synced = sync; in_use = used }) tunes

  abbrev repeater_off : ℤ × Device → ℤ × Device
  repeater_off (r, s) = (r, record s { bus = Registers.set_i2c_repeater k s.bus false })

  repeater_off-Done :
      (result : ℤ × Device) → Done IsSteady result → Done IsSteady (repeater_off result)
  repeater_off-Done (r, s) (inl e) = inl e
  repeater_off-Done (r, s) (inr steady) = inr (record {
    synced = moved force_bt t m s.chip s.bus _ (repeater_keeps t s.bus false) steady.synced;
    in_use = steady.in_use;
  })

  -- the bandwidth as it is asked of r82xx_set_bandwidth()
  abbrev bandwidth_done : ℤ → Device → ℤ × Priv × k.Bus
  bandwidth_done bw s =
      let on = Registers.set_i2c_repeater k s.bus true in
      returned pos s.chip on (set_bandwidth bw (on_device k force_bt s.chip on))

  call_set_bw-Done :
      (bw : ℤ) (s : Device)
      → IsSteady s
      → Tunes apply_ppm s.freq s
      → Done IsSteady (
          call_set_bw apply_ppm
            (SetBw.retunes
              (λ bw rate p b. returned pos p b (set_bandwidth bw (on_device k force_bt p b))))
            bw
            s)
  unfolding call_set_bw choose_mode auto_mode
  call_set_bw-Done bw s steady tunes =
      let on = Registers.set_i2c_repeater k s.bus true in
      let sync = moved force_bt t m s.chip s.bus on (repeater_keeps t s.bus true) steady.synced in
      let done =
        returned-Done force_bt t m pos s.chip on _
          (set_bandwidth-Settles m.is_chip bw (on_device k force_bt s.chip on) sync) in
      let (r, p, b) = bandwidth_done bw s in
      repeater_off-Done _ (retuned-Done r (record s { chip = p; bus = b }) done steady.in_use tunes)

  store_bw-Done :
      (bw : ℕ) (result : ℤ × Device) → Done IsSteady result → Done IsSteady (store_bw bw result)
  store_bw-Done bw (r, s) d = elim (Bool-cases (is_zero r)) [
    | inr e ↦ rw (e, store_bw) d
    | inl e ↦
        rw (e, store_bw)
          (elim d [
            | inl neg ↦ inl neg
            | inr steady ↦ inr (record { synced = steady.synced; in_use = steady.in_use })
          ])
  ]

  set_tuner_bandwidth-Done :
      (bw : ℕ) (s : Device)
      → IsSteady s
      → Tunes apply_ppm s.freq s
      → Done IsSteady (set_tuner_bandwidth apply_ppm bw s)
  unfolding set_tuner_bandwidth call_set_bw
  set_tuner_bandwidth-Done bw s steady tunes =
      store_bw-Done bw _ (call_set_bw-Done _ s steady tunes)

  -- one request
  perform-Done :
      (r : Request) (s : Device)
      → IsSteady s
      → Fits apply_ppm r s
      → Done IsSteady (perform apply_ppm r s)
  perform-Done (Request.gain g) s steady fits = set_tuner_gain-Done g s steady
  perform-Done (Request.gain_mode mode) s steady fits = set_tuner_gain_mode-Done mode s steady
  perform-Done (Request.correction ppm) s steady tunes = set_freq_correction-Done ppm s steady tunes
  perform-Done (Request.center_freq f) s steady tunes =
      set_center_freq-Done force_bt t m kind strings apply_ppm f s steady tunes
  perform-Done (Request.bandwidth bw) s steady tunes = set_tuner_bandwidth-Done bw s steady tunes

  go_on-Done :
      (rest : Device → ℤ × Device) (result : ℤ × Device)
      → Done IsSteady result
      → (is_neg result.0 ≡ false → IsSteady result.1 → Done IsSteady (rest result.1))
      → Done IsSteady (go_on apply_ppm rest result)
  go_on-Done rest (r, s) d next = elim (Bool-cases (is_neg r)) [
    | inl e ↦ rw (e, go_on) (inl e)
    | inr e ↦ rw (e, go_on) (elim d [ inl neg ↦ cc | inr steady ↦ next e steady ])
  ]

  -- An R820T or R828D in sync with its driver and in use stays so through gain, gain mode, frequency,
  -- bandwidth and clock correction calls, in any number and order, as long as each frequency that is
  -- tuned to keeps the tuner in use; or the last call made has returned a negative code.
  pub session-Steady :
      (requests : List Request) (s : Device)
      → IsSteady s
      → AllFit apply_ppm requests s
      → Done IsSteady (session apply_ppm requests s)
  unfolding session
  session-Steady [] s steady fits = inr steady
  session-Steady (r ∷ rest) s steady fits =
      go_on-Done (session apply_ppm rest) (perform apply_ppm r s) (perform-Done r s steady fits.0)
        (λ e next. session-Steady rest (perform apply_ppm r s).1 next (fits.1 e))
