-- ===== src/Device/R820t/Requests.antt =====
-- A sequence of calls of the control functions in rtl-sdr/src/librtlsdr.c on a device with an R820T or
-- R828D, up to the first that fails: gain, gain mode, frequency, bandwidth and clock correction.
pub mod Kept
use ebc_sdr_native.Prelude.{
  ℕ, ◌≡◌, ◌⊎◌, inl, inr, refl, sym, ap, ◌∙◌, arith, Bool, true, false, not, List, [], ◌∷◌, ◌==◌,
  Bool-cases,
}
use ebc_sdr_native.Prelude.Int.{ℤ, pos, negsuc, is_neg, ◌==ℤ◌, ◌||ℤ◌, eq_of_parts}
use ebc_sdr_native.Registers
use ebc_sdr_native.Registers.Tuner.{IsTuner, Implements, tuner_bus}
use ebc_sdr_native.R82xx.{RtlDev, Priv}
use ebc_sdr_native.R82xx.Gain.{set_gain}
use ebc_sdr_native.R82xx.Freq.{set_freq}
use ebc_sdr_native.R82xx.Bandwidth.{set_bandwidth}
use ebc_sdr_native.R82xx.Calls.{set_freq-Settles, set_gain-Settles, set_bandwidth-Settles}
use ebc_sdr_native.Device.{TunerKind, Tuner, Radio, SetBw, is_zero, if_present}
use ebc_sdr_native.Device.Clock.{set_if_freq, set_sample_freq_correction, tuner_clock}
use ebc_sdr_native.Device.Tune.{choose_mode, auto_mode, tune, attempt, set_center_freq, finished}
use ebc_sdr_native.Device.Tune.Frame.{is_zero→eq, ==ℤ-of, attempt_mode, attempt_forced, stop}
use ebc_sdr_native.Device.Settings.{
  set_tuner_gain, set_tuner_gain_mode, set_tuner_bandwidth, set_freq_correction, retune,
  call_set_bw, to_int, tune_again, load_clock,
}
use ebc_sdr_native.Device.R820t.{r820t, on_device, returned, success}
use ebc_sdr_native.Device.R820t.Steady.{
  Done, demod_keeps, repeater_keeps, or_neg, moved, returned-Done, InTune, repeated-Done,
  set_if_freq-InTune,
}

pub data Request : Type 0 where
  gain gain_mode correction : ℤ → Request
  center_freq bandwidth : ℕ → Request

module _ {k : Registers.Control} {t : Tuner k} (apply_ppm : ℕ → ℤ → ℕ) where
  abbrev pub perform : Request → Radio k t → ℤ × Radio k t
  perform (Request.gain g) s = set_tuner_gain g s
  perform (Request.gain_mode m) s = set_tuner_gain_mode m s
  perform (Request.correction ppm) s = set_freq_correction apply_ppm ppm s
  perform (Request.center_freq f) s = set_center_freq apply_ppm f s
  perform (Request.bandwidth bw) s = set_tuner_bandwidth apply_ppm bw s

  abbrev go_on : (Radio k t → ℤ × Radio k t) → ℤ × Radio k t → ℤ × Radio k t
  go_on rest (r, s) = elim (is_neg r) [ true ↦ (r, s) | false ↦ rest s ]

  -- the requests one after the other, up to the first with a negative code
  pub session : List Request → Radio k t → ℤ × Radio k t
  session [] s = (pos 0, s)
  session (r ∷ rest) s = go_on (session rest) (perform r s)

  -- a frequency for which the device does not leave the tuner for direct sampling
  abbrev pub Tunes : ℕ → Radio k t → Type 0
  Tunes freq s = (choose_mode apply_ppm freq s).direct_sampling ≡ pos 0

  -- the frequency that a request tunes to is one of these
  abbrev pub Fits : Request → Radio k t → Type 0
  Fits (Request.gain g) s = Unit {0}
  Fits (Request.gain_mode m) s = Unit {0}
  Fits (Request.correction ppm) s = Tunes s.freq s
  Fits (Request.center_freq f) s = Tunes f s
  Fits (Request.bandwidth bw) s = Tunes s.freq s

  -- and so for each in its turn
  abbrev pub AllFit : List Request → Radio k t → Type 0
  AllFit [] s = Unit {0}
  AllFit (r ∷ rest) s = Fits r s × (is_neg (perform r s).0 ≡ false → AllFit rest (perform r s).1)
