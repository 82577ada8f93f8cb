-- ===== src/Device/Tune/InUse.antt =====
-- rtlsdr_set_center_freq() of rtl-sdr/src/librtlsdr.c while the device does not leave the tuner for
-- direct sampling.
use ebc_sdr_native.Prelude.{ℕ, Option, some, ◌≡◌, inl, inr, refl, sym, ◌∙◌, Bool-cases}
use ebc_sdr_native.Prelude.Int.{ℤ, pos}
use ebc_sdr_native.Registers
use ebc_sdr_native.Device.{Tuner, Radio, is_zero}
use ebc_sdr_native.Device.Tune.{choose_mode, attempt, set_center_freq, finished}
use ebc_sdr_native.Device.Tune.Frame.{==ℤ-of, attempt_mode, attempt_forced, stop}

module _ {k : Registers.Control} {t : Tuner k} (apply_ppm : ℕ → ℤ → ℕ) where
  finished-some :
      (result : ℤ × Radio k t) (s : Radio k t) {o : Option (ℤ × Radio k t)}
      → o ≡ some result
      → finished apply_ppm o s ≡ result
  finished-some result s e = rw e

  set_center_freq-attempt :
      (freq : ℕ) (s : Radio k t)
      → s.direct_sampling ≡ pos 0
      → (attempt apply_ppm freq s).1.direct_sampling ≡ pos 0
      → set_center_freq apply_ppm freq s ≡ attempt apply_ppm freq s
  unfolding set_center_freq
  set_center_freq-attempt freq s e e' = finished-some (attempt apply_ppm freq s) s (
      stop apply_ppm 2 freq s (rw e refl)
        (==ℤ-of s.direct_sampling (attempt apply_ppm freq s).1.direct_sampling (e ∙ sym e')))

  pub attempt-in_use :
      (freq : ℕ) (s : Radio k t)
      → s.direct_sampling ≡ pos 0
      → (choose_mode apply_ppm freq s).direct_sampling ≡ pos 0
      → (attempt apply_ppm freq s).1.direct_sampling ≡ pos 0
  unfolding choose_mode
  attempt-in_use freq s e tunes = elim (Bool-cases (is_zero s.direct_sampling_mode)) [
    | inl q ↦ attempt_mode apply_ppm freq s q ∙ rw q at tunes
    | inr q ↦ attempt_forced apply_ppm freq s q ∙ e
  ]

  pub set_center_freq-in_use :
      (freq : ℕ) (s : Radio k t)
      → s.direct_sampling ≡ pos 0
      → (choose_mode apply_ppm freq s).direct_sampling ≡ pos 0
      → set_center_freq apply_ppm freq s ≡ attempt apply_ppm freq s
  set_center_freq-in_use freq s e tunes =
      set_center_freq-attempt freq s e (attempt-in_use freq s e tunes)
