-- ===== src/Device/R820t/Tuned.antt =====
-- Tuning an R820T or R828D by rtlsdr_set_center_freq() of rtl-sdr/src/librtlsdr.c, while the device does
-- not leave the tuner for direct sampling.
use ebc_sdr_native.Prelude.{ℕ, ◌+◌, ◌-◌, ◌%◌, ◌≡◌, inl, inr, refl, Bool, true}
use ebc_sdr_native.Prelude.Int.{ℤ, pos}
use ebc_sdr_native.Registers
use ebc_sdr_native.Registers.Tuner.{IsTuner, Implements, tuner_bus}
use ebc_sdr_native.R82xx.{RtlDev}
use ebc_sdr_native.R82xx.Freq.{set_freq}
use ebc_sdr_native.R82xx.Calls.{set_freq-Settles}
use ebc_sdr_native.Device.{TunerKind, Radio, is_zero, if_present}
use ebc_sdr_native.Device.Tune.{choose_mode, tune, attempt, set_center_freq}
use ebc_sdr_native.Device.Tune.InUse.{attempt-in_use, set_center_freq-in_use}
use ebc_sdr_native.Device.R820t.{r820t, success}
use ebc_sdr_native.Device.R820t.Steady.{Done, InTune, command-Done}

module _ {k : Registers.Control} (force_bt : Bool) (t : IsTuner k)
    (m : Implements (tuner_bus k force_bt) t.chip) (kind : TunerKind) (strings : RtlDev)
    (apply_ppm : ℕ → ℤ → ℕ) where
  abbrev Device : Type 0
  Device = Radio k (r820t k force_bt kind strings)

  abbrev Synced : Device → Type 0
  Synced = InTune force_bt t m kind strings

  -- the shadow is what the tuner holds, and the tuner is in use
  pub record Steady (s : Device) : Type 0 where
    pub synced : Synced s
    pub in_use : s.direct_sampling ≡ pos 0

  tune-Done :
      (freq : ℕ) (s : Device)
      → is_zero s.direct_sampling ≡ true
      → Synced s
      → Done Synced (tune apply_ppm freq s)
  unfolding tune if_present
  tune-Done freq s e sync =
      rw (e, tune)
        (command-Done force_bt t m kind strings success
          (set_freq ((freq + 4294967296 - s.offs_freq) % 4294967296))
          (set_freq-Settles m.is_chip ((freq + 4294967296 - s.offs_freq) % 4294967296)) s sync)

  attempt-Done :
      (freq : ℕ) (s : Device)
      → (choose_mode apply_ppm freq s).direct_sampling ≡ pos 0
      → Synced s
      → Done Synced (attempt apply_ppm freq s)
  unfolding attempt choose_mode
  attempt-Done freq s tunes sync =
      tune-Done freq (choose_mode apply_ppm freq s) (rw tunes refl) sync

  -- a frequency that keeps the tuner in use
  pub set_center_freq-Done :
      (freq : ℕ) (s : Device)
      → Steady s
      → (choose_mode apply_ppm freq s).direct_sampling ≡ pos 0
      → Done Steady (set_center_freq apply_ppm freq s)
  set_center_freq-Done freq s steady tunes =
      rw (set_center_freq-in_use apply_ppm freq s steady.in_use tunes)
        (elim (attempt-Done freq s tunes steady.synced) [
          | inl e ↦ inl e
          | inr q ↦
              inr (record {
                synced = q;
                in_use = attempt-in_use apply_ppm freq s steady.in_use tunes;
              })
        ])
