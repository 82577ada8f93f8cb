-- ===== src/Device/Tune.antt =====
-- rtlsdr_set_center_freq(), rtlsdr_set_direct_sampling() and _rtlsdr_set_direct_sampling() of
-- rtl-sdr/src/librtlsdr.c. Tuning may switch direct sampling, which tunes again: the calls are counted
-- by fuel.
pub mod Ends
pub mod Frame
pub mod InUse
pub mod Settles
use ebc_sdr_native.Prelude.{
  ℕ, zero, suc, ◌+◌, ◌-◌, ◌%◌, Bool, true, false, not, ◌&&◌, Option, none, some, ltb, if◌then◌else◌,
}
use ebc_sdr_native.Prelude.Int.{◌||ℤ◌, ℤ, pos, negsuc, ◌==ℤ◌, ltb_ℤ, is_neg}
use ebc_sdr_native.Registers
use ebc_sdr_native.R82xx.Model.{is_v4l}
use ebc_sdr_native.Device.{
  Tuner, Radio, Op, demod, or_then, if_present, is_zero, is_rafael, is_r820t, repeated,
}
use ebc_sdr_native.Device.Clock.{set_if_freq, tuner_clock}

abbrev pub r82xx_if_freq : ℕ
r82xx_if_freq = 3570000

abbrev pub apply_to : {A B : Type 0} → Option (A → B) → A → Option B
apply_to none a = none
apply_to (some f) a = some (f a)

abbrev pub also : {A B : Type 0} → Option A → (A → B) → Option B
also none f = none
also (some a) f = some (f a)

module _ {k : Registers.Control} {t : Tuner k} (apply_ppm : ℕ → ℤ → ℕ) where
  -- the mode that a frequency asks for while the user has not forced one
  unfoldable pub auto_mode : Radio k t → ℕ → ℤ
  unfolding is_v4l
  auto_mode s freq =
      if ltb freq 24000000 && is_r820t s.tuner_type && not (is_v4l s.strings) then pos 2 else pos 0

  unfoldable pub choose_mode : ℕ → Radio k t → Radio k t
  unfolding auto_mode
  choose_mode freq s = record s {
    direct_sampling =
        if is_zero s.direct_sampling_mode then auto_mode s freq else s.direct_sampling;
  }

  -- the tuning itself: by the intermediate frequency in direct sampling, else by the tuner
  unfoldable pub tune : ℕ → Radio k t → ℤ × Radio k t
  unfolding if_present set_if_freq Registers.set_i2c_repeater
  tune freq s = elim (is_zero s.direct_sampling) [
    | false ↦
        set_if_freq apply_ppm freq (record s { bus = Registers.set_i2c_repeater k s.bus false })
    | true ↦
        if_present (negsuc 0) (apply_to t.set_freq ((freq + 4294967296 - s.offs_freq) % 4294967296))
          s
  ]

  -- rtlsdr_set_center_freq() up to the comparison with the former mode
  unfoldable pub attempt : ℕ → Radio k t → ℤ × Radio k t
  unfolding choose_mode tune
  attempt freq s =
      let (r, s') = tune freq (choose_mode freq s) in
      (r, record s' { freq = if is_zero r then freq else 0 })

  unfoldable pub enable_direct : ℤ → Radio k t → ℤ × Radio k t
  unfolding if_present
  enable_direct on s =
      let (r, s') =
        or_then
          (or_then
            (or_then (or_then (if_present (pos 0) t.exit s) (λ s. demod s 1 0xb1 0x1a 1))
              (λ s. demod s 1 0x15 0x00 1))
            (λ s. demod s 0 0x08 0x4d 1))
          (λ s. demod s 0 0x06 (if ltb_ℤ (pos 1) on then 0x90 else 0x80) 1) in
      (r, record s' { direct_sampling = on })

  -- the tuner's initialisation loads the corrected clock
  unfoldable pub init_tuner : Radio k t → ℤ × Radio k t
  unfolding if_present
  init_tuner s = if_present (pos 0) (apply_to t.init (tuner_clock apply_ppm s)) s

  unfoldable pub to_tuner_mode : Radio k t → ℤ × Radio k t
  unfolding set_if_freq
  to_tuner_mode s = elim (is_rafael s.tuner_type) [
    | true ↦ or_then (set_if_freq apply_ppm r82xx_if_freq s) (λ s. demod s 1 0x15 0x01 1)
    | false ↦
        or_then (or_then (set_if_freq apply_ppm 0 s) (λ s. demod s 0 0x08 0xcd 1))
          (λ s. demod s 1 0xb1 0x1b 1)
  ]

  unfoldable pub disable_direct : Radio k t → ℤ × Radio k t
  unfolding init_tuner to_tuner_mode
  disable_direct s =
      let (r, s') = or_then (or_then (init_tuner s) to_tuner_mode) (λ s. demod s 0 0x06 0x80 1) in
      (r, record s' { direct_sampling = pos 0 })

  -- _rtlsdr_set_direct_sampling() without its last call
  unfoldable pub switch_mode : ℤ → Radio k t → ℤ × Radio k t
  unfolding enable_direct disable_direct
  switch_mode on s = elim (is_zero on) [ true ↦ disable_direct s | false ↦ enable_direct on s ]

  abbrev pub or_code : ℤ → ℤ × Radio k t → ℤ × Radio k t
  or_code r (r', s) = (r ||ℤ r', s)

  -- rtlsdr_set_center_freq(), or `none` when `n` calls of it do not do. It returns 1 if the former mode
  -- is negative.
  unfoldable pub center_freq_loop : ℕ → ℕ → Radio k t → Option (ℤ × Radio k t)
  unfolding attempt switch_mode
  center_freq_loop zero freq s = none
  center_freq_loop (suc n) freq s = elim (is_neg s.direct_sampling) [
    | true ↦ some (pos 1, s)
    | false ↦
        let (r, s1) = attempt freq s in
        elim (s.direct_sampling ==ℤ s1.direct_sampling) [
          | true ↦ some (r, s1)
          | false ↦
              let (r2, s2) = switch_mode s1.direct_sampling s1 in
              also (center_freq_loop n s2.freq s2) (or_code r2)
        ]
  ]

  -- Three calls always do, so that the last clause is never taken.
  abbrev pub finished : Option (ℤ × Radio k t) → Radio k t → ℤ × Radio k t
  finished (some result) s = result
  finished none s = (negsuc 0, s)

  unfoldable pub set_center_freq : ℕ → Radio k t → ℤ × Radio k t
  unfolding center_freq_loop
  set_center_freq freq s = finished (center_freq_loop 3 freq s) s

  -- _rtlsdr_set_direct_sampling()
  unfoldable pub change_direct_sampling : ℤ → Radio k t → ℤ × Radio k t
  unfolding switch_mode set_center_freq
  change_direct_sampling on s = or_then (switch_mode on s) (λ s. set_center_freq s.freq s)

  unfoldable pub set_direct_sampling : ℤ → Radio k t → ℤ × Radio k t
  unfolding change_direct_sampling
  set_direct_sampling on s = change_direct_sampling on (record s { direct_sampling_mode = on })
