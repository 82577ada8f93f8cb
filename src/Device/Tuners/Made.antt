-- ===== src/Device/Tuners/Made.antt =====
-- How what a call leaves in the registers of a tuner reaches the caller of rtlsdr_set_center_freq() of
-- rtl-sdr/src/librtlsdr.c, while the device does not leave the tuner for direct sampling.
use ebc_sdr_native.Prelude.{
  ℕ, ◌+◌, ◌-◌, ◌%◌, ◌≤◌, ◌<◌, ◌≡◌, ◌⊎◌, inl, inr, refl, sym, arith, Bool, true, false, Option, none,
  some, Bool-cases, if◌then◌else◌,
}
use ebc_sdr_native.Prelude.Int.{ℤ, pos, negsuc}
use ebc_sdr_native.Registers
use ebc_sdr_native.Registers.Tuner.{IsTuner, Implements, tuner_bus}
use ebc_sdr_native.Device.{Tuner, Radio, Op, is_zero, repeated, if_present}
use ebc_sdr_native.Device.Tune.{choose_mode, tune, attempt, apply_to, set_center_freq}
use ebc_sdr_native.Device.Tune.InUse.{set_center_freq-in_use}
use ebc_sdr_native.Device.R820t.Steady.{repeater_keeps}
use ebc_sdr_native.Fitipower.Programmed.{Ends}
use ebc_sdr_native.Fc2580.Calls.{status}
use ebc_sdr_native.Fc2580.Programmed
use ebc_sdr_native.Device.Tuners.{clocked, coded}
use mathlib.Core.Path.{subst}

-- A call that failed, or whose state has the property.
abbrev pub Done : {S : Type 0} → (S → Type 0) → ℤ × S → Type 0
Done P (r, s) = (is_zero r ≡ false) ⊎ P s

-- an operation of the tuner that failed, or has left the property on the bus
abbrev pub OpDone : {Chip Bus : Type 0} → (Bus → Type 0) → ℤ × Chip × Bus → Type 0
OpDone P (r, chip, b) = (is_zero r ≡ false) ⊎ P b

module _ {k : Registers.Control} (t : IsTuner k) {tuner : Tuner k} (P : (ℕ → ℕ) → Type 0) where
  abbrev Made : Radio k tuner → Type 0
  Made s = P (t.chip s.bus)

  -- what the operation of the tuner leaves in its registers is there after the repeater is off
  pub repeated-Done :
      (op : Op k tuner.Chip) (s : Radio k tuner)
      → ((b : k.Bus) → OpDone (λ b'. P (t.chip b')) (op s.chip b))
      → Done Made (repeated op s)
  unfolding repeated
  repeated-Done op s answers = elim (answers (Registers.set_i2c_repeater k s.bus true)) [
    | inl e ↦ inl e
    | inr p ↦
        let (r, chip, b) = op s.chip (Registers.set_i2c_repeater k s.bus true) in
        inr (subst P (sym (λ i a. repeater_keeps t b false a i)) p)
  ]

  stored-Done :
      (freq : ℕ) (r : ℤ) (s : Radio k tuner)
      → Done Made (r, s)
      → Done
          (λ s'. Made s' × (s'.freq ≡ freq))
          (r, record s { freq = if is_zero r then freq else 0 })
  stored-Done freq r s (inl e) = inl e
  stored-Done freq r s (inr p) = elim (Bool-cases (is_zero r)) [
    | inl e ↦ inr (p, rw e refl)
    | inr e ↦ inl e
  ]

  module _ (apply_ppm : ℕ → ℤ → ℕ) where
    tune-Done :
        (freq : ℕ) (s : Radio k tuner)
        → s.direct_sampling ≡ pos 0
        → Done Made (
            if_present
              (negsuc 0)
              (apply_to tuner.set_freq ((freq + 4294967296 - s.offs_freq) % 4294967296))
              s)
        → Done Made (tune apply_ppm freq s)
    unfolding tune
    tune-Done freq s e answer =
        let z : is_zero s.direct_sampling ≡ true = rw e refl in rw (z, tune) answer

    pub set_center_freq-Done :
        (freq : ℕ) (s : Radio k tuner)
        → s.direct_sampling ≡ pos 0
        → (choose_mode apply_ppm freq s).direct_sampling ≡ pos 0
        → Done Made (
            if_present
              (negsuc 0)
              (apply_to tuner.set_freq ((freq + 4294967296 - s.offs_freq) % 4294967296))
              (choose_mode apply_ppm freq s))
        → Done (λ s'. Made s' × (s'.freq ≡ freq)) (set_center_freq apply_ppm freq s)
    unfolding attempt choose_mode
    set_center_freq-Done freq s e tunes answer =
        rw (set_center_freq-in_use apply_ppm freq s e tunes) (
          stored-Done freq (tune apply_ppm freq (choose_mode apply_ppm freq s)).0
            (tune apply_ppm freq (choose_mode apply_ppm freq s)).1
            (tune-Done freq (choose_mode apply_ppm freq s) tunes answer))

pub tuned_lem :
    (freq offs : ℕ)
    → offs ≤ freq
    → freq < 4294967296
    → (freq + 4294967296 - offs) % 4294967296 ≡ freq - offs
tuned_lem freq offs h b = omega arith

module _ {k : Registers.Control} (force_bt : Bool) (t : IsTuner k)
    (m : Implements (tuner_bus k force_bt) t.chip) where
  pub coded-OpDone :
      {A : Type 0} (Q : (ℕ → ℕ) → Type 0) (clock : ℕ) (result : Option A × k.Bus)
      → Ends (λ _ b'. Q (m.is_chip.chip b')) result
      → OpDone (λ b'. Q (t.chip b')) (coded k force_bt clock result)
  coded-OpDone Q clock (none, b) p = inl refl
  coded-OpDone Q clock (some x, b) p = inr (subst Q (λ i a. m.same_chip b a i) p)

  pub clocked-OpDone :
      (Q : (ℕ → ℕ) → Type 0) (clock : ℕ) (result : Bool × k.Bus)
      → Programmed.Ends (λ b'. Q (m.is_chip.chip b')) result
      → OpDone (λ b'. Q (t.chip b')) (clocked k force_bt clock (status result))
  clocked-OpDone Q clock (false, b) p = inl refl
  clocked-OpDone Q clock (true, b) p = inr (subst Q (λ i a. m.same_chip b a i) p)
