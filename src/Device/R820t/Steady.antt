-- ===== src/Device/R820t/Steady.antt =====
-- What keeps an R820T or R828D in sync with its driver under the calls of rtl-sdr/src/librtlsdr.c.
use ebc_sdr_native.Prelude.{
  ℕ, ◌+◌, ◌*◌, ◌%◌, ◌≡◌, ◌≢◌, ◌⊎◌, inl, inr, refl, ◌∙◌, sym, arith, Bool, true, false, bit_or,
  Bool-cases,
}
use ebc_sdr_native.Prelude.Int.{ℤ, pos, negsuc, is_neg, ◌==ℤ◌, ◌||ℤ◌}
use ebc_sdr_native.Registers
use ebc_sdr_native.Registers.Tuner.{IsTuner, Implements, tuner_bus}
use ebc_sdr_native.R82xx.{RtlDev, Priv, St, Run, ok, err, hang, Cmd}
use ebc_sdr_native.R82xx.Regs.Sync.{InSync, Settles, Any}
use ebc_sdr_native.Device.{TunerKind, Radio, Op, repeated}
use ebc_sdr_native.Device.Clock.{set_if_freq}
use ebc_sdr_native.Device.R820t.{r820t, on_device, returned}

module _ {k : Registers.Control} (t : IsTuner k) where
  -- a write to the demodulator does not reach the tuner
  pub demod_keeps :
      (b : k.Bus) (page addr val len a : ℕ)
      → bit_or 0x10 page ≢ 0x610
      → t.chip (Registers.demod_write_reg k b page addr val len).1 a ≡ t.chip b a
  demod_keeps b page addr val len a h =
      let sent =
        k.send b (bit_or (addr * 256 % 65536) 0x20) (bit_or 0x10 page)
          (Registers.reg_bytes val len) in
      elim (Bool-cases (sent.0 ==ℤ pos len)) [
        | inl e ↦ rw e (t.receive_keeps _ _ _ _ a ∙ t.send_keeps b _ _ a _ h)
        | inr e ↦ rw e (t.receive_keeps _ _ _ _ a ∙ t.send_keeps b _ _ a _ h)
      ]

  pub repeater_keeps :
      (b : k.Bus) (on : Bool) (a : ℕ) → t.chip (Registers.set_i2c_repeater k b on) a ≡ t.chip b a
  unfolding Registers.set_i2c_repeater
  repeater_keeps b on a = demod_keeps b 1 0x01 _ 1 a (λ e. omega (arith, e))

-- An operation that is done: it failed with a negative code, or the state has the property.
abbrev pub Done : {A : Type 0} → (A → Type 0) → ℤ × A → Type 0
Done P (r, s) = (is_neg r ≡ true) ⊎ P s

pub or_neg : (a b : ℤ) → is_neg b ≡ true → is_neg (a ||ℤ b) ≡ true
or_neg (pos a) (pos b) e = cc
or_neg (pos a) (negsuc b) e = refl
or_neg (negsuc a) (pos b) e = cc
or_neg (negsuc a) (negsuc b) e = refl

module _ {k : Registers.Control} (force_bt : Bool) (t : IsTuner k)
    (m : Implements (tuner_bus k force_bt) t.chip) where
  -- the shadow of the driver is what the tuner holds, for this state of the driver and of the bus
  abbrev pub Synced : Priv → k.Bus → Type 0
  Synced p b = InSync m.is_chip (on_device k force_bt p b)

  pub moved :
      (p : Priv) (b b' : k.Bus) → ((a : ℕ) → t.chip b' a ≡ t.chip b a) → Synced p b → Synced p b'
  moved p b b' keeps sync = record {
    sized = sync.sized;
    room = sync.room;
    same =
        λ j h. m.same_chip b' (5 + j) ∙ keeps (5 + j) ∙ sym (m.same_chip b (5 + j)) ∙ sync.same j h;
  }

  -- what an operation of the tuner interface leaves
  abbrev pub ChipDone : ℤ × Priv × k.Bus → Type 0
  ChipDone (r, p, b) = (is_neg r ≡ true) ⊎ Synced p b

  -- what a command returns to the tuner interface
  pub returned-Done :
      {A : Type 0} (code : A → ℤ) (p : Priv) (b : k.Bus) (run : Run (tuner_bus k force_bt) A)
      → Settles m.is_chip Any run
      → ChipDone (returned code p b run)
  returned-Done code p b (ok a s) (sync, _) = inr sync
  returned-Done code p b (err r s) e = inl e
  returned-Done code p b hang e = absurd e

  module _ (kind : TunerKind) (strings : RtlDev) where
    abbrev pub Device : Type 0
    Device = Radio k (r820t k force_bt kind strings)

    abbrev pub InTune : Device → Type 0
    InTune s = Synced s.chip s.bus

    -- an operation of the tuner between the two calls of rtlsdr_set_i2c_repeater()
    pub repeated-Done :
        (op : Op k Priv)
        → ((p : Priv) (b : k.Bus) → Synced p b → ChipDone (op p b))
        → (s : Device) → InTune s
        → Done InTune (repeated op s)
    unfolding repeated
    repeated-Done op done s sync =
        let on = Registers.set_i2c_repeater k s.bus true in
        elim (done s.chip on (moved s.chip s.bus on (repeater_keeps t s.bus true) sync)) [
          | inl e ↦ inl e
          | inr q ↦
              let (r, p, b) = op s.chip on in
              inr (moved p b (Registers.set_i2c_repeater k b false) (repeater_keeps t b false) q)
        ]

    -- a command of the driver as an operation of the tuner
    pub command-Done :
        {A : Type 0} (code : A → ℤ) (cmd : Cmd (tuner_bus k force_bt) A)
        → ((s : St (tuner_bus k force_bt)) → InSync m.is_chip s → Settles m.is_chip Any (cmd s))
        → (s : Device) → InTune s
        → Done InTune (repeated (λ p b. returned code p b (cmd (on_device k force_bt p b))) s)
    command-Done code cmd settles =
        repeated-Done (λ p b. returned code p b (cmd (on_device k force_bt p b)))
          (λ p b sync. returned-Done code p b _ (settles (on_device k force_bt p b) sync))

    pub set_if_freq-InTune :
        (apply_ppm : ℕ → ℤ → ℕ) (freq : ℕ) (s : Device)
        → InTune s
        → InTune (set_if_freq apply_ppm freq s).1
    unfolding set_if_freq
    set_if_freq-InTune apply_ppm freq s sync =
        moved s.chip s.bus _
          (λ a.
            demod_keeps t _ 1 0x1b _ 1 a (λ e. omega (arith, e))
            ∙ demod_keeps t _ 1 0x1a _ 1 a (λ e. omega (arith, e))
            ∙ demod_keeps t s.bus 1 0x19 _ 1 a (λ e. omega (arith, e)))
          sync
