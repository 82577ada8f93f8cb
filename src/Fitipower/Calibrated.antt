-- ===== src/Fitipower/Calibrated.antt =====
-- The calibration of the VCO and the whole of fc0012_set_params() and fc0013_set_params(), of
-- rtl-sdr/src/tuner_fc0012.c and rtl-sdr/src/tuner_fc0013.c, on a chip.
use ebc_sdr_native.Prelude.{
  ℕ, ◌/◌, ◌≡◌, inl, inr, refl, arith, Bool, true, false, Bool-cases, Option, none, some, [], ◌∷◌,
  ltb, bit_and, bit_or, ◌==◌, if◌then◌else◌, ap, ◌∙◌,
}
use ebc_sdr_native.Prelude.Bits.{test_bit, test_bit-bit_and, test_bit-bit_or}
use ebc_sdr_native.I2c.{I2c, IsChip, AllOrNothing}
use ebc_sdr_native.Fitipower.{
  Cmd, and_then, writereg, readreg, write_regs, Settings, make, settings, Divider, is_valid, cycles,
  xdiv_of, vco_freq, or_fail, switch_vco, choose_vco, calibrate,
}
use ebc_sdr_native.Fitipower.Pll.{reg}
use ebc_sdr_native.Fitipower.Programmed.{
  Ends, bind-Ends, map-Ends, writereg-Ends, readreg-Ends, write_regs-Ends, Programmed, At,
  writereg-At, readreg-At, switch_vco-At,
}
use ebc_sdr_native.Fitipower.Fc0012
use ebc_sdr_native.Fitipower.Fc0013

any-Ends : {S A : Type 0} (m : Option A × S) → Ends (λ _ _. Unit {0}) m
any-Ends (none, b) = tt
any-Ends (some a, b) = tt

module _ {i : I2c} (c : IsChip i) (full : AllOrNothing i) where
  module _ (s : Settings) where
    abbrev Done : Unit {0} → i.Bus → Type 0
    Done _ b = Programmed c s b

    choose_vco-Done :
        (high : Bool) (tmp : ℕ) (b : i.Bus)
        → At c s s.reg6 tt b
        → Ends Done (choose_vco i high s.reg6 tmp b)
    unfolding choose_vco
    choose_vco-Done true tmp b at = elim (Bool-cases (ltb 0x3c tmp)) [
      | inl e ↦ rw e (
          map-Ends (switch_vco i (bit_and s.reg6 0xf7) b)
            (λ _ b' q. record { holds = q.0; six = inr (inl q.1) })
            (switch_vco-At c full s s.reg6 (bit_and s.reg6 0xf7) b at))
      | inr e ↦ rw e (record { holds = at.0; six = inl at.1 })
    ]
    choose_vco-Done false tmp b at = elim (Bool-cases (ltb tmp 0x02)) [
      | inl e ↦ rw e (
          map-Ends (switch_vco i (bit_or s.reg6 0x08) b)
            (λ _ b' q. record { holds = q.0; six = inr (inr q.1) })
            (switch_vco-At c full s s.reg6 (bit_or s.reg6 0x08) b at))
      | inr e ↦ rw e (record { holds = at.0; six = inl at.1 })
    ]

    abbrev InSix : {A : Type 0} → A → i.Bus → Type 0
    InSix = At c s s.reg6

    calibrate-Done : (b : i.Bus) → At c s s.reg6 tt b → Ends Done (calibrate i s b)
    unfolding calibrate
    calibrate-Done b at =
        bind-Ends InSix Done (writereg i 0x0e 0x80 b) _ (step 0x80 b at) (λ _ b1 at1.
          bind-Ends InSix Done (writereg i 0x0e 0x00 b1) _ (step 0x00 b1 at1) (λ _ b2 at2.
            bind-Ends InSix Done (writereg i 0x0e 0x00 b2) _ (step 0x00 b2 at2) (λ _ b3 at3.
              bind-Ends InSix Done (readreg i 0x0e b3) _ (readreg-At c full s s.reg6 0x0e b3 at3)
                (λ tmp b4 at4. choose_vco-Done s.vco_select (bit_and tmp 0x3f) b4 at4))))
      where
        step : (val : ℕ) (b : i.Bus) → At c s s.reg6 tt b → Ends InSix (writereg i 0x0e val b)
        step val b at = writereg-At c full s s.reg6 0x0e val b (omega arith) at

  -- the registers 1 to 6 as the settings have them
  written :
      (r1 r2 r3 r4 r5 r6 : ℕ) (high : Bool) (b : i.Bus)
      → let s : Settings = record {
        regs = r1 ∷ r2 ∷ r3 ∷ r4 ∷ r5 ∷ r6 ∷ [];
        reg6 = r6;
        vco_select = high;
      } in
        Ends (At c s r6) (write_regs i 1 s.regs b)
  written r1 r2 r3 r4 r5 r6 high b =
      map-Ends (write_regs i 1 (r1 ∷ r2 ∷ r3 ∷ r4 ∷ r5 ∷ r6 ∷ []) b)
        (λ _ b' burned. (
          record {
            one = burned 1;
            two = burned 2;
            three = burned 3;
            four = burned 4;
            five = burned 5;
          },
          burned 6,
        ))
        (write_regs-Ends c full (r1 ∷ r2 ∷ r3 ∷ r4 ∷ r5 ∷ r6 ∷ []) 1 b)

  made-written :
      (d : Divider) (freq clock bandwidth : ℕ) (b : i.Bus)
      → let s = make d freq clock bandwidth in Ends (At c s s.reg6) (write_regs i 1 s.regs b)
  unfolding make
  made-written d freq clock bandwidth b =
      let s = make d freq clock bandwidth in
      written (reg s 1) (reg s 2) (reg s 3) (reg s 4) (reg s 5) s.reg6 s.vco_select b

  -- that the settings exist, and are on the chip
  abbrev pub Sets : Divider → (freq clock bandwidth : ℕ) → Unit {0} → i.Bus → Type 0
  Sets d freq clock bandwidth _ b =
      (settings d freq clock bandwidth ≡ some (make d freq clock bandwidth))
      × Programmed c (make d freq clock bandwidth) b

  -- The settings are computed, and `k` makes the calls for them.
  settings-Sets :
      (d : Divider) (freq clock bandwidth : ℕ) (Q : Unit {0} → i.Bus → Type 0)
      (k : Settings → Cmd i.Bus (Unit {0})) (b : i.Bus)
      → Ends Q (k (make d freq clock bandwidth) b)
      → Ends
          (λ u b'. (settings d freq clock bandwidth ≡ some (make d freq clock bandwidth)) × Q u b')
          (and_then (or_fail (settings d freq clock bandwidth) b) k)
  unfolding settings
  settings-Sets d freq clock bandwidth Q k b next =
      let valid = is_valid (cycles (xdiv_of (vco_freq freq d.multi) (clock / 2))) in
      elim (Bool-cases valid) [
        | inl e ↦
            let there : settings d freq clock bandwidth ≡ some (make d freq clock bandwidth) =
              rw (e, settings) refl in
            rw there (map-Ends (k (make d freq clock bandwidth) b) (λ _ b' q. (refl, q)) next)
        | inr e ↦
            let there : settings d freq clock bandwidth ≡ none = rw (e, settings) refl in
            rw there tt
      ]

  -- When fc0012_set_params() succeeds there are settings for the frequency, the registers 1 to 5 of the
  -- chip have them, and register 6 has them but for the bit of the VCO's range, which the calibration
  -- may have switched.
  pub fc0012_set_params-Sets :
      (clock freq bandwidth : ℕ) (b : i.Bus)
      → Ends
          (Sets (Fc0012.divider freq) freq clock bandwidth)
          (Fc0012.set_params i clock freq bandwidth b)
  unfolding Fc0012.set_params
  fc0012_set_params-Sets clock freq bandwidth b =
      let s = make (Fc0012.divider freq) freq clock bandwidth in
      settings-Sets (Fc0012.divider freq) freq clock bandwidth (Done s) _ b (
        bind-Ends (At c s s.reg6) (Done s) (write_regs i 1 s.regs b) _
          (made-written (Fc0012.divider freq) freq clock bandwidth b)
          (λ _ b1 at. calibrate-Done s b1 at))

  set_divider_64-At :
      (s : Settings) (multi : ℕ) (b : i.Bus)
      → At c s s.reg6 tt b
      → Ends (At c s s.reg6) (Fc0013.set_divider_64 i multi b)
  unfolding Fc0013.set_divider_64
  set_divider_64-At s multi b at =
      bind-Ends (At c s s.reg6) (At c s s.reg6) (readreg i 0x11 b) _
        (readreg-At c full s s.reg6 0x11 b at)
        (λ tmp b1 at1. writereg-At c full s s.reg6 0x11 _ b1 (omega arith) at1)

  -- register 0x11 is as it was
  abbrev Same : {A : Type 0} → i.Bus → A → i.Bus → Type 0
  Same b _ b' = c.chip b' 0x11 ≡ c.chip b 0x11

  same-Ends :
      {A : Type 0} (b b1 : i.Bus) (m : Option A × i.Bus)
      → Same b tt b1
      → Ends (Same b1) m
      → Ends (Same b) m
  same-Ends b b1 m e = map-Ends m (λ _ b2 e'. e' ∙ e)

  write_0e-Same : (val : ℕ) (b : i.Bus) → Ends (Same b) (writereg i 0x0e val b)
  write_0e-Same val b =
      map-Ends (writereg i 0x0e val b) (λ _ b' burned. burned 0x11)
        (writereg-Ends c full 0x0e val b)

  switch_vco-Same : (new : ℕ) (b : i.Bus) → Ends (Same b) (switch_vco i new b)
  unfolding switch_vco
  switch_vco-Same new b =
      bind-Ends (Same b) (Same b) (writereg i 0x06 new b) _
        (map-Ends (writereg i 0x06 new b) (λ _ b' burned. burned 0x11)
          (writereg-Ends c full 0x06 new b))
        (λ _ b1 e1.
          bind-Ends (Same b) (Same b) (writereg i 0x0e 0x80 b1) _
            (same-Ends b b1 _ e1 (write_0e-Same 0x80 b1))
            (λ _ b2 e2. same-Ends b b2 _ e2 (write_0e-Same 0x00 b2)))

  choose_vco-Same :
      (high : Bool) (reg6 tmp : ℕ) (b : i.Bus) → Ends (Same b) (choose_vco i high reg6 tmp b)
  unfolding choose_vco
  choose_vco-Same true reg6 tmp b = elim (Bool-cases (ltb 0x3c tmp)) [
    | inl e ↦ rw e (switch_vco-Same (bit_and reg6 0xf7) b)
    | inr e ↦ rw e refl
  ]
  choose_vco-Same false reg6 tmp b = elim (Bool-cases (ltb tmp 0x02)) [
    | inl e ↦ rw e (switch_vco-Same (bit_or reg6 0x08) b)
    | inr e ↦ rw e refl
  ]

  calibrate-Same : (s : Settings) (b : i.Bus) → Ends (Same b) (calibrate i s b)
  unfolding calibrate
  calibrate-Same s b =
      bind-Ends (Same b) (Same b) (writereg i 0x0e 0x80 b) _ (write_0e-Same 0x80 b) (λ _ b1 e1.
        bind-Ends (Same b) (Same b) (writereg i 0x0e 0x00 b1) _
          (same-Ends b b1 _ e1 (write_0e-Same 0x00 b1))
          (λ _ b2 e2.
            bind-Ends (Same b) (Same b) (writereg i 0x0e 0x00 b2) _
              (same-Ends b b2 _ e2 (write_0e-Same 0x00 b2))
              (λ _ b3 e3.
                bind-Ends (Same b) (Same b) (readreg i 0x0e b3) _
                  (same-Ends b b3 _ e3 (
                    map-Ends (readreg i 0x0e b3) (λ _ b' same. same 0x11)
                      (readreg-Ends c full 0x0e b3)))
                  (λ tmp b4 e4.
                    same-Ends b b4 _ e4
                      (choose_vco-Same s.vco_select s.reg6 (bit_and tmp 0x3f) b4)))))

  and-Ends :
      {S A : Type 0} (P Q : A → S → Type 0) (m : Option A × S)
      → Ends P m
      → Ends Q m
      → Ends (λ a b. P a b × Q a b) m
  and-Ends P Q (none, b) p q = tt
  and-Ends P Q (some a, b) p q = (p, q)

  -- bit 2 of register 0x11 says whether the divider is 64
  abbrev pub Marked : ℕ → Unit {0} → i.Bus → Type 0
  Marked multi _ b = test_bit (c.chip b 0x11) 2 ≡ (if multi == 64 then 1 else 0)

  mark :
      (multi tmp : ℕ)
      → test_bit (if multi == 64 then bit_or tmp 0x04 else bit_and tmp 0xfb) 2
        ≡ (if multi == 64 then 1 else 0)
  mark multi tmp = elim (Bool-cases (multi == 64)) [
    | inl e ↦ rw e (omega (arith, test_bit-bit_or 2 tmp 0x04))
    | inr e ↦ rw e (omega (arith, test_bit-bit_and 2 tmp 0xfb))
  ]

  set_divider_64-Marked :
      (multi : ℕ) (b : i.Bus) → Ends (Marked multi) (Fc0013.set_divider_64 i multi b)
  unfolding Fc0013.set_divider_64
  set_divider_64-Marked multi b =
      bind-Ends (λ _ _. Unit {0}) (Marked multi) (readreg i 0x11 b) _ (any-Ends (readreg i 0x11 b))
        (λ tmp b1 _.
          map-Ends (writereg i 0x11 _ b1)
            (λ _ b' burned. ap (λ x. test_bit x 2) (burned 0x11) ∙ mark multi tmp)
            (writereg-Ends c full 0x11 _ b1))

  -- the calls after the registers 1 to 6 are written
  finished :
      (s : Settings) (multi : ℕ) (b : i.Bus)
      → At c s s.reg6 tt b
      → Ends
          (λ u b'. Done s u b' × Marked multi u b')
          (and_then (Fc0013.set_divider_64 i multi b) (λ _. calibrate i s))
  finished s multi b at =
      bind-Ends (λ u b'. At c s s.reg6 u b' × Marked multi u b')
        (λ u b'. Done s u b' × Marked multi u b') (Fc0013.set_divider_64 i multi b) _
        (and-Ends (At c s s.reg6) (Marked multi) (Fc0013.set_divider_64 i multi b)
          (set_divider_64-At s multi b at) (set_divider_64-Marked multi b))
        (λ _ b1 q. and-Ends (Done s) (Marked multi) (calibrate i s b1) (calibrate-Done s b1 q.0) (
          map-Ends (calibrate i s b1) (λ _ b2 e. ap (λ x. test_bit x 2) e ∙ q.1)
            (calibrate-Same s b1)))

  -- The same of fc0013_set_params(), and the bit of register 0x11.
  abbrev pub Sets13 : Divider → (freq clock bandwidth : ℕ) → Unit {0} → i.Bus → Type 0
  Sets13 d freq clock bandwidth u b =
      (settings d freq clock bandwidth ≡ some (make d freq clock bandwidth))
      × (Programmed c (make d freq clock bandwidth) b × Marked d.multi u b)

  pub fc0013_set_params-Sets :
      (clock freq bandwidth : ℕ) (b : i.Bus)
      → Ends
          (Sets13 (Fc0013.divider freq) freq clock bandwidth)
          (Fc0013.set_params i clock freq bandwidth b)
  unfolding Fc0013.set_params
  fc0013_set_params-Sets clock freq bandwidth b =
      let d = Fc0013.divider freq in
      let s = make d freq clock bandwidth in
      bind-Ends (λ _ _. Unit {0}) (Sets13 d freq clock bandwidth) (Fc0013.set_vhf_track i freq b) _
        (any-Ends (Fc0013.set_vhf_track i freq b))
        (λ _ b1 _.
          bind-Ends (λ _ _. Unit {0}) (Sets13 d freq clock bandwidth) (Fc0013.set_filters i freq b1)
            _ (any-Ends (Fc0013.set_filters i freq b1))
            (λ _ b2 _.
              settings-Sets d freq clock bandwidth (λ u b'. Done s u b' × Marked d.multi u b') _ b2
                (bind-Ends (At c s s.reg6) (λ u b'. Done s u b' × Marked d.multi u b')
                  (write_regs i 1 s.regs b2) _ (made-written d freq clock bandwidth b2)
                  (λ _ b3 at3. finished s d.multi b3 at3))))
