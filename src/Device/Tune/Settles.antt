-- ===== src/Device/Tune/Settles.antt =====
-- How rtlsdr_set_center_freq() and _rtlsdr_set_direct_sampling() of rtl-sdr/src/librtlsdr.c, which call
-- each other, come to rest.
use mathlib.Core.Path.{subst}
use ebc_sdr_native.Prelude.{
  ℕ, suc, ◌≡◌, ◌≢◌, ◌⊎◌, inl, inr, refl, sym, ap, ◌∙◌, true, false, Option, some, Bool-cases,
}
use ebc_sdr_native.Prelude.Int.{ℤ, pos, ◌==ℤ◌, is_neg}
use ebc_sdr_native.Registers
use ebc_sdr_native.Device.{Tuner, Radio, is_zero}
use ebc_sdr_native.Device.Tune.{
  auto_mode, attempt, center_freq_loop, set_center_freq, also, or_code, finished,
}
use ebc_sdr_native.Device.Tune.Frame.{
  is_zero→ne, ==ℤ-of, or_zero, Same, attempt-Same, attempt_mode, switch_mode-Same,
  switch_mode_sampling, auto_mode-Same, auto_mode-positive, stop, go_on, switched,
}

module _ {k : Registers.Control} {t : Tuner k} (apply_ppm : ℕ → ℤ → ℕ) where
  -- The frequency is the one asked for or none; and either the mode is the one that it asks for, or the
  -- code is an error.
  pub record Rests (freq : ℕ) (s : Radio k t) (result : ℤ × Radio k t) : Type 0 where
    pub tuned : (result.1.freq ≡ freq) ⊎ (result.1.freq ≡ 0)
    pub mode_fits :
        (result.0 ≢ pos 0) ⊎ (result.1.direct_sampling ≡ auto_mode apply_ppm s result.1.freq)

  -- what `n` calls come to
  pub record Settles (n freq : ℕ) (s : Radio k t) : Type 0 where
    pub result : ℤ × Radio k t
    pub returned : center_freq_loop apply_ppm n freq s ≡ some result
    pub rests : Rests freq s result

  -- after a call that stops, in the mode that the frequency asks for
  attempt-Rests :
      (freq : ℕ) (s : Radio k t)
      → is_zero s.direct_sampling_mode ≡ true
      → Rests freq s (attempt apply_ppm freq s)
  unfolding attempt
  attempt-Rests freq s e = elim (Bool-cases (is_zero (attempt apply_ppm freq s).0)) [
    | inl r ↦ record {
      tuned = inl (rw r refl);
      mode_fits = inr (attempt_mode apply_ppm freq s e ∙ rw r refl);
    }
    | inr r ↦ record {
      tuned = inr (rw r refl);
      mode_fits = inl (is_zero→ne (attempt apply_ppm freq s).0 r);
    }
  ]

  module _ (freq : ℕ) (s : Radio k t) (p : is_neg s.direct_sampling ≡ false) where
    stop_here :
        (n : ℕ)
        → is_zero s.direct_sampling_mode ≡ true
        → (s.direct_sampling ==ℤ (attempt apply_ppm freq s).1.direct_sampling) ≡ true
        → Settles (suc n) freq s
    stop_here n e q = record {
      result = attempt apply_ppm freq s;
      returned = stop apply_ppm n freq s p q;
      rests = attempt-Rests freq s e;
    }

    after : Same apply_ppm s (switched apply_ppm freq s).1
    after =
        let s1 = (attempt apply_ppm freq s).1 in
        let a = attempt-Same apply_ppm freq s in
        let b = (switch_mode-Same apply_ppm s1.direct_sampling s1).0 in
        record { kind = b.kind ∙ a.kind; strings = b.strings ∙ a.strings; mode = b.mode ∙ a.mode }

    after_freq :
        ((switched apply_ppm freq s).1.freq ≡ freq) ⊎ ((switched apply_ppm freq s).1.freq ≡ 0)
    unfolding attempt
    after_freq =
        let s1 = (attempt apply_ppm freq s).1 in
        let b = (switch_mode-Same apply_ppm s1.direct_sampling s1).1 in
        elim (Bool-cases (is_zero (attempt apply_ppm freq s).0)) [
          | inl r ↦ inl (b ∙ rw r refl)
          | inr r ↦ inr (b ∙ rw r refl)
        ]

    after_mode :
        is_zero s.direct_sampling_mode ≡ true
        → (switched apply_ppm freq s).1.direct_sampling ≡ auto_mode apply_ppm s freq
    after_mode e =
        let s1 = (attempt apply_ppm freq s).1 in
        switch_mode_sampling apply_ppm s1.direct_sampling s1 ∙ attempt_mode apply_ppm freq s e

    carry_on :
        (n : ℕ)
        → (s.direct_sampling ==ℤ (attempt apply_ppm freq s).1.direct_sampling) ≡ false
        → Settles n (switched apply_ppm freq s).1.freq (switched apply_ppm freq s).1
        → Settles (suc n) freq s
    carry_on n q inner = record {
      result = or_code apply_ppm (switched apply_ppm freq s).0 inner.result;
      returned =
          go_on apply_ppm n freq s p q
          ∙ ap (λ o. also o (or_code apply_ppm (switched apply_ppm freq s).0)) inner.returned;
      rests = record {
        tuned = elim inner.rests.tuned [
          | inl f ↦ elim after_freq [ inl g ↦ inl (f ∙ g) | inr g ↦ inr (f ∙ g) ]
          | inr f ↦ inr f
        ];
        mode_fits = elim inner.rests.mode_fits [
          | inl d ↦ inl (λ z. d (or_zero (switched apply_ppm freq s).0 inner.result.0 z))
          | inr m ↦ inr (m ∙ auto_mode-Same apply_ppm s (switched apply_ppm freq s).1 _ after)
        ];
      };
    }

  -- in the mode that the frequency asks for, one call
  one_call :
      (n freq : ℕ) (s : Radio k t)
      → is_zero s.direct_sampling_mode ≡ true
      → s.direct_sampling ≡ auto_mode apply_ppm s freq
      → Settles (suc n) freq s
  one_call n freq s e m =
      stop_here freq s (ap is_neg m ∙ auto_mode-positive apply_ppm s freq) n e
        (==ℤ-of _ _ (m ∙ sym (attempt_mode apply_ppm freq s e)))

  -- after a switch to the mode that `freq` asks for, one call
  call_after :
      (n freq : ℕ) (s : Radio k t) (p : is_neg s.direct_sampling ≡ false)
      → is_zero s.direct_sampling_mode ≡ true
      → (switched apply_ppm freq s).1.freq ≡ freq
      → Settles (suc n) (switched apply_ppm freq s).1.freq (switched apply_ppm freq s).1
  call_after n freq s p e g =
      let s2 = (switched apply_ppm freq s).1 in
      one_call n s2.freq s2 (ap is_zero (after freq s p).mode ∙ e) (
        after_mode freq s p e
        ∙ sym (auto_mode-Same apply_ppm s s2 freq (after freq s p))
        ∙ ap (auto_mode apply_ppm s2) (sym g))

  -- for no frequency, two
  two_calls :
      (n : ℕ) (s : Radio k t)
      → is_neg s.direct_sampling ≡ false
      → is_zero s.direct_sampling_mode ≡ true
      → Settles (suc (suc n)) 0 s
  two_calls n s p e =
      let test = s.direct_sampling ==ℤ (attempt apply_ppm 0 s).1.direct_sampling in
      elim (Bool-cases test) [
        | inl q ↦ stop_here 0 s p (suc n) e q
        | inr q ↦
            let g : (switched apply_ppm 0 s).1.freq ≡ 0 = elim (after_freq 0 s p) [
              | inl g ↦ g
              | inr g ↦ g
            ] in
            carry_on 0 s p (suc n) q (call_after n 0 s p e g)
      ]

  -- for any, three
  pub three_calls :
      (n freq : ℕ) (s : Radio k t)
      → is_neg s.direct_sampling ≡ false
      → is_zero s.direct_sampling_mode ≡ true
      → Settles (suc (suc (suc n))) freq s
  three_calls n freq s p e =
      let test = s.direct_sampling ==ℤ (attempt apply_ppm freq s).1.direct_sampling in
      let s2 = (switched apply_ppm freq s).1 in
      elim (Bool-cases test) [
        | inl q ↦ stop_here freq s p (suc (suc n)) e q
        | inr q ↦ carry_on freq s p (suc (suc n)) q (elim (after_freq freq s p) [
          | inl g ↦ call_after (suc n) freq s p e g
          | inr g ↦
              subst (λ f. Settles (suc (suc n)) f s2) (sym g)
                (two_calls n s2
                  (ap is_neg (after_mode freq s p e) ∙ auto_mode-positive apply_ppm s freq)
                  (ap is_zero (after freq s p).mode ∙ e))
        ])
      ]

  finished_lem :
      {o : Option (ℤ × Radio k t)} {x : ℤ × Radio k t} (s : Radio k t)
      → o ≡ some x
      → finished apply_ppm o s ≡ x
  finished_lem s e = ap (λ o. finished apply_ppm o s) e

  -- While no mode is forced, tuning leaves the device with the frequency asked for or with none; and
  -- either it is in the mode that its frequency asks for, or an error is reported.
  pub set_center_freq-Rests :
      (freq : ℕ) (s : Radio k t)
      → is_neg s.direct_sampling ≡ false
      → is_zero s.direct_sampling_mode ≡ true
      → Rests freq s (set_center_freq apply_ppm freq s)
  unfolding set_center_freq
  set_center_freq-Rests freq s p e =
      let c = three_calls 0 freq s p e in
      subst (Rests freq s) (sym (finished_lem s c.returned)) c.rests
