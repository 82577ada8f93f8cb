-- ===== src/Device/Tune/Ends.antt =====
-- That the calls of rtlsdr_set_center_freq() and _rtlsdr_set_direct_sampling() in
-- rtl-sdr/src/librtlsdr.c, which call each other, come to an end.
use ebc_sdr_native.Prelude.{
  ℕ, zero, suc, ◌+◌, ◌≡◌, inl, inr, refl, sym, ap, ◌∙◌, arith, true, Option, none, some, Bool-cases,
}
use ebc_sdr_native.Prelude.Int.{ℤ, pos, ◌==ℤ◌, is_neg}
use ebc_sdr_native.Registers
use ebc_sdr_native.Device.{Tuner, Radio, is_zero}
use ebc_sdr_native.Device.Tune.{attempt, center_freq_loop, set_center_freq, also, or_code, finished}
use ebc_sdr_native.Device.Tune.Frame.{==ℤ-of, attempt_forced, stop, go_on, switched}
use ebc_sdr_native.Device.Tune.Settles.{three_calls}

-- what `also` was given, if it has a result
also-some :
    {A B : Type 0} (o : Option A) (f : A → B) (y : B) → also o f ≡ some y → (x : A) × (o ≡ some x)
also-some none f y e = absurd (ground arith)
also-some (some x) f y e = (x, refl)

module _ {k : Registers.Control} {t : Tuner k} (apply_ppm : ℕ → ℤ → ℕ) where
  not_tuned :
      (n freq : ℕ) (s : Radio k t)
      → is_neg s.direct_sampling ≡ true
      → center_freq_loop apply_ppm (suc n) freq s ≡ some (pos 1, s)
  unfolding center_freq_loop
  not_tuned n freq s p = rw (p, center_freq_loop) refl

  -- one more call than enough changes nothing
  one_more :
      (n freq : ℕ) (s : Radio k t) (x : ℤ × Radio k t)
      → center_freq_loop apply_ppm n freq s ≡ some x
      → center_freq_loop apply_ppm (suc n) freq s ≡ some x
  unfolding center_freq_loop
  one_more zero freq s x e = absurd (ground arith)
  one_more (suc n) freq s x e = elim (Bool-cases (is_neg s.direct_sampling)) [
    | inl p ↦ not_tuned (suc n) freq s p ∙ sym (not_tuned n freq s p) ∙ e
    | inr p ↦
        let test = s.direct_sampling ==ℤ (attempt apply_ppm freq s).1.direct_sampling in
        let (r2, s2) = switched apply_ppm freq s in
        elim (Bool-cases test) [
          | inl q ↦ stop apply_ppm (suc n) freq s p q ∙ sym (stop apply_ppm n freq s p q) ∙ e
          | inr q ↦
              let (y, inner) =
                also-some (center_freq_loop apply_ppm n s2.freq s2) (or_code apply_ppm r2) x
                  (sym (go_on apply_ppm n freq s p q) ∙ e) in
              go_on apply_ppm (suc n) freq s p q
              ∙ ap (λ o. also o (or_code apply_ppm r2)) (one_more n s2.freq s2 y inner ∙ sym inner)
              ∙ sym (go_on apply_ppm n freq s p q)
              ∙ e
        ]
  ]

  three_end :
      (freq : ℕ) (s : Radio k t)
      → (x : ℤ × Radio k t) × (center_freq_loop apply_ppm 3 freq s ≡ some x)
  three_end freq s = elim (Bool-cases (is_neg s.direct_sampling)) [
    | inl p ↦ (_, not_tuned 2 freq s p)
    | inr p ↦ elim (Bool-cases (is_zero s.direct_sampling_mode)) [
      | inl e ↦ let c = three_calls apply_ppm 0 freq s p e in (c.result, c.returned)
      | inr e ↦
          (_, stop apply_ppm 2 freq s p (==ℤ-of _ _ (sym (attempt_forced apply_ppm freq s e))))
    ]
  ]

  -- From every state and for every frequency three calls do, however many more are allowed: the
  -- result is that of rtlsdr_set_center_freq().
  pub center_freq_loop-set_center_freq :
      (n freq : ℕ) (s : Radio k t)
      → center_freq_loop apply_ppm (3 + n) freq s ≡ some (set_center_freq apply_ppm freq s)
  unfolding set_center_freq
  center_freq_loop-set_center_freq zero freq s =
      let (x, e) = three_end freq s in e ∙ ap some (sym (ap (λ o. finished apply_ppm o s) e))
  center_freq_loop-set_center_freq (suc n) freq s =
      let e : 3 + suc n ≡ suc (3 + n) = omega arith in
      ap (λ m. center_freq_loop apply_ppm m freq s) e
      ∙ one_more (3 + n) freq s _ (center_freq_loop-set_center_freq n freq s)
