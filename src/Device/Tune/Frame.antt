-- ===== src/Device/Tune/Frame.antt =====
-- What the steps of rtlsdr_set_center_freq() and _rtlsdr_set_direct_sampling() in
-- rtl-sdr/src/librtlsdr.c change of the device and what they keep, and the two ways a call goes on.
use ebc_sdr_native.Prelude.{
  ℕ, zero, suc, ◌/◌, ◌≤◌, ◌≡◌, ◌≢◌, inl, inr, refl, sym, ap, ◌∙◌, arith, bit_or, true, false,
  Option, none, some, Bool-cases,
}
use ebc_sdr_native.Prelude.Bits.{bit_or_step}
use ebc_sdr_native.Prelude.Int.{◌||ℤ◌, ℤ, pos, negsuc, ◌==ℤ◌, is_neg, eq_of_parts, parts_of_eq}
use ebc_sdr_native.Registers
use ebc_sdr_native.Device.{Tuner, Radio, Op, if_present, is_zero, is_rafael}
use ebc_sdr_native.Device.Tune.{
  auto_mode, choose_mode, tune, attempt, enable_direct, disable_direct, to_tuner_mode, init_tuner,
  switch_mode, center_freq_loop, also, or_code, apply_to,
}

pub is_zero→eq : (r : ℤ) → is_zero r ≡ true → r ≡ pos 0
is_zero→eq r h = ground (arith, eq_of_parts r (pos 0))

pub is_zero→ne : (r : ℤ) → is_zero r ≡ false → r ≢ pos 0
is_zero→ne r h e = ground (arith, parts_of_eq r (pos 0) e)

pub ==ℤ-of : (a b : ℤ) → a ≡ b → (a ==ℤ b) ≡ true
==ℤ-of a b e = ground (arith, parts_of_eq a b e)

bit_or-zero : (n a b : ℕ) → b ≤ n → bit_or a b ≡ 0 → b ≡ 0
bit_or-zero zero a b h e = omega arith
bit_or-zero (suc n) a b h e = omega (
  arith,
  bit_or_step a b,
  bit_or-zero n (a / 2) (b / 2) (omega arith) (omega (arith, bit_or_step a b)),
)

pub or_zero : (a b : ℤ) → a ||ℤ b ≡ pos 0 → b ≡ pos 0
or_zero (pos a) (pos b) e =
    ap pos (bit_or-zero b a b (omega arith) (ground (arith, parts_of_eq _ _ e)))
or_zero (pos a) (negsuc b) e = absurd (ground (arith, parts_of_eq _ _ e))
or_zero (negsuc a) (pos b) e = absurd (ground (arith, parts_of_eq _ _ e))
or_zero (negsuc a) (negsuc b) e = absurd (ground (arith, parts_of_eq _ _ e))

module _ {k : Registers.Control} {t : Tuner k} (apply_ppm : ℕ → ℤ → ℕ) where
  -- what no step of the tuning changes
  pub record Same (s s' : Radio k t) : Type 0 where
    pub kind : s'.tuner_type ≡ s.tuner_type
    pub strings : s'.strings ≡ s.strings
    pub mode : s'.direct_sampling_mode ≡ s.direct_sampling_mode

  -- nor most of them these
  record Keeps (s s' : Radio k t) : Type 0 where
    same : Same s s'
    sampling : s'.direct_sampling ≡ s.direct_sampling
    freq : s'.freq ≡ s.freq

  if_present-Keeps :
      (r : ℤ) (op : Option (Op k t.Chip)) (s : Radio k t) → Keeps s (if_present r op s).1
  unfolding if_present
  if_present-Keeps r none s = record {
    same = record { kind = refl; strings = refl; mode = refl };
    sampling = refl;
    freq = refl;
  }
  if_present-Keeps r (some op) s = record {
    same = record { kind = refl; strings = refl; mode = refl };
    sampling = refl;
    freq = refl;
  }

  tune-Keeps : (freq : ℕ) (s : Radio k t) → Keeps s (tune apply_ppm freq s).1
  unfolding tune
  tune-Keeps freq s = elim (Bool-cases (is_zero s.direct_sampling)) [
    | inl e ↦ rw (e, tune) (if_present-Keeps _ _ s)
    | inr e ↦
        rw (e, tune)
          (record {
            same = record { kind = refl; strings = refl; mode = refl };
            sampling = refl;
            freq = refl;
          })
  ]

  -- after rtlsdr_set_center_freq() has tuned
  pub attempt-Same : (freq : ℕ) (s : Radio k t) → Same s (attempt apply_ppm freq s).1
  unfolding attempt
  attempt-Same freq s =
      let q = (tune-Keeps freq (choose_mode apply_ppm freq s)).same in
      record { kind = q.kind; strings = q.strings; mode = q.mode }

  pub attempt_mode :
      (freq : ℕ) (s : Radio k t)
      → is_zero s.direct_sampling_mode ≡ true
      → (attempt apply_ppm freq s).1.direct_sampling ≡ auto_mode apply_ppm s freq
  unfolding attempt
  attempt_mode freq s e =
      (tune-Keeps freq (choose_mode apply_ppm freq s)).sampling ∙ rw (e, choose_mode) refl

  pub attempt_forced :
      (freq : ℕ) (s : Radio k t)
      → is_zero s.direct_sampling_mode ≡ false
      → (attempt apply_ppm freq s).1.direct_sampling ≡ s.direct_sampling
  unfolding attempt
  attempt_forced freq s e =
      (tune-Keeps freq (choose_mode apply_ppm freq s)).sampling ∙ rw (e, choose_mode) refl

  to_tuner_mode-Keeps : (s : Radio k t) → Keeps s (to_tuner_mode apply_ppm s).1
  unfolding to_tuner_mode
  to_tuner_mode-Keeps s = elim (Bool-cases (is_rafael s.tuner_type)) [
    | inl e ↦
        rw (e, to_tuner_mode)
          (record {
            same = record { kind = refl; strings = refl; mode = refl };
            sampling = refl;
            freq = refl;
          })
    | inr e ↦
        rw (e, to_tuner_mode)
          (record {
            same = record { kind = refl; strings = refl; mode = refl };
            sampling = refl;
            freq = refl;
          })
  ]

  disable_direct-Same :
      (s : Radio k t)
      → Same s (disable_direct apply_ppm s).1 × ((disable_direct apply_ppm s).1.freq ≡ s.freq)
  unfolding disable_direct init_tuner
  disable_direct-Same s =
      let op = apply_to t.init (apply_ppm s.tun_xtal s.corr) in
      let a = if_present-Keeps (pos 0) op s in
      let b = to_tuner_mode-Keeps (if_present (pos 0) op s).1 in
      (
        record {
          kind = b.same.kind ∙ a.same.kind;
          strings = b.same.strings ∙ a.same.strings;
          mode = b.same.mode ∙ a.same.mode;
        },
        b.freq ∙ a.freq,
      )

  enable_direct-Same :
      (on : ℤ) (s : Radio k t)
      → Same s (enable_direct apply_ppm on s).1 × ((enable_direct apply_ppm on s).1.freq ≡ s.freq)
  unfolding enable_direct
  enable_direct-Same on s =
      let a = if_present-Keeps (pos 0) t.exit s in
      (record { kind = a.same.kind; strings = a.same.strings; mode = a.same.mode }, a.freq)

  pub switch_mode-Same :
      (on : ℤ) (s : Radio k t)
      → Same s (switch_mode apply_ppm on s).1 × ((switch_mode apply_ppm on s).1.freq ≡ s.freq)
  unfolding switch_mode
  switch_mode-Same on s = elim (Bool-cases (is_zero on)) [
    | inl e ↦ rw (e, switch_mode) (disable_direct-Same s)
    | inr e ↦ rw (e, switch_mode) (enable_direct-Same on s)
  ]

  pub switch_mode_sampling :
      (on : ℤ) (s : Radio k t) → (switch_mode apply_ppm on s).1.direct_sampling ≡ on
  unfolding switch_mode
  switch_mode_sampling on s = elim (Bool-cases (is_zero on)) [
    | inl e ↦ rw (e, switch_mode) (sym (is_zero→eq on e))
    | inr e ↦ rw (e, switch_mode) refl
  ]

  -- the mode that a frequency asks for, in states that agree
  pub auto_mode-Same :
      (s s' : Radio k t) (freq : ℕ)
      → Same s s'
      → auto_mode apply_ppm s' freq ≡ auto_mode apply_ppm s freq
  unfolding auto_mode
  auto_mode-Same s s' freq q = rw (q.kind, q.strings) refl

  pub auto_mode-positive : (s : Radio k t) (freq : ℕ) → is_neg (auto_mode apply_ppm s freq) ≡ false
  unfolding auto_mode
  auto_mode-positive s freq = ground arith

  -- one call: it stops, or switches the mode and tunes again
  pub stop :
      (n freq : ℕ) (s : Radio k t)
      → is_neg s.direct_sampling ≡ false
      → (s.direct_sampling ==ℤ (attempt apply_ppm freq s).1.direct_sampling) ≡ true
      → center_freq_loop apply_ppm (suc n) freq s ≡ some (attempt apply_ppm freq s)
  unfolding center_freq_loop attempt
  stop n freq s p e = rw (p, center_freq_loop, e) refl

  abbrev pub switched : ℕ → Radio k t → ℤ × Radio k t
  switched freq s =
      let s1 = (attempt apply_ppm freq s).1 in switch_mode apply_ppm s1.direct_sampling s1

  pub go_on :
      (n freq : ℕ) (s : Radio k t)
      → is_neg s.direct_sampling ≡ false
      → (s.direct_sampling ==ℤ (attempt apply_ppm freq s).1.direct_sampling) ≡ false
      → center_freq_loop apply_ppm (suc n) freq s
        ≡ also
            (center_freq_loop apply_ppm n (switched freq s).1.freq (switched freq s).1)
            (or_code apply_ppm (switched freq s).0)
  unfolding center_freq_loop
  go_on n freq s p e = rw (p, center_freq_loop, e) refl
