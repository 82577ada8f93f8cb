-- ===== src/E4k/Gains/Accepted.antt =====
-- Which gains e4000_set_gain() of rtl-sdr/src/librtlsdr.c takes, against the list that
-- rtlsdr_get_tuner_gains() gives for the E4000.
use ebc_sdr_native.Prelude.{
  ℕ, ◌+◌, ◌≤◌, ◌<◌, ◌≡◌, ◌⊎◌, inl, inr, refl, sym, ap, ◌∙◌, arith, Bool, true, false, ◌||◌, bit_and,
  Option, none, some, List, [], ◌∷◌, ltb, ltb→lt, ltb→ge, ◌==◌, Bool-cases, all_below-holds,
}
use ebc_sdr_native.Prelude.Int.{ℤ, pos, negsuc, ◌==ℤ◌, ltb_ℤ, eq_of_parts}
use ebc_sdr_native.I2c.{I2c}
use ebc_sdr_native.E4k.Regs.{E4kState, reg_write, reg_read, reg_set_mask, mask_step, to_u8}
use ebc_sdr_native.E4k.Gains.{
  einval, lnagain, find_gain, lna_gain, mix_gain, set_lna_gain, mixer_gain_set, mixer_step,
  e4000_set_gain,
}

-- e4k_gains
abbrev pub e4k_gains : List ℤ
e4k_gains =
    negsuc 9
    ∷ pos 15
    ∷ pos 40
    ∷ pos 65
    ∷ pos 90
    ∷ pos 115
    ∷ pos 140
    ∷ pos 165
    ∷ pos 190
    ∷ pos 215
    ∷ pos 240
    ∷ pos 290
    ∷ pos 340
    ∷ pos 420
    ∷ []

abbrev pub is_among : ℤ → List ℤ → Bool
is_among g [] = false
is_among g (x ∷ xs) = g ==ℤ x || is_among g xs

-- the listed gains, 37.0 dB, and all above 42.0 dB
abbrev pub is_accepted : ℤ → Bool
is_accepted g = is_among g e4k_gains || g ==ℤ pos 370 || ltb_ℤ (pos 420) g

abbrev is_some : {A : Type 0} → Option A → Bool
is_some none = false
is_some (some _) = true

abbrev same : Bool → Bool → Bool
same true b = b
same false true = false
same false false = true

same→eq : (a b : Bool) → same a b ≡ true → a ≡ b
same→eq a b e = ground arith

found : ℤ → Bool
found g = is_some (find_gain (lna_gain g) lnagain)

found_low : (n : ℕ) → n < 421 → found (pos n) ≡ is_accepted (pos n)
unfolding lna_gain found
found_low n h =
    same→eq _ _ (all_below-holds 421 (λ n. same (found (pos n)) (is_accepted (pos n))) n refl h)

found_negative : (n : ℕ) → n < 20 → found (negsuc n) ≡ is_accepted (negsuc n)
unfolding lna_gain found
found_negative n h =
    same→eq _ _
      (all_below-holds 20 (λ n. same (found (negsuc n)) (is_accepted (negsuc n))) n refl h)

or_true : (a b : Bool) → b ≡ true → a || b ≡ true
or_true a b e = ground arith

-- above the list the lookup is of 30.0 dB
lna_high : (n : ℕ) → 421 ≤ n → lna_gain (pos n) ≡ pos 300
unfolding lna_gain
lna_high n h = ground (arith, eq_of_parts (lna_gain (pos n)) (pos 300))

accepted_high : (n : ℕ) → 421 ≤ n → is_accepted (pos n) ≡ true
accepted_high n h =
    let e : ltb_ℤ (pos 420) (pos n) ≡ true = ground arith in
    or_true (is_among (pos n) e4k_gains || pos n ==ℤ pos 370) _ e

-- no gain is below the first
lna_negative : (n : ℕ) → lna_gain (negsuc n) ≡ negsuc (n + 40)
unfolding lna_gain
lna_negative n = ground (arith, eq_of_parts (lna_gain (negsuc n)) (negsuc (n + 40)))

none_below : (n : ℕ) → 20 ≤ n → find_gain (negsuc (n + 40)) lnagain ≡ none
none_below n h = ground arith

refused_below : (n : ℕ) → 20 ≤ n → is_accepted (negsuc n) ≡ false
refused_below n h = ground arith

found-is_accepted : (g : ℤ) → found g ≡ is_accepted g
unfolding found
found-is_accepted (pos n) = elim (Bool-cases (ltb n 421)) [
  | inl e ↦ found_low n (ltb→lt n 421 e)
  | inr e ↦
      let h = ltb→ge n 421 e in
      ap (λ x. is_some (find_gain x lnagain)) (lna_high n h) ∙ sym (accepted_high n h)
]
found-is_accepted (negsuc n) = elim (Bool-cases (ltb n 20)) [
  | inl e ↦ found_negative n (ltb→lt n 20 e)
  | inr e ↦
      let h = ltb→ge n 20 e in
      ap (λ x. is_some (find_gain x lnagain)) (lna_negative n)
      ∙ ap is_some (none_below n h)
      ∙ sym (refused_below n h)
]

-- what is found is not taken for an error
found_code : (x : ℤ) → is_some (find_gain x lnagain) ≡ true → (x ==ℤ einval) ≡ false
found_code x e = elim (Bool-cases (x ==ℤ einval)) [
  | inl q ↦
      let at : x ≡ einval = ground (arith, eq_of_parts x einval) in
      let missing : is_some (find_gain x lnagain) ≡ false =
        ap (λ y. is_some (find_gain y lnagain)) at in
      absurd (ground (arith, sym missing ∙ e))
  | inr q ↦ q
]

module _ {i : I2c} where
  reg_write_code : (r v : ℕ) (s : E4kState i) → ((reg_write r v s).0 ==ℤ einval) ≡ false
  unfolding reg_write
  reg_write_code r v s = elim (Bool-cases ((i.write s.bus s.i2c_addr (r ∷ v ∷ [])).0 ==ℤ pos 2)) [
    | inl e ↦ rw e refl
    | inr e ↦ rw e refl
  ]

  mask_step_code :
      (r mask val tmp : ℕ) (s : E4kState i) → ((mask_step r mask val tmp s).0 ==ℤ einval) ≡ false
  unfolding mask_step
  mask_step_code r mask val tmp s = elim (Bool-cases (bit_and tmp mask == val)) [
    | inl e ↦ rw (e, mask_step) refl
    | inr e ↦ rw (e, mask_step) (reg_write_code r _ s)
  ]

  mask_code : (r mask val : ℕ) (s : E4kState i) → ((reg_set_mask r mask val s).0 ==ℤ einval) ≡ false
  unfolding reg_set_mask
  mask_code r mask val s = mask_step_code r mask val (to_u8 (reg_read r s).0) (reg_read r s).1

  mixer_code :
      (g : ℤ) (s : E4kState i) → ((mixer_gain_set (pos (mix_gain g)) s).0 ==ℤ einval) ≡ false
  unfolding mixer_gain_set
  mixer_code g s = elim (Bool-cases (ltb_ℤ (pos 340) g)) [
    | inl e ↦ rw e (mask_code 0x15 1 1 s)
    | inr e ↦ rw e (mask_code 0x15 1 0 s)
  ]

  -- e4k_set_lna_gain() when the gain is found, and when it is not
  lna_found :
      (x : ℤ) (s : E4kState i) (o : Option ℕ)
      → find_gain x lnagain ≡ o
      → is_some o ≡ true
      → (set_lna_gain x s).0 ≡ x
  unfolding set_lna_gain
  lna_found x s none e h = absurd (ground arith)
  lna_found x s (some v) e h = rw (e, set_lna_gain) refl

  lna_missing :
      (x : ℤ) (s : E4kState i) (o : Option ℕ)
      → find_gain x lnagain ≡ o
      → is_some o ≡ false
      → set_lna_gain x s ≡ (einval, s)
  unfolding set_lna_gain
  lna_missing x s none e h = rw (e, set_lna_gain) refl
  lna_missing x s (some v) e h = absurd (ground arith)

  mixer_step_found :
      (g r : ℤ) (s : E4kState i)
      → (r ==ℤ einval) ≡ false
      → (mixer_step (pos (mix_gain g)) (r, s)).0 ≡ pos 0
  unfolding mixer_step
  mixer_step_found g r s e = rw (e, mixer_step, mixer_code g s) refl

  gain_found :
      (g : ℤ) (s : E4kState i)
      → is_some (find_gain (lna_gain g) lnagain) ≡ true
      → (e4000_set_gain g s).0 ≡ pos 0
  unfolding e4000_set_gain
  gain_found g s e =
      let x = lna_gain g in
      mixer_step_found g (set_lna_gain x s).0 (set_lna_gain x s).1
        (ap (λ r. r ==ℤ einval) (lna_found x s _ refl e) ∙ found_code x e)

  gain_missing :
      (g : ℤ) (s : E4kState i)
      → is_some (find_gain (lna_gain g) lnagain) ≡ false
      → e4000_set_gain g s ≡ (negsuc 0, s)
  unfolding e4000_set_gain mixer_step
  gain_missing g s e = ap (mixer_step (pos (mix_gain g))) (lna_missing (lna_gain g) s _ refl e)

  -- e4000_set_gain() returns 0 for the gains of the list, 37.0 dB and all gains above 42.0 dB, whatever
  -- the bus does; any other gain is refused with -1, and nothing is written.
  pub e4000_set_gain_lem :
      (g : ℤ) (s : E4kState i)
      → ((is_accepted g ≡ true) × ((e4000_set_gain g s).0 ≡ pos 0))
        ⊎ ((is_accepted g ≡ false) × (e4000_set_gain g s ≡ (negsuc 0, s)))
  unfolding found
  e4000_set_gain_lem g s = elim (Bool-cases (is_accepted g)) [
    | inl e ↦ inl (e, gain_found g s (found-is_accepted g ∙ e))
    | inr e ↦ inr (e, gain_missing g s (found-is_accepted g ∙ e))
  ]
