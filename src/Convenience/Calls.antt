-- ===== src/Convenience/Calls.antt =====
-- The calls of rtl-sdr/src/convenience/convenience.c that set a gain, a correction, or a mode of the
-- device. A table of gains that is read out of its bounds is a fault, `none`.
use ebc_sdr_native.Prelude.{
  ℕ, zero, suc, ◌-◌, ◌*◌, ◌/◌, ◌<◌, ◌≡◌, inl, inr, refl, arith, true, false, Option, none, some,
  List, [], ◌∷◌, ltb, if◌then◌else◌, Bool-cases, get_elem?, length,
}
use ebc_sdr_native.Prelude.Int.{ℤ, pos, negsuc, is_neg}
use ebc_sdr_native.Registers
use ebc_sdr_native.Device.{Tuner, Radio, is_zero}
use ebc_sdr_native.Device.Settings.{
  set_tuner_gain, set_tuner_gain_mode, set_offset_tuning, set_freq_correction,
}
use ebc_sdr_native.Convenience.{get_tuner_gains}

-- the position in a table of `count` gains
unfoldable pub percent_index : ℕ → ℕ → ℕ
percent_index percent count =
    let index = (if ltb 100 percent then 100 else percent) * count / 100 in
    if ltb index count then index else count - 1

module _ {k : Registers.Control} {t : Tuner k} where
  unfoldable pub verbose_auto_gain : Radio k t → ℤ × Radio k t
  unfolding set_tuner_gain_mode
  verbose_auto_gain s = set_tuner_gain_mode (pos 0) s

  unfoldable pub verbose_gain_set : ℤ → Radio k t → ℤ × Radio k t
  unfolding set_tuner_gain_mode set_tuner_gain
  verbose_gain_set gain s =
      let (r, s1) = set_tuner_gain_mode (pos 1) s in
      elim (is_neg r) [ true ↦ (r, s1) | false ↦ set_tuner_gain gain s1 ]

  -- the gain at that position, if the tuner has a table
  unfoldable pub gain_by_perc : ℕ → List ℤ → Radio k t → Option (ℤ × Radio k t)
  unfolding percent_index set_tuner_gain
  gain_by_perc percent [] s = some (negsuc 0, s)
  gain_by_perc percent (g ∷ gains) s =
      elim (get_elem? (g ∷ gains) (percent_index percent (length (g ∷ gains)))) [
        | none ↦ none
        | some gain ↦ some (set_tuner_gain gain s)
      ]

  unfoldable pub set_gain_by_perc : ℕ → Radio k t → Option (ℤ × Radio k t)
  unfolding set_tuner_gain_mode gain_by_perc get_tuner_gains
  set_gain_by_perc percent s =
      let (r, s1) = set_tuner_gain_mode (pos 1) s in
      elim (is_neg r) [
        | true ↦ some (r, s1)
        | false ↦ gain_by_perc percent (get_tuner_gains s1.tuner_type) s1
      ]

  module _ (apply_ppm : ℕ → ℤ → ℕ) where
    unfoldable pub verbose_offset_tuning : Radio k t → ℤ × Radio k t
    unfolding set_offset_tuning
    verbose_offset_tuning s = set_offset_tuning apply_ppm true s

    unfoldable pub verbose_ppm_set : ℤ → Radio k t → ℤ × Radio k t
    unfolding set_freq_correction
    verbose_ppm_set ppm s = elim (is_zero ppm) [
      | true ↦ (pos 0, s)
      | false ↦ set_freq_correction apply_ppm ppm s
    ]

get_elem?-some :
    {A : Type 0} (xs : List A) (i : ℕ) → i < length xs → (x : A) × (get_elem? xs i ≡ some x)
get_elem?-some [] i h = absurd (omega arith)
get_elem?-some (x ∷ xs) zero h = (x, refl)
get_elem?-some (x ∷ xs) (suc i) h = get_elem?-some xs i (omega arith)

percent_index_bound : (percent count : ℕ) → 0 < count → percent_index percent count < count
unfolding percent_index
percent_index_bound percent count h =
    let index = (if ltb 100 percent then 100 else percent) * count / 100 in
    elim (Bool-cases (ltb index count)) [ inl e ↦ rw e (ground arith) | inr e ↦ rw e (omega arith) ]

module _ {k : Registers.Control} {t : Tuner k} where
  gain_by_perc-some :
      (percent : ℕ) (gains : List ℤ) (s : Radio k t)
      → (result : ℤ × Radio k t) × (gain_by_perc percent gains s ≡ some result)
  unfolding gain_by_perc
  gain_by_perc-some percent [] s = (_, refl)
  gain_by_perc-some percent (g ∷ gains) s =
      let n = length (g ∷ gains) in
      let (gain, e) =
        get_elem?-some (g ∷ gains) (percent_index percent n)
          (percent_index_bound percent n (omega arith)) in
      rw (e, gain_by_perc) (_, refl)

  -- set_gain_by_perc() reads no table of gains out of its bounds, whatever the percentage and the tuner.
  pub set_gain_by_perc-some :
      (percent : ℕ) (s : Radio k t)
      → (result : ℤ × Radio k t) × (set_gain_by_perc percent s ≡ some result)
  unfolding set_gain_by_perc
  set_gain_by_perc-some percent s =
      let (r, s1) = set_tuner_gain_mode (pos 1) s in
      elim (Bool-cases (is_neg r)) [
        | inl e ↦ rw (e, set_gain_by_perc) (_, refl)
        | inr e ↦
            rw (e, set_gain_by_perc) (gain_by_perc-some percent (get_tuner_gains s1.tuner_type) s1)
      ]
