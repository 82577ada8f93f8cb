-- ===== src/R82xx/Gain/Steps.antt =====
-- The gain steps that r82xx_set_gain() of rtl-sdr/src/tuner_r82xx.c chooses.
use ebc_sdr_native.Prelude.{
  ℕ, zero, suc, ◌+◌, ◌≤◌, ◌<◌, ◌≡◌, refl, ◌⊎◌, inl, inr, true, arith, Bool-cases, ltb→ge,
}
use ebc_sdr_native.Prelude.Int.{ℤ, pos, ◌+ℤ◌, ◌≤ℤ◌, ltb_ℤ, int_laws}
use native.Mathlib.Decide.{dec_lt}
use native.Mathlib.Numerals.{add-one}
use mathlib.Core.Path.{subst}
use ebc_sdr_native.R82xx.Gain.{GainIndex, lna_step, mixer_step, gain_loop, gain_index}

sum_of : (ℕ → ℤ) → ℕ → ℤ
sum_of f zero = pos 0
sum_of f (suc n) = sum_of f n +ℤ f (suc n)

-- the gain after `l` LNA steps and `m` mixer steps, in tenths of a dB
pub total : ℕ → ℕ → ℤ
unfolding sum_of
total l m = sum_of lna_step l +ℤ sum_of mixer_step m

abbrev pub Below : ℤ → ℤ → Type 0
Below a b = ltb_ℤ a b ≡ true

-- `l` and `m` steps, taken in turn with the LNA first, are the first to reach `gain`, or all there are
pub record IsFirst (gain : ℤ) (l m : ℕ) : Type 0 where
  pub mixer_follows : m ≤ l
  pub lna_leads : l ≤ m + 1
  pub in_table : l ≤ 15
  pub reached : (gain ≤ℤ total l m) ⊎ (m ≡ 15)
  pub before_lna : (j : ℕ) → j < l → Below (total j j) gain
  pub before_mixer : (j : ℕ) → j < m → Below (total (suc j) j) gain

swap_last : (a x b : ℤ) → a +ℤ x +ℤ b ≡ a +ℤ b +ℤ x
swap_last a x b = omega int_laws

regroup : (a b x : ℤ) → a +ℤ (b +ℤ x) ≡ a +ℤ b +ℤ x
regroup a b x = omega int_laws

total-lna : (l m : ℕ) → total (l + 1) m ≡ total l m +ℤ lna_step (l + 1)
unfolding total
total-lna l m = rw add-one (swap_last (sum_of lna_step l) (lna_step (suc l)) (sum_of mixer_step m))

total-mixer : (l m : ℕ) → total l (m + 1) ≡ total l m +ℤ mixer_step (m + 1)
unfolding total
total-mixer l m =
    rw add-one (regroup (sum_of lna_step l) (sum_of mixer_step m) (mixer_step (suc m)))

snoc : {P : ℕ → Type 0} (k : ℕ) → ((j : ℕ) → j < k → P j) → P k → (j : ℕ) → j < k + 1 → P j
snoc {P} k h p j lt = elim (dec_lt j k) [
  | yes below ↦ h j below
  | no above ↦ subst P (omega arith) p
]

abbrev Ends : ℤ → GainIndex → Type 0
Ends gain x = IsFirst gain x.lna_index x.mix_index

-- `n` rounds are left after `k` steps of both kinds
gain_loop-IsFirst :
    (gain : ℤ) (n k : ℕ) (t : ℤ)
    → n + k ≡ 15
    → t ≡ total k k
    → ((j : ℕ) → j < k → Below (total j j) gain)
    → ((j : ℕ) → j < k → Below (total (suc j) j) gain)
    → Ends gain (gain_loop gain n t k k)
unfolding gain_loop
gain_loop-IsFirst gain zero k t e at_k lna mixer = record {
  mixer_follows = omega arith;
  lna_leads = omega arith;
  in_table = omega arith;
  reached = inr (omega arith);
  before_lna = lna;
  before_mixer = mixer;
}
gain_loop-IsFirst gain (suc n) k t e at_k lna mixer = elim (Bool-cases (ltb_ℤ t gain)) [
  | inr stop ↦ rw stop (record {
    mixer_follows = omega arith;
    lna_leads = omega arith;
    in_table = omega arith;
    reached = inl (rw (← at_k) (omega (arith, ltb→ge _ _ stop)));
    before_lna = lna;
    before_mixer = mixer;
  })
  | inl go ↦ rw go (
      let after : t +ℤ lna_step (k + 1) ≡ total (k + 1) k = rw (at_k, total-lna k k) in
      let lna' : (j : ℕ) → j < k + 1 → Below (total j j) gain = snoc k lna (rw (← at_k) go) in
      elim (Bool-cases (ltb_ℤ (t +ℤ lna_step (k + 1)) gain)) [
        | inr stop ↦ rw stop (record {
          mixer_follows = omega arith;
          lna_leads = omega arith;
          in_table = omega arith;
          reached = inl (rw (← after) (omega (arith, ltb→ge _ _ stop)));
          before_lna = lna';
          before_mixer = mixer;
        })
        | inl more ↦ rw more (
            gain_loop-IsFirst gain n (k + 1) _ (omega arith) (rw (total-mixer (k + 1) k, after))
              lna' (snoc k mixer (rw (← add-one, ← after) more)))
      ])
]

total-zero : pos 0 ≡ total 0 0
unfolding total ◌+ℤ◌
total-zero = refl

-- The LNA and mixer steps of r82xx_set_gain() are the first that reach the gain asked for, or 15 of
-- each, and no table is read past its 16 entries.
pub gain_index-IsFirst : (gain : ℤ) → Ends gain (gain_index gain)
unfolding gain_index
gain_index-IsFirst gain =
    gain_loop-IsFirst gain 15 0 (pos 0) (omega arith) total-zero (λ j h. absurd (omega arith))
      (λ j h. absurd (omega arith))
