-- ===== src/Fitipower/Fc0013/Range.antt =====
-- Which frequencies fc0013_set_params() of rtl-sdr/src/tuner_fc0013.c takes, and what it makes of them.
use ebc_sdr_native.Prelude.{
  ℕ, ◌*◌, ◌≤◌, ◌<◌, ◌≡◌, refl, arith, Bool, true, false, Bool-cases, inl, inr, none, ◌⊎◌, bit_and,
  bit_or, ltb,
}
use ebc_sdr_native.Fitipower.{Divider, settings, speed_reg, vco_freq, xdiv_of, cycles, is_valid}
use ebc_sdr_native.Fitipower.Fc0013.{divider}

-- what the divider of a frequency is
pub record Divides (freq : ℕ) (d : Divider) : Type 0 where
  pub low : 1288800000 ≤ freq * d.multi
  pub high : freq * d.multi < 3794400000

-- the frequencies between the last two dividers, for which the VCO would be too fast
abbrev pub InGap : ℕ → Type 0
InGap freq = (948600000 ≤ freq) × (freq < 950000000)

abbrev pub Outside : ℕ → Type 0
Outside freq = (freq < 948600000) ⊎ (950000000 ≤ freq)

pub divider-Divides :
    (freq : ℕ)
    → 13425000 ≤ freq
    → freq < 1897200000
    → InGap freq ⊎ (Outside freq × Divides freq (divider freq))
unfolding divider
divider-Divides freq h k = elim (Bool-cases (ltb freq 948600000)) [
  | inl e ↦ inr (inl (ground arith), record { low = ground arith; high = ground arith })
  | inr e ↦ elim (Bool-cases (ltb freq 950000000)) [
    | inl e' ↦ inl (ground arith, ground arith)
    | inr e' ↦ inr (inr (ground arith), record { low = ground arith; high = ground arith })
  ]
]

-- register 6 as it is written first, or with the bit of the VCO's range changed
abbrev pub Switched : ℕ → ℕ → Type 0
Switched reg6 v = (v ≡ reg6) ⊎ ((v ≡ bit_and reg6 0xf7) ⊎ (v ≡ bit_or reg6 0x08))

-- the bit of register 6 that the divider sets
pub divider-six :
    (freq bandwidth v : ℕ) (high : Bool)
    → Switched (speed_reg (divider freq) high bandwidth) v
    → bit_and v 0x02 ≡ (divider freq).reg6
unfolding divider
divider-six freq bandwidth v true (inl e) = rw e (ground arith)
divider-six freq bandwidth v true (inr (inl e)) = rw e (ground arith)
divider-six freq bandwidth v true (inr (inr e)) = rw e (ground arith)
divider-six freq bandwidth v false (inl e) = rw e (ground arith)
divider-six freq bandwidth v false (inr (inl e)) = rw e (ground arith)
divider-six freq bandwidth v false (inr (inr e)) = rw e (ground arith)

divider_in_gap : (freq : ℕ) → 948600000 ≤ freq → freq < 950000000 → (divider freq).multi ≡ 4
unfolding divider
divider_in_gap freq h k = ground arith

refused_at :
    (freq : ℕ)
    → 948600000 ≤ freq
    → freq < 950000000
    → is_valid (cycles (xdiv_of (vco_freq freq 4) 14400000)) ≡ false
unfolding cycles xdiv_of
refused_at freq h k = let e : xdiv_of (vco_freq freq 4) 14400000 ≡ 264 = ground arith in rw e refl

pub gap-refused :
    (freq bandwidth : ℕ) → InGap freq → settings (divider freq) freq 28800000 bandwidth ≡ none
unfolding settings
gap-refused freq bandwidth (low, high) =
    let four : (divider freq).multi ≡ 4 = divider_in_gap freq low high in
    let refused : is_valid (cycles (xdiv_of (vco_freq freq (divider freq).multi) 14400000))
        ≡ false =
      rw four (refused_at freq low high) in
    rw (refused, settings) refl
