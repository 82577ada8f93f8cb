-- ===== src/R82xx/Pll/Tuning.antt =====
-- The numbers that r82xx_set_pll() of rtl-sdr/src/tuner_r82xx.c programs: the mixer divider, and the
-- fraction that the VCO runs at.
use native.Mathlib.Nat.{div-mul-le_self, lt-div-mul-add, mul-le-mul_right}
use ebc_sdr_native.Prelude.{
  ℕ, suc, ◌+◌, ◌*◌, ◌/◌, ◌%◌, ◌^◌, ◌≤◌, ◌<◌, ◌≡◌, refl, arith, true, Bool-cases, inl, inr, ltb, leb,
  ltb→lt, ltb→ge, lt→ltb,
}
use ebc_sdr_native.R82xx.Pll.{
  vco_min, vco_max, Divider, halvings, find_divider, to_khz, divider, vco_div, nint_of, sdm_of,
  ni_of, si_of,
}

-- the VCO is in its range, and div_num is the binary logarithm of half the divider
pub record InRange (khz : ℕ) (d : Divider) : Type 0 where
  pub low : vco_min ≤ khz * d.mix_div
  pub high : khz * d.mix_div < vco_max
  pub power : d.mix_div ≡ 2 * 2 ^ d.div_num
  pub byte : d.mix_div ≤ 64

step :
    (fuel khz m : ℕ)
    → m ≡ 2 * 2 ^ halvings 8 m
    → m ≤ 64
    → khz * m < vco_max
    → (khz * m < vco_min → InRange khz (find_divider fuel khz (m * 2)))
    → InRange khz (find_divider (suc fuel) khz m)
unfolding find_divider
step fuel khz m power small high next = elim (Bool-cases (leb vco_min (khz * m))) [
  | inl e ↦
      rw (le→leb m 64 small, e, lt→ltb _ _ high)
        (record { low = ground arith; high = high; power = power; byte = small })
  | inr e ↦ rw (le→leb m 64 small, e) (next (ground arith))
]
  where
    le→leb : (a b : ℕ) → a ≤ b → leb a b ≡ true
    le→leb a b h = ground arith

find_divider-InRange : (khz : ℕ) → 27657 ≤ khz → khz < 1770000 → InRange khz (find_divider 7 khz 2)
unfolding halvings
find_divider-InRange khz low high = step 6 khz 2 refl (omega arith) (omega arith) λ h.
    step 5 khz 4 refl (omega arith) (omega arith) λ h.
      step 4 khz 8 refl (omega arith) (omega arith) λ h.
        step 3 khz 16 refl (omega arith) (omega arith) λ h.
          step 2 khz 32 refl (omega arith) (omega arith)
            λ h. step 1 khz 64 refl (omega arith) (omega arith) λ h. absurd (omega arith)

-- a rounded quotient is within half its divisor
round-near :
    (p n : ℕ)
    → 0 < p
    → ((p + n) / (2 * p) * (2 * p) ≤ p + n) × (n < (p + n) / (2 * p) * (2 * p) + p)
round-near p n h =
    let below = div-mul-le_self (p + n) (2 * p) in
    let above : p + n < (p + n) / (2 * p) * (2 * p) + 2 * p = lt-div-mul-add (omega arith) in
    (below, omega arith)

-- The VCO runs at 2 * pll_ref * (nint + sdm / 65536), which is within pll_ref / 65536 of mix_div times
-- the frequency; nint and sdm fit their registers, and so do ni and si, which together are nint.
pub record Tunes (pll_ref freq : ℕ) : Type 0 where
  pub in_range : InRange (to_khz freq) (divider freq)
  pub div : ℕ
  pub computed : div ≡ vco_div pll_ref (freq * (divider freq).mix_div)
  pub split : div ≡ nint_of div * 65536 + sdm_of div
  pub low : div * (2 * pll_ref) ≤ 65536 * (freq * (divider freq).mix_div) + pll_ref
  pub high : 65536 * (freq * (divider freq).mix_div) < div * (2 * pll_ref) + pll_ref
  pub nint_fits : nint_of div < 128
  pub sdm_fits : sdm_of div < 65536
  pub joined : nint_of div ≡ 4 * ni_of (nint_of div) + si_of (nint_of div) + 13
  pub si_fits : si_of (nint_of div) < 4
  pub ni_fits : ni_of (nint_of div) < 32

-- the two sums that bound a VCO frequency whose divider is in range
vco-near :
    (freq khz m : ℕ)
    → khz * 1000 ≤ freq + 500
    → freq < khz * 1000 + 500
    → m ≤ 64
    → (khz * m * 1000 ≤ freq * m + 32000) × (freq * m ≤ khz * m * 1000 + 32000)
vco-near freq khz m lo hi small =
    let a : khz * 1000 * m ≤ (freq + 500) * m = mul-le-mul_right m lo in
    let b : freq * m ≤ (khz * 1000 + 500) * m = mul-le-mul_right m (omega arith) in
    (omega arith, omega arith)

split_nint :
    (n : ℕ) → 13 ≤ n → n < 128 → (n ≡ 4 * ni_of n + si_of n + 13) × (si_of n < 4) × (ni_of n < 32)
unfolding ni_of si_of
split_nint n low high = ground arith

-- the quotient is at least 13 and below 128 for a crystal between 14 and 60 MHz
quotient-bounds :
    (p n q : ℕ)
    → 14000000 ≤ p
    → p ≤ 60000000
    → 1769968000 ≤ n
    → n ≤ 3540032000
    → q * (2 * p) ≤ p + 65536 * n
    → 65536 * n < q * (2 * p) + p
    → (851968 ≤ q) × (q < 8388608)
quotient-bounds p n q pl ph nl nh below above = (
  elim (Bool-cases (ltb q 851968)) [
    | inl e ↦
        let le : q * (2 * p) ≤ 851967 * (2 * p) =
          mul-le-mul_right (2 * p) (omega (arith, ltb→lt _ _ e)) in
        absurd (omega arith)
    | inr e ↦ ltb→ge _ _ e
  ],
  elim (Bool-cases (ltb q 8388608)) [
    | inl e ↦ ltb→lt _ _ e
    | inr e ↦
        let le : 8388608 * (2 * p) ≤ q * (2 * p) = mul-le-mul_right (2 * p) (ltb→ge _ _ e) in
        absurd (omega arith)
  ],
)

to_khz-near :
    (freq : ℕ)
    → freq < 2000000000
    → (to_khz freq * 1000 ≤ freq + 500) × (freq < to_khz freq * 1000 + 500)
unfolding to_khz
to_khz-near freq h = (omega arith, omega arith)

vco_div-near :
    (p n : ℕ)
    → 0 < p
    → p ≤ 60000000
    → (vco_div p n * (2 * p) ≤ p + 65536 * n) × (65536 * n < vco_div p n * (2 * p) + p)
unfolding vco_div
vco_div-near p n pos small =
    let e : 2 * p % 2 ^ 32 ≡ 2 * p = omega arith in rw e (round-near p (65536 * n) pos)

-- the quotient as the integer and the fraction that set_pll() stores
halves :
    (q : ℕ)
    → 851968 ≤ q
    → q < 8388608
    → (q ≡ nint_of q * 65536 + sdm_of q) × (sdm_of q < 65536) × (13 ≤ nint_of q) × (nint_of q < 128)
unfolding nint_of sdm_of
halves q low high = (omega arith, omega arith, omega arith, omega arith)

divider-InRange :
    (freq : ℕ) → 27657000 ≤ freq → freq < 1769999500 → InRange (to_khz freq) (divider freq)
unfolding divider
divider-InRange freq low high =
    let (a, b) = to_khz-near freq (omega arith) in
    find_divider-InRange (to_khz freq) (omega arith) (omega arith)

-- With a crystal between 14 and 60 MHz, and for every frequency from 27.657 MHz to below 1769.9995 MHz,
-- the divider that r82xx_set_pll() finds keeps the VCO in its range, the fraction it computes is as
-- close to the VCO's frequency as 16 bits allow, and nint, sdm, ni and si are not cut off.
pub divider-Tunes :
    (pll_ref freq : ℕ)
    → 14000000 ≤ pll_ref
    → pll_ref ≤ 60000000
    → 27657000 ≤ freq
    → freq < 1769999500
    → Tunes pll_ref freq
divider-Tunes p freq pl ph fl fh =
    let m = (divider freq).mix_div in
    let range = divider-InRange freq fl fh in
    let (kl, kh) = to_khz-near freq (omega arith) in
    let (nl, nh) = vco-near freq (to_khz freq) m kl kh range.byte in
    let (below, above) = vco_div-near p (freq * m) (omega arith) ph in
    let (ql, qh) =
      quotient-bounds p (freq * m) (vco_div p (freq * m)) pl ph (omega (arith, range.low))
        (omega (arith, range.high)) below above in
    let (split, sdm, nint_low, nint_high) = halves (vco_div p (freq * m)) ql qh in
    let (joined, si, ni) = split_nint (nint_of (vco_div p (freq * m))) nint_low nint_high in
    record {
      in_range = range;
      div = vco_div p (freq * m);
      computed = refl;
      split = split;
      low = omega arith;
      high = above;
      nint_fits = nint_high;
      sdm_fits = sdm;
      joined = joined;
      si_fits = si;
      ni_fits = ni;
    }
