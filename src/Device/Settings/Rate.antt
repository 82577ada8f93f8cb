-- ===== src/Device/Settings/Rate.antt =====
-- The resampling ratio of rtlsdr_set_sample_rate() in rtl-sdr/src/librtlsdr.c: 28 bits, of which the
-- highest is repeated above them, so that not every ratio can be stored.
use ebc_sdr_native.Prelude.{
  ℕ, suc, ◌+◌, ◌*◌, ◌/◌, ◌%◌, ◌≤◌, ◌<◌, ◌≡◌, ◌⊎◌, inl, inr, refl, sym, ap, ◌∙◌, arith, bit_and,
  bit_or, false, ltb, leb, ltb→lt, ltb→ge, Bool-cases, zero,
}
use ebc_sdr_native.Prelude.Bits.{ones, bit_and_shift, bit_or_shift, bit_and-ones}
use ebc_sdr_native.Device.Settings.{is_invalid_rate, rsamp_ratio, real_rsamp_ratio, real_rate}
use Prim.Native.Nat.{bit_or-bitwise}
use native.Mathlib.Nat.{div-mul-le_self, lt-div-mul-add, mul-le-mul_right}

-- 28.8 MHz * 2^22, and the quotient for a rate
abbrev clock : ℕ
clock = 28800000 * 4194304

le_div : (a b x : ℕ) → 0 < b → a * b ≤ x → a ≤ x / b
le_div a b x p h = elim (Bool-cases (ltb (x / b) a)) [
  | inl c ↦
      let step = mul-le-mul_right {m = x / b + 1} {n = a} b (omega (arith, ltb→lt (x / b) a c)) in
      absurd (omega (arith, step, h, lt-div-mul-add {a = x} p))
  | inr c ↦ ltb→ge (x / b) a c
]

div_lt : (a b x : ℕ) → 0 < b → x < a * b → x / b < a
div_lt a b x p h = elim (Bool-cases (ltb (x / b) a)) [
  | inl c ↦ ltb→lt (x / b) a c
  | inr c ↦
      let step = mul-le-mul_right b (ltb→ge (x / b) a c) in
      absurd (omega (arith, step, h, div-mul-le_self x b))
]

-- the bit above the others
low_bit : (x : ℕ) → x ≤ 1 → bit_and x 1 ≡ x
low_bit zero h = refl
low_bit (suc zero) h = refl
low_bit (suc (suc x)) h = absurd (omega arith)

zero-bit_or : (x : ℕ) → bit_or 0 x ≡ x
zero-bit_or x = bit_or-bitwise 0 x

sign_bit : (r : ℕ) → r < 268435456 → bit_and r 0x08000000 ≡ r / 134217728 * 134217728
sign_bit r h =
    let e : r / 134217728 * 134217728 + r % 134217728 ≡ r = omega arith in
    let shifted = bit_and_shift 27 (r / 134217728) (r % 134217728) 1 (omega arith) in
    ap (λ x. bit_and x 0x08000000) (sym e)
    ∙ shifted
    ∙ ap (λ x. x * 134217728) (low_bit (r / 134217728) (omega arith))

real_rsamp_ratio_lem : (r : ℕ) → r < 268435456 → real_rsamp_ratio r ≡ r / 134217728 * 268435456 + r
unfolding real_rsamp_ratio
real_rsamp_ratio_lem r h =
    let e : bit_and r 0x08000000 * 2 ≡ r / 134217728 * 268435456 = omega (arith, sign_bit r h) in
    let none_above : 0 * 268435456 + r ≡ r = omega arith in
    ap (bit_or r) e
    ∙ sym (ap (λ x. bit_or x (r / 134217728 * 268435456)) none_above)
    ∙ bit_or_shift 28 0 r (r / 134217728) h
    ∙ ap (λ x. x * 268435456 + r) (zero-bit_or (r / 134217728))

-- what is stored of a quotient
masked :
    (q : ℕ)
    → (k : ℕ) × ((q / 4 ≡ k * 67108864 + bit_and q 0x0ffffffc / 4)
        × ((bit_and q 0x0ffffffc < 268435456) × (bit_and q 0x0ffffffc % 4 ≡ 0)))
masked q =
    let (k, (e, b)) = bit_and-ones 26 (q / 4) in
    let split : q / 4 * 4 + q % 4 ≡ q = omega arith in
    let kept : bit_and q 0x0ffffffc ≡ bit_and (q / 4) (ones 26) * 4 =
      ap (λ x. bit_and x 0x0ffffffc) (sym split)
      ∙ bit_and_shift 2 (q / 4) (q % 4) (ones 26) (omega arith) in
    (k, (omega (arith, kept, e), (omega (arith, kept, b), omega (arith, kept))))

bounds :
    (rate : ℕ)
    → is_invalid_rate rate ≡ false
    → ((402653184 ≤ clock / rate) × (clock / rate < 536870912))
      ⊎ ((37748736 ≤ clock / rate) × (clock / rate < 134217728))
bounds rate h = elim (Bool-cases (leb rate 300000)) [
  | inl c ↦
      let above : 225000 < rate = ground arith in
      let below : rate ≤ 300000 = ground arith in
      inl (
        le_div _ rate clock (omega arith) (omega arith),
        div_lt _ rate clock (omega arith) (omega arith),
      )
  | inr c ↦
      let above : 900000 < rate = ground arith in
      let below : rate ≤ 3200000 = ground arith in
      inr (
        le_div _ rate clock (omega arith) (omega arith),
        div_lt _ rate clock (omega arith) (omega arith),
      )
]

real_ratio_lem :
    (rate : ℕ)
    → is_invalid_rate rate ≡ false
    → real_rsamp_ratio (rsamp_ratio 28800000 rate) ≡ clock / rate / 4 * 4
unfolding rsamp_ratio
real_ratio_lem rate h =
    let q = clock / rate in
    let (k, (e, (b, m))) = masked q in
    let stored = real_rsamp_ratio_lem (bit_and q 0x0ffffffc) b in
    elim (bounds rate h) [
      | inl r ↦ omega (arith, stored, e, b, m, r.0, r.1)
      | inr r ↦ omega (arith, stored, e, b, m, r.0, r.1)
    ]

-- With the crystal of 28.8 MHz every rate that is not refused is the rate that the stored ratio
-- stands for, cut to a number of Hz.
pub real_rate-id : (rate : ℕ) → is_invalid_rate rate ≡ false → real_rate 28800000 rate ≡ rate
unfolding real_rate
real_rate-id rate h =
    let q = clock / rate in
    let ratio = q / 4 * 4 in
    let pos_rate : 0 < rate = ground arith in
    let fast : rate ≤ 3200000 = ground arith in
    let large : 37748736 ≤ q = elim (bounds rate h) [ inl r ↦ omega (arith, r.0) | inr r ↦ r.0 ] in
    let under : ratio * rate ≤ q * rate = mul-le-mul_right rate (omega arith) in
    let over : q * rate ≤ (ratio + 3) * rate = mul-le-mul_right rate (omega arith) in
    let cut = div-mul-le_self clock rate in
    let next = lt-div-mul-add {a = clock} pos_rate in
    let low : rate ≤ clock / ratio =
      le_div rate ratio clock (omega arith) (omega (arith, under, cut)) in
    let high : clock / ratio < suc rate =
      div_lt (suc rate) ratio clock (omega arith) (omega (arith, over, next)) in
    ap (λ r. clock / r) (real_ratio_lem rate h) ∙ omega arith
