-- ===== src/E4k/Accuracy.antt =====
-- How close e4k_compute_pll_params() of rtl-sdr/src/tuner_e4k.c comes to the frequency it is asked for.
use native.Mathlib.Nat.{div-mul-le_self, lt-div-mul-add, mul-le-mul_right, mul-le-mul}
use ebc_sdr_native.Prelude.{
  ℕ, ◌+◌, ◌-◌, ◌*◌, ◌/◌, ◌%◌, ◌^◌, ◌≤◌, ◌<◌, ◌≡◌, refl, arith, Bool, true, ◌&&◌, Bool-cases, inl,
  inr, Option, none, some, List, [], ◌∷◌, ltb, leb, ltb→lt, ltb→ge, ge→ltb, ne→==,
}
use ebc_sdr_native.E4k.{
  PllSettings, pll_vars, find_settings, is_fosc_valid, compute_fvco, compute_flo, PllParams, params,
  e4k_compute_pll_params,
}

-- the oscillator times z and the fraction x / 65536 is at most 458 Hz below the wanted VCO frequency
fvco-near :
    (fosc v z x : ℕ)
    → 0 < fosc
    → fosc ≤ 30000000
    → z ≡ v / fosc
    → x ≡ (v - fosc * z) * 65536 / fosc
    → (x < 65536) × (compute_fvco fosc z x ≤ v) × (v ≤ compute_fvco fosc z x + 458)
unfolding compute_fvco
fvco-near fosc v z x pos small ez ex =
    let zl : z * fosc ≤ v = rw ez (div-mul-le_self v fosc) in
    let zh : v < z * fosc + fosc = rw ez (lt-div-mul-add pos) in
    let xl : x * fosc ≤ (v - fosc * z) * 65536 =
      rw ex (div-mul-le_self ((v - fosc * z) * 65536) fosc) in
    let xh : (v - fosc * z) * 65536 < x * fosc + fosc = rw ex (lt-div-mul-add pos) in
    (
      elim (Bool-cases (ltb x 65536)) [
        | inl e ↦ ltb→lt _ _ e
        | inr e ↦
            let le : 65536 * fosc ≤ x * fosc = mul-le-mul_right fosc (ltb→ge _ _ e) in
            absurd (omega arith)
      ],
      omega arith,
      omega arith,
    )

-- the multiplier is between 2 and 48, and keeps the VCO at or below 4.8 GHz
record Suits (flo : ℕ) (s : PllSettings) : Type 0 where
  low : 2 ≤ s.mult
  high : s.mult ≤ 48
  vco : flo * s.mult ≤ 4800000000

good : List PllSettings → Bool
good [] = true
good (s ∷ rest) = leb 2 s.mult && leb s.mult 48 && leb (s.freq * s.mult) 4800000000 && good rest

find_settings-Suits :
    (flo : ℕ) (rest : List PllSettings)
    → flo ≤ 2100000000
    → good rest ≡ true
    → Suits flo (find_settings flo rest)
unfolding find_settings good
find_settings-Suits flo [] h g = record { low = omega arith; high = omega arith; vco = omega arith }
find_settings-Suits flo (s ∷ rest) h g = elim (Bool-cases (ltb flo s.freq)) [
  | inl e ↦ rw e (
      let below : flo * s.mult ≤ s.freq * s.mult =
        mul-le-mul_right s.mult (omega (arith, ltb→lt _ _ e)) in
      record { low = ground arith; high = ground arith; vco = ground arith })
  | inr e ↦ rw e (find_settings-Suits flo rest h (ground arith))
]

-- The frequency that is tuned is at most the one that is asked for and at most 230 Hz below it, and the
-- multipliers fit the chip's registers.
pub record Close (intended_flo : ℕ) (p : PllParams) : Type 0 where
  pub not_above : p.flo ≤ intended_flo
  pub near : intended_flo ≤ p.flo + 230
  pub z_fits : p.z < 256
  pub x_fits : p.x < 65536

abbrev pub IsClose : ℕ → Option PllParams → Type 0
IsClose intended_flo none = ⊥
IsClose intended_flo (some p) = Close intended_flo p

quotient-near :
    (c r flo : ℕ) → 2 ≤ r → c ≤ flo * r → flo * r ≤ c + 458 → (c / r ≤ flo) × (flo ≤ c / r + 230)
quotient-near c r flo r2 lo hi =
    let below : c / r * r ≤ c = div-mul-le_self c r in
    let above : c < c / r * r + r = lt-div-mul-add (omega arith) in
    (
      elim (Bool-cases (ltb flo (c / r))) [
        | inr e ↦ ltb→ge _ _ e
        | inl e ↦
            let le : (flo + 1) * r ≤ c / r * r = mul-le-mul_right r (omega (arith, ltb→lt _ _ e)) in
            absurd (omega arith)
      ],
      elim (Bool-cases (ltb (c / r + 230) flo)) [
        | inr e ↦ ltb→ge _ _ e
        | inl e ↦
            let le : (c / r + 231) * r ≤ flo * r =
              mul-le-mul_right r (omega (arith, ltb→lt _ _ e)) in
            absurd (omega arith)
      ],
    )

compute_flo-quotient :
    (fosc z x r : ℕ)
    → 0 < compute_fvco fosc z x
    → compute_fvco fosc z x / r < 2 ^ 32
    → compute_flo fosc z x r ≡ compute_fvco fosc z x / r
unfolding compute_flo
compute_flo-quotient fosc z x r pos small =
    rw (ne→== (compute_fvco fosc z x) 0 (omega arith))
      (let e : compute_fvco fosc z x / r % 2 ^ 32 ≡ compute_fvco fosc z x / r = omega arith in e)

params-Close :
    (fosc flo : ℕ) (s : PllSettings)
    → 19000000 ≤ fosc
    → fosc ≤ 30000000
    → 20000000 ≤ flo
    → flo ≤ 2100000000
    → Suits flo s
    → Close flo (params fosc flo s)
unfolding params
params-Close fosc flo s fl fh low high suits =
    let v : ℕ = flo * s.mult in
    let z : ℕ = v / fosc in
    let x : ℕ = (v - fosc * z) * 65536 / fosc in
    let (xs, lo, hi) = fvco-near fosc v z x (omega arith) fh refl refl in
    let zl : z * fosc ≤ v = div-mul-le_self v fosc in
    let large : 20000000 * 2 ≤ v = mul-le-mul low suits.low in
    let zs : z < 256 = elim (Bool-cases (ltb z 256)) [
      | inl e ↦ ltb→lt _ _ e
      | inr e ↦
          let le : 256 * fosc ≤ z * fosc = mul-le-mul_right fosc (ltb→ge _ _ e) in
          absurd (omega (arith, suits.vco))
    ] in
    let (ql, qh) = quotient-near (compute_fvco fosc z x) s.mult flo suits.low lo hi in
    let e1 : z % 256 ≡ z = omega arith in
    let e2 : x % 2 ^ 32 % 65536 ≡ x = omega arith in
    let e3 = compute_flo-quotient fosc z x s.mult (omega arith) (omega arith) in
    rw (e1, e2, e3) (record { not_above = ql; near = qh; z_fits = zs; x_fits = xs })

-- For an oscillator between 19 and 30 MHz and a frequency between 20 and 2100 MHz
-- e4k_compute_pll_params() succeeds; the frequency it returns is at most the one that is asked for and at
-- most 230 Hz below it, and its multipliers are not cut off by the chip's registers.
pub e4k_compute_pll_params-IsClose :
    (fosc intended_flo : ℕ)
    → 19000000 ≤ fosc
    → fosc ≤ 30000000
    → 20000000 ≤ intended_flo
    → intended_flo ≤ 2100000000
    → IsClose intended_flo (e4k_compute_pll_params fosc intended_flo)
unfolding e4k_compute_pll_params is_fosc_valid good
e4k_compute_pll_params-IsClose fosc flo fl fh low high =
    rw (ge→ltb fosc 16000000 (omega arith), ge→ltb 30000000 fosc fh)
      (params-Close fosc flo (find_settings flo pll_vars) fl fh low high
        (find_settings-Suits flo pll_vars high refl))
