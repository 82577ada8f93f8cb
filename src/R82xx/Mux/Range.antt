-- ===== src/R82xx/Mux/Range.antt =====
-- The tracking filter range that r82xx_set_mux() of rtl-sdr/src/tuner_r82xx.c finds.
use mathlib.Core.List.{Memᴰ}
use mathlib.Core.List.Memᴰ.{head, tail}
use ebc_sdr_native.Prelude.{
  ℕ, ◌/◌, ◌≤◌, ◌<◌, ◌≡◌, refl, Bool, true, ◌&&◌, List, [], ◌∷◌, arith, ltb, ltb→lt, ltb→ge,
  Bool-cases, inl, inr,
}
use ebc_sdr_native.R82xx.Tables.{FreqRange, first_range, later_ranges}
use ebc_sdr_native.R82xx.Mux.{find_range, freq_range}

-- `x` is the last of the ranges that start at `mhz` or below
pub record IsLast (mhz : ℕ) (x : FreqRange) (ranges : List FreqRange) : Type 0 where
  pub member : Memᴰ x ranges
  pub starts : x.freq ≤ mhz
  pub last : (y : FreqRange) → Memᴰ y ranges → y.freq ≤ mhz → y.freq ≤ x.freq

ascending : FreqRange → List FreqRange → Bool
ascending r [] = true
ascending r (n ∷ rest) = ltb r.freq n.freq && ascending n rest

ascending-above :
    (r : FreqRange) (rest : List FreqRange) (y : FreqRange)
    → ascending r rest ≡ true
    → Memᴰ y rest
    → r.freq < y.freq
unfolding ascending
ascending-above r [] y h m = elim m [ ]
ascending-above r (n ∷ rest) y h (head e) = rw e (ground arith)
ascending-above r (n ∷ rest) y h (tail m) =
    let above : n.freq < y.freq = ascending-above n rest y (ground arith) m in ground arith

module _ (mhz : ℕ) where
  IsLast-here :
      (r : FreqRange) (rest : List FreqRange)
      → r.freq ≤ mhz
      → ((y : FreqRange) → Memᴰ y rest → mhz < y.freq)
      → IsLast mhz r (r ∷ rest)
  IsLast-here r rest starts above = record {
    member = head refl;
    starts = starts;
    last = λ y m h. among y m h;
  }
    where
      among : (y : FreqRange) → Memᴰ y (r ∷ rest) → y.freq ≤ mhz → y.freq ≤ r.freq
      among y (head e) h = rw e (omega arith)
      among y (tail m) h = absurd (omega (arith, above y m))

  IsLast-later :
      (x r : FreqRange) (rest : List FreqRange)
      → r.freq ≤ x.freq
      → IsLast mhz x rest
      → IsLast mhz x (r ∷ rest)
  IsLast-later x r rest le p = record { member = tail p.member; starts = p.starts; last = among }
    where
      among : (y : FreqRange) → Memᴰ y (r ∷ rest) → y.freq ≤ mhz → y.freq ≤ x.freq
      among y (head e) h = rw e le
      among y (tail m) h = p.last y m h

  find_range-IsLast :
      (r : FreqRange) (rest : List FreqRange)
      → ascending r rest ≡ true
      → r.freq ≤ mhz
      → IsLast mhz (find_range mhz r rest) (r ∷ rest)
  unfolding find_range ascending
  find_range-IsLast r [] h starts = IsLast-here r [] starts (λ y m. elim m [ ])
  find_range-IsLast r (n ∷ rest) h starts = elim (Bool-cases (ltb mhz n.freq)) [
    | inl e ↦ rw e (
        IsLast-here r (n ∷ rest) starts
          (λ y m. let later = above-next y m in omega (arith, ltb→lt _ _ e)))
    | inr e ↦ rw e (
        let p = find_range-IsLast n rest (ground arith) (ltb→ge _ _ e) in
        IsLast-later _ r (n ∷ rest) (ground (arith, p.last n (head refl) (ltb→ge _ _ e))) p)
  ]
    where
      above-next : (y : FreqRange) → Memᴰ y (n ∷ rest) → n.freq ≤ y.freq
      above-next y (head e) = rw e (omega arith)
      above-next y (tail m) =
          let above : n.freq < y.freq = ascending-above n rest y (ground arith) m in omega arith

-- For every frequency r82xx_set_mux() takes the last entry of its table that starts at that frequency,
-- cut to whole MHz, or below it.
pub freq_range-IsLast :
    (freq : ℕ) → IsLast (freq / 1000000) (freq_range freq) (first_range ∷ later_ranges)
unfolding freq_range ascending
freq_range-IsLast freq =
    find_range-IsLast (freq / 1000000) first_range later_ranges refl (omega arith)
