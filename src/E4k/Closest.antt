-- ===== src/E4k/Closest.antt =====
-- closest_arr_idx() of rtl-sdr/src/tuner_e4k.c finds the entry nearest to a frequency.
use mathlib.Core.Path.{subst}
use ebc_sdr_native.Prelude.{
  ℕ, zero, suc, ◌+◌, ◌≤◌, ◌<◌, ◌≡◌, refl, sym, ◌∙◌, arith, Bool-cases, inl, inr, List, [], ◌∷◌, ◌⊎◌,
  ltb, ltb→lt, ltb→ge, length, get_or,
}
use ebc_sdr_native.E4k.{unsigned_delta, closest_loop, closest_arr_idx}

-- the distance of `freq` to an entry
abbrev pub distance : ℕ → List ℕ → ℕ → ℕ
distance freq arr j = unsigned_delta freq (get_or arr j 0)

-- the index is within the array, no entry is nearer, and the earlier ones are farther
pub record IsNearest (freq : ℕ) (arr : List ℕ) (k : ℕ) : Type 0 where
  pub in_array : k < length arr
  pub nearest : (j : ℕ) → j < length arr → distance freq arr k ≤ distance freq arr j
  pub first : (j : ℕ) → j < k → distance freq arr k < distance freq arr j

-- The loop keeps the best of what it has seen, or finds the first best of the rest.
abbrev Found : ℕ → List ℕ → ℕ → ℕ → ℕ → ℕ → Type 0
Found freq xs i best bi k =
    ((k ≡ bi) × ((j : ℕ) → j < length xs → best ≤ distance freq xs j))
    ⊎ ((n : ℕ) × (k ≡ i + n)
        × (n < length xs)
        × (distance freq xs n < best)
        × ((j : ℕ) → j < length xs → distance freq xs n ≤ distance freq xs j)
        × ((j : ℕ) → j < n → distance freq xs n < distance freq xs j))

keep :
    (freq x : ℕ) (xs : List ℕ) (i best bi k : ℕ)
    → best ≤ unsigned_delta freq x
    → Found freq xs (i + 1) best bi k
    → Found freq (x ∷ xs) i best bi k
keep freq x xs i best bi k h (inl (e, rest)) =
    inl (e, elim [ zero ↦ λ l. h | suc j ↦ λ l. rest j (omega arith) ])
keep freq x xs i best bi k h (inr (n, e, inside, better, least, earlier)) = inr (
  suc n,
  omega arith,
  omega arith,
  better,
  elim [ zero ↦ λ l. omega arith | suc j ↦ λ l. least j (omega arith) ],
  elim [ zero ↦ λ l. omega arith | suc j ↦ λ l. earlier j (omega arith) ],
)

improve :
    (freq x : ℕ) (xs : List ℕ) (i best bi k : ℕ)
    → unsigned_delta freq x < best
    → Found freq xs (i + 1) (unsigned_delta freq x) i k
    → Found freq (x ∷ xs) i best bi k
improve freq x xs i best bi k h (inl (e, rest)) = inr (
  0,
  omega arith,
  omega arith,
  h,
  elim [ zero ↦ λ l. omega arith | suc j ↦ λ l. rest j (omega arith) ],
  λ j l. absurd (omega arith),
)
improve freq x xs i best bi k h (inr (n, e, inside, better, least, earlier)) = inr (
  suc n,
  omega arith,
  omega arith,
  omega arith,
  elim [ zero ↦ λ l. omega arith | suc j ↦ λ l. least j (omega arith) ],
  elim [ zero ↦ λ l. better | suc j ↦ λ l. earlier j (omega arith) ],
)

closest_loop-Found :
    (freq : ℕ) (xs : List ℕ) (i best bi : ℕ)
    → Found freq xs i best bi (closest_loop freq xs i best bi)
unfolding closest_loop
closest_loop-Found freq [] i best bi = inl (refl, λ j l. absurd (omega arith))
closest_loop-Found freq (x ∷ xs) i best bi =
    let better = closest_loop-Found freq xs (i + 1) (unsigned_delta freq x) i in
    let same = closest_loop-Found freq xs (i + 1) best bi in
    elim (Bool-cases (ltb (unsigned_delta freq x) best)) [
      | inl e ↦ rw (e, closest_loop) (improve freq x xs i best bi _ (ltb→lt _ _ e) better)
      | inr e ↦ rw (e, closest_loop) (keep freq x xs i best bi _ (ltb→ge _ _ e) same)
    ]

delta-small : (a b : ℕ) → a < 0xffffffff → b < 0xffffffff → unsigned_delta a b < 0xffffffff
unfolding unsigned_delta
delta-small a b ha hb = ground arith

-- For an array with at least one entry, its first one and the frequency below 2^32 - 1,
-- closest_arr_idx() returns the index of the first of the entries that are nearest to the frequency.
pub closest_arr_idx-IsNearest :
    (freq x : ℕ) (xs : List ℕ)
    → freq < 0xffffffff
    → x < 0xffffffff
    → IsNearest freq (x ∷ xs) (closest_arr_idx (x ∷ xs) freq)
unfolding closest_arr_idx
closest_arr_idx-IsNearest freq x xs hf hx = elim (closest_loop-Found freq (x ∷ xs) 0 0xffffffff 0) [
  | inl (e, none_better) ↦
      let far : 0xffffffff ≤ unsigned_delta freq x = none_better 0 (omega arith) in
      absurd (omega (arith, delta-small freq x hf hx))
  | inr (n, e, inside, better, least, earlier) ↦
      let k : closest_loop freq (x ∷ xs) 0 0xffffffff 0 ≡ n = e ∙ omega arith in
      subst (IsNearest freq (x ∷ xs)) (sym k)
        (record { in_array = inside; nearest = least; first = earlier })
]
