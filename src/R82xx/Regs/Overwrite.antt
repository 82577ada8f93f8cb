-- ===== src/R82xx/Regs/Overwrite.antt =====
-- The memcpy into the shadow registers of rtl-sdr/src/tuner_r82xx.c against writes to a register file.
use ebc_sdr_native.Prelude.{
  ℕ, zero, suc, ◌+◌, ◌≤◌, ◌<◌, ◌≡◌, refl, ap, true, List, [], ◌∷◌, arith, ◌==◌, if◌then◌else◌,
  length, get_or, set, take, drop,
}
use ebc_sdr_native.I2c.{burn}
use ebc_sdr_native.R82xx.Regs.{overwrite, bytes_eq}

pub overwrite-nil : (xs : List ℕ) (k : ℕ) → overwrite xs k [] ≡ xs
overwrite-nil [] k = refl
overwrite-nil (x ∷ xs) zero = refl
overwrite-nil (x ∷ xs) (suc k) = ap (λ t. x ∷ t) (overwrite-nil xs k)

pub overwrite-cons :
    (xs : List ℕ) (k y : ℕ) (ys : List ℕ)
    → overwrite xs k (y ∷ ys) ≡ overwrite (set xs k y) (suc k) ys
overwrite-cons [] k y ys = refl
overwrite-cons (x ∷ xs) zero y ys = refl
overwrite-cons (x ∷ xs) (suc k) y ys = ap (λ t. x ∷ t) (overwrite-cons xs k y ys)

pub length-overwrite : (xs : List ℕ) (k : ℕ) (ys : List ℕ) → length (overwrite xs k ys) ≡ length xs
length-overwrite [] k ys = refl
length-overwrite (x ∷ xs) zero [] = refl
length-overwrite (x ∷ xs) zero (y ∷ ys) = ap suc (length-overwrite xs zero ys)
length-overwrite (x ∷ xs) (suc k) ys = ap suc (length-overwrite xs k ys)

pub get_or-set :
    (xs : List ℕ) (k j v : ℕ)
    → j < length xs
    → get_or (set xs k v) j 0 ≡ (if j == k then v else get_or xs j 0)
get_or-set [] k j v h = absurd (omega arith)
get_or-set (x ∷ xs) zero zero v h = refl
get_or-set (x ∷ xs) zero (suc j) v h = ground arith
get_or-set (x ∷ xs) (suc k) zero v h = ground arith
get_or-set (x ∷ xs) (suc k) (suc j) v h = ground (arith, get_or-set xs k j v)

pub length-set : (xs : List ℕ) (k v : ℕ) → length (set xs k v) ≡ length xs
length-set [] k v = refl
length-set (x ∷ xs) zero v = refl
length-set (x ∷ xs) (suc k) v = ap suc (length-set xs k v)

-- a write of `ys` from register r = 5 + k on is a write of `ys` over the shadow from `k` on
pub burn-overwrite :
    (f : ℕ → ℕ) (xs : List ℕ) (r k : ℕ) (ys : List ℕ)
    → r ≡ 5 + k
    → ((j : ℕ) → j < length xs → f (5 + j) ≡ get_or xs j 0)
    → (j : ℕ) → j < length xs
    → burn f r ys (5 + j) ≡ get_or (overwrite xs k ys) j 0
burn-overwrite f xs r k [] e same j h = rw (overwrite-nil xs k) (same j h)
burn-overwrite f xs r k (y ∷ ys) e same j h = rw (overwrite-cons xs k y ys) (
    burn-overwrite (λ a. if a == r then y else f a) (set xs k y) (r + 1) (suc k) ys (omega arith)
      (λ j' h'. ground (arith, get_or-set xs k j' y, length-set xs k y, same j')) j
      (rw (length-set xs k y) h))

-- equal bytes in the shadow: the write would change nothing
pub overwrite-equal :
    (xs : List ℕ) (k : ℕ) (ys : List ℕ)
    → k + length ys ≤ length xs
    → bytes_eq (take (length ys) (drop k xs)) ys ≡ true
    → overwrite xs k ys ≡ xs
overwrite-equal [] k ys h e = refl
overwrite-equal (x ∷ xs) zero [] h e = refl
overwrite-equal (x ∷ xs) zero (y ∷ ys) h e = ground (arith, overwrite-equal xs zero ys)
overwrite-equal (x ∷ xs) (suc k) ys h e = ap (λ t. x ∷ t) (overwrite-equal xs k ys (omega arith) e)

pub burn-split :
    (f : ℕ → ℕ) (r n : ℕ) (xs : List ℕ) (a : ℕ)
    → n ≤ length xs
    → burn (burn f r (take n xs)) (r + n) (drop n xs) a ≡ burn f r xs a
burn-split f r zero xs a h = ap (λ t. burn f t xs a) (omega arith)
burn-split f r (suc n) [] a h = absurd (omega arith)
burn-split f r (suc n) (x ∷ xs) a h =
    let e : r + suc n ≡ r + 1 + n = omega arith in
    rw e (burn-split (λ b. if b == r then x else f b) (r + 1) n xs a (omega arith))

pub burn-cong :
    (f g : ℕ → ℕ) (r : ℕ) (xs : List ℕ) (a : ℕ)
    → ((b : ℕ) → f b ≡ g b)
    → burn f r xs a ≡ burn g r xs a
burn-cong f g r [] a h = h a
burn-cong f g r (x ∷ xs) a h =
    burn-cong (λ b. if b == r then x else f b) (λ b. if b == r then x else g b) (r + 1) xs a
      (λ b. ground (arith, h b))
