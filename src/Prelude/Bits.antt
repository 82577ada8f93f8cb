-- ===== src/Prelude/Bits.antt =====
-- The bits of a number one by one, and what the bitwise operations do to each. `bit_or` and `bit_and`
-- are read digit by digit from the definitions that the native operations stand for.
use Prim.Native.Nat.{
  ℕ, zero, suc, ◌+◌, ◌-◌, ◌*◌, ◌/◌, ◌%◌, ◌≤◌, ◌<◌, min, max, bit_and, bit_or, digits,
  bit_and-bitwise, bit_or-bitwise,
}
use mathlib.Core.Path.{◌≡◌, refl, sym, ap, ◌∙◌}
use native.Mathlib.Omega.{arith}

-- the bit of `x` at position `j`, counted from the lowest
abbrev pub test_bit : ℕ → ℕ → ℕ
test_bit x zero = x % 2
test_bit x (suc j) = test_bit (x / 2) j

-- The digits of `a` are used up after at most `a` of them, so that one more to go, and then any number
-- of them, changes nothing.
module _ (z : ℕ → ℕ) (f : ℕ → ℕ → ℕ) where
  spare_one : (a b togo : ℕ) → a ≤ togo → digits z f (suc togo) a b ≡ digits z f togo a b
  spare_one zero b zero h = refl
  spare_one zero b (suc togo) h = refl
  spare_one (suc a) b zero h = absurd (omega arith)
  spare_one (suc a) b (suc togo) h =
      let half = spare_one (suc a / 2) (b / 2) togo (omega arith) in
      ap (λ high. high * 2 + f (suc a % 2) (b % 2)) half

  spare : (more a b : ℕ) → digits z f (more + a) a b ≡ digits z f a a b
  spare zero a b = let e : 0 + a ≡ a = omega arith in ap (λ togo. digits z f togo a b) e
  spare (suc more) a b =
      let e : suc more + a ≡ suc (more + a) = omega arith in
      ap (λ togo. digits z f togo a b) e ∙ spare_one a b (more + a) (omega arith) ∙ spare more a b

  digits-suc :
      (a b : ℕ)
      → digits z f (suc a) (suc a) b
        ≡ digits z f (suc a / 2) (suc a / 2) (b / 2) * 2 + f (suc a % 2) (b % 2)
  digits-suc a b =
      let e : a ≡ (a - suc a / 2) + suc a / 2 = omega arith in
      let high = ap (λ togo. digits z f togo (suc a / 2) (b / 2)) e in
      ap (λ x. x * 2 + f (suc a % 2) (b % 2)) (high ∙ spare (a - suc a / 2) (suc a / 2) (b / 2))

pub bit_and_step : (a b : ℕ) → bit_and a b ≡ bit_and (a / 2) (b / 2) * 2 + min (a % 2) (b % 2)
bit_and_step zero b = omega (arith, bit_and-bitwise 0 b, bit_and-bitwise 0 (b / 2))
bit_and_step (suc a) b = omega (
  arith,
  bit_and-bitwise (suc a) b,
  bit_and-bitwise (suc a / 2) (b / 2),
  digits-suc (λ b. zero) min a b,
)

pub bit_or_step : (a b : ℕ) → bit_or a b ≡ bit_or (a / 2) (b / 2) * 2 + max (a % 2) (b % 2)
bit_or_step zero b = omega (arith, bit_or-bitwise 0 b, bit_or-bitwise 0 (b / 2))
bit_or_step (suc a) b = omega (
  arith,
  bit_or-bitwise (suc a) b,
  bit_or-bitwise (suc a / 2) (b / 2),
  digits-suc (λ b. b) max a b,
)

pub test_bit-bit_and : (j a b : ℕ) → test_bit (bit_and a b) j ≡ min (test_bit a j) (test_bit b j)
test_bit-bit_and zero a b = omega (arith, bit_and_step a b)
test_bit-bit_and (suc j) a b =
    let e : bit_and a b / 2 ≡ bit_and (a / 2) (b / 2) = omega (arith, bit_and_step a b) in
    ap (λ x. test_bit x j) e ∙ test_bit-bit_and j (a / 2) (b / 2)

pub test_bit-bit_or : (j a b : ℕ) → test_bit (bit_or a b) j ≡ max (test_bit a j) (test_bit b j)
test_bit-bit_or zero a b = omega (arith, bit_or_step a b)
test_bit-bit_or (suc j) a b =
    let e : bit_or a b / 2 ≡ bit_or (a / 2) (b / 2) = omega (arith, bit_or_step a b) in
    ap (λ x. test_bit x j) e ∙ test_bit-bit_or j (a / 2) (b / 2)

-- the low byte keeps its bits
pub test_bit_low : (j x : ℕ) → j < 8 → test_bit (x % 256) j ≡ test_bit x j
test_bit_low zero x h = omega arith
test_bit_low (suc zero) x h = omega arith
test_bit_low (suc (suc zero)) x h = omega arith
test_bit_low (suc (suc (suc zero))) x h = omega arith
test_bit_low (suc (suc (suc (suc zero)))) x h = omega arith
test_bit_low (suc (suc (suc (suc (suc zero))))) x h = omega arith
test_bit_low (suc (suc (suc (suc (suc (suc zero)))))) x h = omega arith
test_bit_low (suc (suc (suc (suc (suc (suc (suc zero))))))) x h = omega arith
test_bit_low (suc (suc (suc (suc (suc (suc (suc (suc j)))))))) x h = absurd (omega arith)

test_bit-zero : (j : ℕ) → test_bit 0 j ≡ 0
test_bit-zero zero = refl
test_bit-zero (suc j) = test_bit-zero j

-- a byte above it does not reach the low bits
pub test_bit_high : (j x : ℕ) → j < 8 → test_bit (x * 256) j ≡ 0
test_bit_high j x h =
    let e : x * 256 % 256 ≡ 0 = omega arith in
    sym (test_bit_low j (x * 256) h) ∙ ap (λ y. test_bit y j) e ∙ test_bit-zero j

abbrev pub pow2 : ℕ → ℕ
pow2 zero = 1
pow2 (suc n) = pow2 n * 2

-- n ones
abbrev pub ones : ℕ → ℕ
ones zero = 0
ones (suc n) = ones n * 2 + 1

halves : (k l p : ℕ) → (k * (p * 2) + l) / 2 ≡ k * p + l / 2
halves k l p = omega arith

double : (m p : ℕ) → m * (p * 2) / 2 ≡ m * p
double m p = omega arith

even : (m p : ℕ) → m * (p * 2) % 2 ≡ 0
even m p = omega arith

odd : (k l p : ℕ) → (k * (p * 2) + l) % 2 ≡ l % 2
odd k l p = omega arith

-- masks of whole fields: digits below a shifted mask
pub bit_and_shift :
    (n k l m : ℕ) → l < pow2 n → bit_and (k * pow2 n + l) (m * pow2 n) ≡ bit_and k m * pow2 n
bit_and_shift zero k l m h =
    let e1 : k * 1 + l ≡ k = omega arith in
    let e2 : m * 1 ≡ m = omega arith in rw (e1, e2) (omega arith)
bit_and_shift (suc n) k l m h =
    let step = bit_and_step (k * (pow2 n * 2) + l) (m * (pow2 n * 2)) in
    let step' = rw (halves k l (pow2 n), double m (pow2 n)) at step in
    omega (arith, step', even m (pow2 n), bit_and_shift n k (l / 2) m (omega arith))

pub bit_or_shift :
    (n k l m : ℕ) → l < pow2 n → bit_or (k * pow2 n + l) (m * pow2 n) ≡ bit_or k m * pow2 n + l
bit_or_shift zero k l m h =
    let e1 : k * 1 + l ≡ k = omega arith in
    let e2 : m * 1 ≡ m = omega arith in rw (e1, e2) (omega arith)
bit_or_shift (suc n) k l m h =
    let step = bit_or_step (k * (pow2 n * 2) + l) (m * (pow2 n * 2)) in
    let step' = rw (halves k l (pow2 n), double m (pow2 n)) at step in
    omega
      (arith, step', even m (pow2 n), odd k l (pow2 n), bit_or_shift n k (l / 2) m (omega arith))

bit_and-zero : (n a : ℕ) → a ≤ n → bit_and a 0 ≡ 0
bit_and-zero n zero h = omega (arith, bit_and-bitwise 0 0)
bit_and-zero zero (suc a) h = absurd (omega arith)
bit_and-zero (suc n) (suc a) h =
    omega (arith, bit_and_step (suc a) 0, bit_and-zero n (suc a / 2) (omega arith))

-- A mask of n ones keeps the remainder.
pub bit_and-ones :
    (n x : ℕ) → (k : ℕ) × ((x ≡ k * pow2 n + bit_and x (ones n)) × (bit_and x (ones n) < pow2 n))
bit_and-ones zero x = (
  x,
  (omega (arith, bit_and-zero x x (omega arith)), omega (arith, bit_and-zero x x (omega arith))),
)
bit_and-ones (suc n) x =
    let (k, (e, b)) = bit_and-ones n (x / 2) in
    let half : (ones n * 2 + 1) / 2 ≡ ones n = omega arith in
    let step = rw half at (bit_and_step x (ones n * 2 + 1)) in
    (k, (omega (arith, step, e), omega (arith, step, b)))

-- the operations stay within n digits
pub bit_or-bound : (n a b : ℕ) → a < pow2 n → b < pow2 n → bit_or a b < pow2 n
bit_or-bound zero zero zero h g = omega (arith, bit_or-bitwise 0 0)
bit_or-bound zero (suc a) b h g = absurd (omega arith)
bit_or-bound zero zero (suc b) h g = absurd (omega arith)
bit_or-bound (suc n) a b h g =
    omega (arith, bit_or_step a b, bit_or-bound n (a / 2) (b / 2) (omega arith) (omega arith))

pub bit_and-bound : (n a b : ℕ) → b < pow2 n → bit_and a b < pow2 n
bit_and-bound zero a zero h = omega (arith, bit_and-zero a a (omega arith))
bit_and-bound zero a (suc b) h = absurd (omega arith)
bit_and-bound (suc n) a b h =
    omega (arith, bit_and_step a b, bit_and-bound n (a / 2) (b / 2) (omega arith))
