-- ===== src/Fir/Packing.antt =====
-- The bytes of rtlsdr_set_fir() of rtl-sdr/src/librtlsdr.c against the format of the demodulator: eight
-- signed numbers of 8 bits, and eight of 12 bits, high bits first, two in three bytes.
use ebc_sdr_native.Prelude.{
  all_below-holds, ℕ, zero, suc, ◌+◌, ◌-◌, ◌*◌, ◌/◌, ◌%◌, ◌^◌, ◌<◌, ◌≡◌, refl, ap, ◌∙◌, arith,
  bit_and, bit_or, Bool, true, false, ◌||◌, Bool-cases, inl, inr, Option, none, some, List, [], ◌∷◌,
  ◌++◌, ltb, ◌==◌, ==→eq, if◌then◌else◌, length, take, drop, length-take, length-drop,
  length-append,
}
use ebc_sdr_native.Prelude.Int.{ℤ, pos, negsuc}
use ebc_sdr_native.Fir.{
  u8, sar, shl4, outside8, outside12, cons_all, pack8, middle_byte, pack12, append_all, fir_bytes,
}

-- the number of `w` bits that `u` stands for in two's complement
pub signed : ℕ → ℕ → ℤ
signed w u = if ltb u (2 ^ w / 2) then pos u else negsuc (2 ^ w - 1 - u)

pub unpack8 : List ℕ → List ℤ
unfolding signed
unpack8 [] = []
unpack8 (x ∷ xs) = signed 8 x ∷ unpack8 xs

pub unpack12 : List ℕ → List ℤ
unfolding signed
unpack12 (x ∷ y ∷ z ∷ xs) = signed 12 (x * 16 + y / 16) ∷ signed 12 (y % 16 * 256 + z) ∷ unpack12 xs
unpack12 _ = []

nibble : (x : ℕ) → x < 256 → bit_and x 0x0f ≡ x % 16
nibble x h = ==→eq _ _ (all_below-holds 256 (λ x. bit_and x 0x0f == x % 16) x refl h)

join : (x : ℕ) → x < 256 → bit_or (x / 16 * 16) (x % 16) ≡ x
join x h = ==→eq _ _ (all_below-holds 256 (λ x. bit_or (x / 16 * 16) (x % 16) == x) x refl h)

join_parts : (a b : ℕ) → a < 16 → b < 16 → bit_or (a * 16) b ≡ a * 16 + b
join_parts a b ha hb =
    let h1 : (a * 16 + b) / 16 ≡ a = omega arith in
    let h2 : (a * 16 + b) % 16 ≡ b = omega arith in rw (h1, h2) at (join (a * 16 + b) (omega arith))

signed8-u8 : (v : ℤ) → outside8 v ≡ false → signed 8 (u8 v) ≡ v
unfolding signed u8 outside8
signed8-u8 (pos n) h = ground arith
signed8-u8 (negsuc n) h = ground arith

u8-byte : (v : ℤ) → u8 v < 256
unfolding u8
u8-byte (pos n) = omega arith
u8-byte (negsuc n) = omega arith

u8-shl4 : (v : ℤ) → u8 (shl4 v) ≡ u8 v % 16 * 16
unfolding u8 shl4
u8-shl4 (pos n) = omega arith
u8-shl4 (negsuc n) = omega arith

-- the middle byte is the low half of the first and the high half of the second number
middle_byte-parts : (v0 v1 : ℤ) → middle_byte v0 v1 ≡ u8 v0 % 16 * 16 + u8 (sar 8 v1) % 16
unfolding middle_byte
middle_byte-parts v0 v1 =
    rw (u8-shl4 v0, nibble (u8 (sar 8 v1)) (u8-byte (sar 8 v1)))
      (join_parts (u8 v0 % 16) (u8 (sar 8 v1) % 16) (omega arith) (omega arith))

signed12-high : (v : ℤ) → outside12 v ≡ false → signed 12 (u8 (sar 4 v) * 16 + u8 v % 16) ≡ v
unfolding signed u8 sar outside12
signed12-high (pos n) h = ground arith
signed12-high (negsuc n) h = ground arith

signed12-low : (v : ℤ) → outside12 v ≡ false → signed 12 (u8 (sar 8 v) % 16 * 256 + u8 v) ≡ v
unfolding signed u8 sar outside12
signed12-low (pos n) h = ground arith
signed12-low (negsuc n) h = ground arith

first12 :
    (v0 v1 : ℤ)
    → outside12 v0 ≡ false
    → signed 12 (u8 (sar 4 v0) * 16 + middle_byte v0 v1 / 16) ≡ v0
first12 v0 v1 h =
    let e : middle_byte v0 v1 / 16 ≡ u8 v0 % 16 = omega (arith, middle_byte-parts v0 v1) in
    rw e (signed12-high v0 h)

second12 :
    (v0 v1 : ℤ) → outside12 v1 ≡ false → signed 12 (middle_byte v0 v1 % 16 * 256 + u8 v1) ≡ v1
second12 v0 v1 h =
    let e : middle_byte v0 v1 % 16 ≡ u8 (sar 8 v1) % 16 = omega (arith, middle_byte-parts v0 v1) in
    rw e (signed12-low v1 h)

pub any : (ℤ → Bool) → List ℤ → Bool
any p [] = false
any p (v ∷ vs) = p v || any p vs

-- `none` if a number is out of its range, and otherwise bytes that stand for the numbers
abbrev Encodes8 : List ℤ → Option (List ℕ) → Type 0
Encodes8 vs none = any outside8 vs ≡ true
Encodes8 vs (some xs) = (unpack8 xs ≡ vs) × (length xs ≡ length vs)

abbrev Encodes12 : List ℤ → Option (List ℕ) → Type 0
Encodes12 vs none = any outside12 vs ≡ true
Encodes12 vs (some xs) = (unpack12 xs ≡ vs) × (2 * length xs ≡ 3 * length vs)

cons-Encodes8 :
    (v : ℤ) (vs : List ℤ) (t : Option (List ℕ))
    → outside8 v ≡ false
    → Encodes8 vs t
    → Encodes8 (v ∷ vs) (cons_all (u8 v ∷ []) t)
unfolding any unpack8
cons-Encodes8 v vs none h e = rw h e
cons-Encodes8 v vs (some xs) h (e, size) = (rw (signed8-u8 v h, e) refl, omega arith)

pack8-Encodes8 : (vs : List ℤ) → Encodes8 vs (pack8 vs)
unfolding pack8 any unpack8
pack8-Encodes8 [] = (refl, refl)
pack8-Encodes8 (v ∷ vs) =
    let rest = cons-Encodes8 v vs (pack8 vs) in
    let e = pack8-Encodes8 vs in
    elim (Bool-cases (outside8 v)) [
      | inl out ↦ rw (out, pack8) (rw out refl)
      | inr fits ↦ rw (fits, pack8) (rest fits e)
    ]

pairs-Encodes12 :
    (v0 v1 : ℤ) (vs : List ℤ) (t : Option (List ℕ))
    → outside12 v0 ≡ false
    → outside12 v1 ≡ false
    → Encodes12 vs t
    → Encodes12 (v0 ∷ v1 ∷ vs) (cons_all (u8 (sar 4 v0) ∷ middle_byte v0 v1 ∷ u8 v1 ∷ []) t)
unfolding any unpack12
pairs-Encodes12 v0 v1 vs none h0 h1 e = rw (h0, h1) e
pairs-Encodes12 v0 v1 vs (some xs) h0 h1 (e, size) =
    (rw (first12 v0 v1 h0, second12 v0 v1 h1, e) refl, omega arith)

pack12-Encodes12 : (vs : List ℤ) (m : ℕ) → length vs ≡ 2 * m → Encodes12 vs (pack12 vs)
unfolding pack12 any unpack12
pack12-Encodes12 [] m h = (refl, refl)
pack12-Encodes12 (v ∷ []) m h = absurd (omega arith)
pack12-Encodes12 (v0 ∷ v1 ∷ vs) m h =
    let e = pack12-Encodes12 vs (m - 1) (omega arith) in
    elim (Bool-cases (outside12 v0)) [
      | inl out0 ↦ rw (out0, pack12) (rw out0 refl)
      | inr fits0 ↦ elim (Bool-cases (outside12 v1)) [
        | inl out1 ↦ rw (fits0, out1, pack12) (rw (fits0, out1) refl)
        | inr fits1 ↦ rw (fits0, fits1, pack12) (pairs-Encodes12 v0 v1 vs (pack12 vs) fits0 fits1 e)
      ]
    ]

take-whole : (n : ℕ) (xs ys : List ℕ) → length xs ≡ n → take n (xs ++ ys) ≡ xs
take-whole zero [] ys h = refl
take-whole zero (x ∷ xs) ys h = absurd (omega arith)
take-whole (suc n) [] ys h = absurd (omega arith)
take-whole (suc n) (x ∷ xs) ys h = ap (λ t. x ∷ t) (take-whole n xs ys (omega arith))

drop-whole : (n : ℕ) (xs ys : List ℕ) → length xs ≡ n → drop n (xs ++ ys) ≡ ys
drop-whole zero [] ys h = refl
drop-whole zero (x ∷ xs) ys h = absurd (omega arith)
drop-whole (suc n) [] ys h = absurd (omega arith)
drop-whole (suc n) (x ∷ xs) ys h = drop-whole n xs ys (omega arith)

-- `none` if one of the first eight coefficients does not fit 8 bits or one of the others 12, and
-- otherwise 20 bytes from which all the coefficients can be read back
abbrev pub Encodes : List ℤ → Option (List ℕ) → Type 0
Encodes fir none = (any outside8 (take 8 fir) || any outside12 (drop 8 fir)) ≡ true
Encodes fir (some xs) =
    (length xs ≡ 20) × (unpack8 (take 8 xs) ≡ take 8 fir) × (unpack12 (drop 8 xs) ≡ drop 8 fir)

append-Encodes :
    (fir : List ℤ) (t8 t12 : Option (List ℕ))
    → length fir ≡ 16
    → Encodes8 (take 8 fir) t8
    → Encodes12 (drop 8 fir) t12
    → Encodes fir (append_all t8 t12)
append-Encodes fir none t12 h e8 e12 = rw e8 refl
append-Encodes fir (some xs) none h e8 e12 = ground (arith, e12)
append-Encodes fir (some xs) (some ys) h (e8, size8) (e12, size12) =
    let n8 : length xs ≡ 8 = omega (arith, length-take {0} 8 fir) in
    (
      omega (arith, length-append {0} xs ys, length-drop {0} 8 fir),
      ap unpack8 (take-whole 8 xs ys n8) ∙ e8,
      ap unpack12 (drop-whole 8 xs ys n8) ∙ e12,
    )

-- If rtlsdr_set_fir() refuses 16 coefficients then one of the first eight does not fit 8 bits or one
-- of the others 12 bits; if not it makes 20 bytes of them, and these are the coefficients in the format
-- of the demodulator.
pub fir_bytes-Encodes : (fir : List ℤ) → length fir ≡ 16 → Encodes fir (fir_bytes fir)
unfolding fir_bytes
fir_bytes-Encodes fir h =
    append-Encodes fir (pack8 (take 8 fir)) (pack12 (drop 8 fir)) h (pack8-Encodes8 (take 8 fir))
      (pack12-Encodes12 (drop 8 fir) 4 (omega (arith, length-drop {0} 8 fir)))
