-- ===== src/Fir.antt =====
-- rtlsdr_set_fir() of rtl-sdr/src/librtlsdr.c: the FIR coefficients as the bytes of the demodulator.
pub mod Packing
mod Tests
use ebc_sdr_native.Prelude.{
  ℕ, zero, suc, ◌+◌, ◌-◌, ◌*◌, ◌/◌, ◌%◌, ◌^◌, bit_and, bit_or, Bool, true, false, ◌||◌, Option,
  none, some, List, [], ◌∷◌, ◌++◌, ltb, if◌then◌else◌, take, drop,
}
use ebc_sdr_native.Prelude.Int.{ℤ, pos, negsuc, ltb_ℤ, ◌==ℤ◌}

-- fir_default
abbrev pub fir_default : List ℤ
fir_default =
    negsuc 53
    ∷ negsuc 35
    ∷ negsuc 40
    ∷ negsuc 39
    ∷ negsuc 31
    ∷ negsuc 13
    ∷ pos 14
    ∷ pos 53
    ∷ pos 101
    ∷ pos 156
    ∷ pos 215
    ∷ pos 273
    ∷ pos 327
    ∷ pos 372
    ∷ pos 404
    ∷ pos 421
    ∷ []

-- an int as a uint8_t
pub u8 : ℤ → ℕ
u8 (pos n) = n % 256
u8 (negsuc n) = 255 - n % 256

-- v >> s
pub sar : ℕ → ℤ → ℤ
sar s (pos n) = pos (n / 2 ^ s)
sar s (negsuc n) = negsuc (n / 2 ^ s)

-- v << 4
pub shl4 : ℤ → ℤ
shl4 (pos n) = pos (16 * n)
shl4 (negsuc n) = negsuc (16 * n + 15)

pub outside8 : ℤ → Bool
outside8 v = ltb_ℤ v (negsuc 127) || ltb_ℤ (pos 127) v

pub outside12 : ℤ → Bool
outside12 v = ltb_ℤ v (negsuc 2047) || ltb_ℤ (pos 2047) v

abbrev pub cons_all : List ℕ → Option (List ℕ) → Option (List ℕ)
cons_all xs none = none
cons_all xs (some ys) = some (xs ++ ys)

-- the loop over the coefficients of 8 bits
pub pack8 : List ℤ → Option (List ℕ)
unfolding u8 outside8
pack8 [] = some []
pack8 (v ∷ vs) = elim (outside8 v) [ true ↦ none | false ↦ cons_all (u8 v ∷ []) (pack8 vs) ]

pub middle_byte : ℤ → ℤ → ℕ
unfolding u8 sar shl4
middle_byte v0 v1 = bit_or (u8 (shl4 v0)) (bit_and (u8 (sar 8 v1)) 0x0f)

-- the loop over pairs of coefficients of 12 bits
pub pack12 : List ℤ → Option (List ℕ)
unfolding u8 sar middle_byte outside12
pack12 [] = some []
pack12 (v0 ∷ []) = some []
pack12 (v0 ∷ v1 ∷ vs) = elim (outside12 v0 || outside12 v1) [
  | true ↦ none
  | false ↦ cons_all (u8 (sar 4 v0) ∷ middle_byte v0 v1 ∷ u8 v1 ∷ []) (pack12 vs)
]

abbrev pub append_all : Option (List ℕ) → Option (List ℕ) → Option (List ℕ)
append_all none ys = none
append_all (some xs) ys = cons_all xs ys

-- the array fir[20], or `none` for a coefficient out of its range
unfoldable pub fir_bytes : List ℤ → Option (List ℕ)
unfolding pack8 pack12
fir_bytes fir = append_all (pack8 (take 8 fir)) (pack12 (drop 8 fir))

-- the loop that writes the bytes: rtlsdr_demod_write_reg(dev, 1, addr, byte, 1)
module _ {Bus : Type 0} (demod_write_reg : Bus → ℕ → ℕ → ℕ → ℕ → ℤ × Bus) where
  pub write_bytes : List ℕ → ℕ → Bus → ℤ × Bus
  write_bytes [] addr b = (pos 0, b)
  write_bytes (x ∷ xs) addr b =
      let (r, b') = demod_write_reg b 1 addr x 1 in
      elim (r ==ℤ pos 0) [ true ↦ write_bytes xs (addr + 1) b' | false ↦ (negsuc 0, b') ]

  unfoldable pub set_fir : List ℤ → Bus → ℤ × Bus
  unfolding fir_bytes write_bytes
  set_fir fir b = elim (fir_bytes fir) [ none ↦ (negsuc 0, b) | some xs ↦ write_bytes xs 0x1c b ]
