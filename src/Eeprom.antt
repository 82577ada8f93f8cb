-- ===== src/Eeprom.antt =====
-- get_string_descriptor() of rtl-sdr/src/librtlsdr.c, which reads the strings of the EEPROM image.
pub mod Bounds
pub mod RoundTrip
pub mod Store
mod Tests
use ebc_sdr_native.Prelude.{
  ℕ, zero, suc, ◌+◌, ◌-◌, Bool, true, false, ◌||◌, Option, none, some, List, [], ◌∷◌, ltb, leb,
  if◌then◌else◌, get_elem?,
}
use ebc_sdr_native.Prelude.Int.{ℤ, pos, negsuc, is_neg, pos_part}

abbrev pub eeprom_size : ℕ
eeprom_size = 256

abbrev pub prepend : ℕ → Option (ℕ × List ℕ) → Option (ℕ × List ℕ)
prepend c none = none
prepend c (some (j, str)) = some (j, c ∷ str)

-- The loop from `i` on: where it stops and what it copied. `none` is a read outside of the image.
-- It advances by 2 below 256, so 128 rounds are enough.
pub copy : ℕ → List ℕ → ℕ → ℕ → ℕ → Option (ℕ × List ℕ)
copy zero image p i len = some (i, [])
copy (suc fuel) image p i len = elim (ltb i len) [
  | false ↦ some (i, [])
  | true ↦ elim (get_elem? image (p + i)) [
    | none ↦ none
    | some c ↦ prepend c (copy fuel image p (i + 2) len)
  ]
]

-- the test of the descriptor's type reads the second byte, if there is one
pub read_type : List ℕ → ℕ → Option (Unit {0})
read_type image p = elim (ltb (p + 1) eeprom_size) [
  | false ↦ some tt
  | true ↦ elim (get_elem? image (p + 1)) [ none ↦ none | some _ ↦ some tt ]
]

pub clamp : ℕ → ℕ → ℕ
clamp p len = if ltb (eeprom_size - p) len then eeprom_size - p else len

abbrev pub located : ℕ → Option (ℕ × List ℕ) → Option (ℤ × List ℕ)
located p none = none
located p (some (i, str)) = some (pos (p + i), str)

-- within the image: the position after the descriptor, and the string without its NUL
pub descriptor_at : List ℕ → ℕ → Option (ℤ × List ℕ)
unfolding copy read_type clamp
descriptor_at image p = elim (get_elem? image p) [
  | none ↦ none
  | some len ↦ elim (read_type image p) [
    | none ↦ none
    | some _ ↦ located p (copy 128 image p 2 (clamp p len))
  ]
]

unfoldable pub get_string_descriptor : ℤ → List ℕ → Option (ℤ × List ℕ)
unfolding descriptor_at
get_string_descriptor (pos p) image =
    if leb eeprom_size p then some (pos p, []) else descriptor_at image p
get_string_descriptor (negsuc p) image = some (negsuc p, [])
