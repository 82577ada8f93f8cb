-- ===== src/Eeprom/Bounds.antt =====
-- What get_string_descriptor() of rtl-sdr/src/librtlsdr.c reads and writes, for every image.
use ebc_sdr_native.Prelude.{
  ℕ, zero, suc, ◌+◌, ◌-◌, ◌*◌, ◌≤◌, ◌<◌, ◌≡◌, refl, arith, Bool-cases, inl, inr, Option, none, some,
  List, [], ◌∷◌, ltb, leb, ltb→lt, ltb→ge, get_elem?, length,
}
use ebc_sdr_native.Prelude.Int.{ℤ, pos, negsuc, ◌≤ℤ◌}
use ebc_sdr_native.Eeprom.{
  copy, read_type, prepend, clamp, located, descriptor_at, get_string_descriptor,
}

-- no read outside of the image, at most 127 characters, and the position does not go back
abbrev pub IsBounded : ℤ → Option (ℤ × List ℕ) → Type 0
IsBounded p none = ⊥
IsBounded p (some (next, str)) = (p ≤ℤ next) × (length str ≤ 127)

abbrev Copied : ℕ → ℕ → Option (ℕ × List ℕ) → Type 0
Copied i len none = ⊥
Copied i len (some (j, str)) = (i ≤ j) × (len ≤ j) × (2 * length str ≤ len + 1 - i)

prepend-Copied :
    (c i len : ℕ) (r : Option (ℕ × List ℕ))
    → i < len
    → Copied (i + 2) len r
    → Copied i len (prepend c r)
prepend-Copied c i len none h b = b
prepend-Copied c i len (some (j, str)) h (le, stop, few) = (omega arith, stop, omega arith)

get_elem-some : (xs : List ℕ) (i : ℕ) → i < length xs → (x : ℕ) × (get_elem? xs i ≡ some x)
get_elem-some [] i h = absurd (omega arith)
get_elem-some (x ∷ xs) zero h = (x, refl)
get_elem-some (x ∷ xs) (suc i) h = get_elem-some xs i (omega arith)

copy-Copied :
    (fuel : ℕ) (image : List ℕ) (p i len : ℕ)
    → length image ≡ 256
    → p + len ≤ 256
    → len ≤ i + 2 * fuel
    → Copied i len (copy fuel image p i len)
unfolding copy
copy-Copied zero image p i len size fits h = (omega arith, omega arith, omega arith)
copy-Copied (suc fuel) image p i len size fits h = elim (Bool-cases (ltb i len)) [
  | inr e ↦ rw (e, copy) (omega arith, ltb→ge _ _ e, omega arith)
  | inl e ↦
      let lt : i < len = ltb→lt _ _ e in
      let (c, got) = get_elem-some image (p + i) (omega arith) in
      rw (e, copy, got)
        (prepend-Copied c i len _ lt (copy-Copied fuel image p (i + 2) len size fits (omega arith)))
]

read_type-some : (image : List ℕ) (p : ℕ) → length image ≡ 256 → read_type image p ≡ some tt
unfolding read_type
read_type-some image p size = elim (Bool-cases (ltb (p + 1) 256)) [
  | inr e ↦ rw (e, read_type) refl
  | inl e ↦
      let (c, got) = get_elem-some image (p + 1) (omega (arith, ltb→lt _ _ e)) in
      rw (e, read_type, got) refl
]

clamp-fits : (p len : ℕ) → p < 256 → p + clamp p len ≤ 256
unfolding clamp
clamp-fits p len h = ground arith

located-IsBounded :
    (p len : ℕ) (r : Option (ℕ × List ℕ))
    → len ≤ 256
    → Copied 2 len r
    → IsBounded (pos p) (located p r)
located-IsBounded p len none h b = b
located-IsBounded p len (some (i, str)) h (le, stop, few) = (omega arith, omega arith)

-- For every image of 256 bytes and every position, negative ones included, get_string_descriptor()
-- reads only bytes of the image and copies at most 127 characters, and the position that it returns
-- is not before the one it was given.
pub get_string_descriptor-IsBounded :
    (p : ℤ) (image : List ℕ) → length image ≡ 256 → IsBounded p (get_string_descriptor p image)
unfolding get_string_descriptor
get_string_descriptor-IsBounded (negsuc p) image size = (omega arith, omega arith)
get_string_descriptor-IsBounded (pos p) image size = elim (Bool-cases (leb 256 p)) [
  | inl e ↦ rw e (omega arith, omega arith)
  | inr e ↦
      let lt : p < 256 = ground arith in
      let (len, got) = get_elem-some image p (omega arith) in
      let fits = clamp-fits p len lt in
      rw (e, descriptor_at, got, read_type-some image p size)
        (located-IsBounded p (clamp p len) _ (omega arith)
          (copy-Copied 128 image p 2 (clamp p len) size fits (omega arith)))
]
