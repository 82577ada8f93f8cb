-- ===== src/Eeprom/RoundTrip.antt =====
-- get_string_descriptor() of rtl-sdr/src/librtlsdr.c against the layout of a USB string descriptor.
use ebc_sdr_native.Prelude.{
  ℕ, zero, suc, ◌+◌, ◌*◌, ◌≤◌, ◌<◌, ◌≡◌, refl, ap, ◌∙◌, arith, Bool-cases, inl, inr, false, some,
  List, [], ◌∷◌, ◌++◌, ltb, leb, lt→ltb, ge→ltb, get_elem?, length, length-append,
}
use ebc_sdr_native.Prelude.Int.{pos}
use ebc_sdr_native.Eeprom.{prepend, copy, read_type, clamp, descriptor_at, get_string_descriptor}

-- characters of 16 bits, low byte first
abbrev pub utf16 : List ℕ → List ℕ
utf16 [] = []
utf16 (c ∷ cs) = c ∷ 0 ∷ utf16 cs

-- the length of the descriptor, the type 3 of a string, and the characters
abbrev pub string_descriptor : List ℕ → List ℕ
string_descriptor str = (2 + 2 * length str) ∷ 3 ∷ utf16 str

get_elem-append :
    (pre xs : List ℕ) (k : ℕ) → get_elem? (pre ++ xs) (length pre + k) ≡ get_elem? xs k
get_elem-append [] xs k = let e : 0 + k ≡ k = omega arith in ap (get_elem? xs) e
get_elem-append (x ∷ pre) xs k =
    let e : suc (length pre) + k ≡ suc (length pre + k) = omega arith in
    ap (get_elem? (x ∷ (pre ++ xs))) e ∙ get_elem-append pre xs k

copy-stop :
    (fuel : ℕ) (image : List ℕ) (p i len : ℕ) → len ≤ i → copy fuel image p i len ≡ some (i, [])
unfolding copy
copy-stop zero image p i len h = refl
copy-stop (suc fuel) image p i len h = rw (ge→ltb i len h, copy) refl

copy-step :
    (fuel : ℕ) (image : List ℕ) (p i len c : ℕ)
    → i < len
    → get_elem? image (p + i) ≡ some c
    → copy (suc fuel) image p i len ≡ prepend c (copy fuel image p (i + 2) len)
unfolding copy
copy-step fuel image p i len c h got = rw (lt→ltb i len h, copy, got) refl

copy-utf16 :
    (str : List ℕ) (fuel : ℕ) (image post : List ℕ) (p i len : ℕ)
    → ((k : ℕ) → get_elem? image (p + i + k) ≡ get_elem? (utf16 str ++ post) k)
    → len ≡ i + 2 * length str
    → length str ≤ fuel
    → copy fuel image p i len ≡ some (len, str)
copy-utf16 [] fuel image post p i len at e h =
    copy-stop fuel image p i len (omega arith) ∙ ap (λ n. some (n, [])) (omega arith)
copy-utf16 (c ∷ cs) zero image post p i len at e h = absurd (omega arith)
copy-utf16 (c ∷ cs) (suc fuel) image post p i len at e h =
    let here : p + i ≡ p + i + 0 = omega arith in
    copy-step fuel image p i len c (omega arith) (ap (get_elem? image) here ∙ at 0)
    ∙ ap (prepend c) (
        copy-utf16 cs fuel image post p (i + 2) len
          (λ k.
            let e2 : p + (i + 2) + k ≡ p + i + suc (suc k) = omega arith in
            ap (get_elem? image) e2 ∙ at (suc (suc k)))
          (omega arith) (omega arith))

length-utf16 : (str : List ℕ) → length (utf16 str) ≡ 2 * length str
length-utf16 [] = refl
length-utf16 (c ∷ cs) = omega (arith, length-utf16 cs)

read_type-some :
    (image : List ℕ) (p c : ℕ) → get_elem? image (p + 1) ≡ some c → read_type image p ≡ some tt
unfolding read_type
read_type-some image p c got = elim (Bool-cases (ltb (p + 1) 256)) [
  | inr e ↦ rw (e, read_type) refl
  | inl e ↦ rw (e, read_type, got) refl
]

clamp-whole : (p len : ℕ) → p + len ≤ 256 → clamp p len ≡ len
unfolding clamp
clamp-whole p len h = ground arith

descriptor_at-string_descriptor :
    (image str post : List ℕ) (p : ℕ)
    → ((k : ℕ) → get_elem? image (p + k) ≡ get_elem? (string_descriptor str ++ post) k)
    → length str ≤ 126
    → p + (2 + 2 * length str) ≤ 256
    → descriptor_at image p ≡ some (pos (p + (2 + 2 * length str)), str)
unfolding descriptor_at
descriptor_at-string_descriptor image str post p at short fits =
    let len : ℕ = 2 + 2 * length str in
    let zero_th : p ≡ p + 0 = omega arith in
    let first : get_elem? image p ≡ some len = ap (get_elem? image) zero_th ∙ at 0 in
    let chars : copy 128 image p 2 len ≡ some (len, str) =
      copy-utf16 str 128 image post p 2 len
        (λ k.
          let e : p + 2 + k ≡ p + suc (suc k) = omega arith in
          ap (get_elem? image) e ∙ at (suc (suc k)))
        refl (omega arith) in
    rw (first, descriptor_at, read_type-some image p 3 (at 1), clamp-whole p len fits, chars) refl

-- A string of at most 126 characters, stored as a string descriptor anywhere in the 256 bytes of the
-- image, is what get_string_descriptor() reads back, and the position it returns is that of the byte
-- after the descriptor.
pub get_string_descriptor-string_descriptor :
    (pre str post : List ℕ)
    → length str ≤ 126
    → length (pre ++ (string_descriptor str ++ post)) ≡ 256
    → get_string_descriptor (pos (length pre)) (pre ++ (string_descriptor str ++ post))
      ≡ some (pos (length pre + (2 + 2 * length str)), str)
unfolding get_string_descriptor
get_string_descriptor-string_descriptor pre str post short size =
    let fits : length pre + (2 + 2 * length str) ≤ 256 = omega (
      arith,
      length-append pre (string_descriptor str ++ post),
      length-append (string_descriptor str) post,
      length-utf16 str,
    ) in
    let inside : leb 256 (length pre) ≡ false = ground arith in
    rw inside (
      descriptor_at-string_descriptor (pre ++ (string_descriptor str ++ post)) str post (length pre)
        (get_elem-append pre (string_descriptor str ++ post)) short fits)
