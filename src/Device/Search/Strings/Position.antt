-- ===== src/Device/Search/Strings/Position.antt =====
-- The loops of rtlsdr_get_device_count() and rtlsdr_get_device_usb_strings() in
-- rtl-sdr/src/librtlsdr.c against the devices that are known.
use ebc_sdr_native.Prelude.{
  ℕ, zero, suc, ◌+◌, ◌%◌, ◌<◌, ◌≤◌, ◌≡◌, refl, sym, ap, ◌∙◌, arith, true, false, Bool-cases, inl,
  inr, some, List, [], ◌∷◌, ◌==◌, eq→==, ne→==, length,
}
use ebc_sdr_native.Device.Search.{Ids, is_known, minus_one, count_loop}
use ebc_sdr_native.Device.Search.Selected.{
  nth_known, known_here, known_later, unknown_here, count_known, count_unknown,
}
use ebc_sdr_native.Device.Search.Strings.{strings_loop}

-- an index below the number of devices is that of a device
pub counted :
    (left i : ℕ) (devices : List Ids) (count : ℕ)
    → count + left < count_loop devices count
    → count + length devices < 4294967295
    → (j : ℕ) × (nth_known i devices left ≡ some j)
unfolding count_loop
counted left i [] count h bound = absurd (omega arith)
counted zero i (ids ∷ rest) count h bound = elim (Bool-cases (is_known ids)) [
  | inr u ↦
      let (j, e) =
        counted zero (suc i) rest count (rw (count_unknown ids count u) at h) (omega arith) in
      (j, unknown_here i ids rest zero u ∙ e)
  | inl u ↦ (i, known_here i ids rest u)
]
counted (suc left) i (ids ∷ rest) count h bound = elim (Bool-cases (is_known ids)) [
  | inr u ↦
      let (j, e) =
        counted (suc left) (suc i) rest count (rw (count_unknown ids count u) at h) (omega arith) in
      (j, unknown_here i ids rest (suc left) u ∙ e)
  | inl u ↦
      let h' = rw (count_known ids count u (omega arith)) at h in
      let (j, e) = counted left (suc i) rest (count + 1) (omega arith) (omega arith) in
      (j, known_later i ids rest left u ∙ e)
]

pub count_bound :
    (devices : List Ids) (count : ℕ)
    → count + length devices < 4294967295
    → count_loop devices count ≤ count + length devices
unfolding count_loop
count_bound [] count h = omega arith
count_bound (ids ∷ rest) count h = elim (Bool-cases (is_known ids)) [
  | inr u ↦ rw (count_unknown ids count u) (omega (arith, count_bound rest count (omega arith)))
  | inl u ↦
      rw (count_known ids count u (omega arith))
        (omega (arith, count_bound rest (count + 1) (omega arith)))
]

-- one round of the loop of rtlsdr_get_device_usb_strings()
strings_unknown :
    (index i : ℕ) (ids : Ids) (rest : List Ids) (count : ℕ)
    → is_known ids ≡ false
    → strings_loop index i (ids ∷ rest) count ≡ strings_loop index (suc i) rest count
unfolding strings_loop
strings_unknown index i ids rest count u = rw (u, strings_loop) refl

strings_here :
    (index i : ℕ) (ids : Ids) (rest : List Ids) (count : ℕ)
    → is_known ids ≡ true
    → index ≡ minus_one ((count + 1) % 4294967296)
    → strings_loop index i (ids ∷ rest) count ≡ some i
unfolding strings_loop
strings_here index i ids rest count u e =
    let test = eq→== index (minus_one ((count + 1) % 4294967296)) e in
    rw (u, test, strings_loop) refl

strings_later :
    (index i : ℕ) (ids : Ids) (rest : List Ids) (count : ℕ)
    → is_known ids ≡ true
    → (index == minus_one ((count + 1) % 4294967296)) ≡ false
    → (count + 1) % 4294967296 ≡ count + 1
    → strings_loop index i (ids ∷ rest) count ≡ strings_loop index (suc i) rest (count + 1)
unfolding strings_loop
strings_later index i ids rest count u e more =
    rw (u, e, strings_loop) (ap (strings_loop index (suc i) rest) more)

pub strings_loop-nth_known :
    (left index i : ℕ) (devices : List Ids) (count : ℕ)
    → index ≡ count + left
    → index < 4294967295
    → strings_loop index i devices count ≡ nth_known i devices left
unfolding strings_loop nth_known
strings_loop-nth_known left index i [] count e h = refl
strings_loop-nth_known zero index i (ids ∷ rest) count e h = elim (Bool-cases (is_known ids)) [
  | inr u ↦
      strings_unknown index i ids rest count u
      ∙ strings_loop-nth_known zero index (suc i) rest count e h
      ∙ sym (unknown_here i ids rest zero u)
  | inl u ↦ strings_here index i ids rest count u (omega arith) ∙ sym (known_here i ids rest u)
]
strings_loop-nth_known (suc left) index i (ids ∷ rest) count e h =
    elim (Bool-cases (is_known ids)) [
      | inr u ↦
          strings_unknown index i ids rest count u
          ∙ strings_loop-nth_known (suc left) index (suc i) rest count e h
          ∙ sym (unknown_here i ids rest (suc left) u)
      | inl u ↦
          let other = ne→== index (minus_one ((count + 1) % 4294967296)) (λ q. omega (arith, q)) in
          strings_later index i ids rest count u other (omega arith)
          ∙ strings_loop-nth_known left index (suc i) rest (count + 1) (omega arith) h
          ∙ sym (known_later i ids rest left u)
    ]
