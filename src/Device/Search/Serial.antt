-- ===== src/Device/Search/Serial.antt =====
-- What rtlsdr_get_index_by_serial() of rtl-sdr/src/librtlsdr.c returns.
use ebc_sdr_native.Prelude.{
  ℕ, zero, suc, ◌+◌, ◌<◌, ◌≡◌, refl, ap, ◌∙◌, arith, true, false, Bool-cases, inl, inr, List, ltb,
  ltb→lt, ltb→ge,
}
use ebc_sdr_native.Prelude.Int.{ℤ, pos, negsuc}
use ebc_sdr_native.Device.Search.{matches, serial_loop, get_index_by_serial}

module _ (serial_of : ℕ → ℤ × List ℕ) (serial : List ℕ) where
  -- The first device with the serial, no device at all, or none with the serial.
  pub data Answer (cnt : ℕ) : ℤ → Type 0 where
    found :
        (i : ℕ)
        → i < cnt
        → matches serial_of serial (serial_of i) ≡ true
        → ((j : ℕ) → j < i → matches serial_of serial (serial_of j) ≡ false)
        → Answer cnt (pos i)
    no_device : cnt ≡ 0 → Answer cnt (negsuc 1)
    no_match :
        0 < cnt
        → ((j : ℕ) → j < cnt → matches serial_of serial (serial_of j) ≡ false)
        → Answer cnt (negsuc 2)

  not_yet :
      (i : ℕ)
      → ((j : ℕ) → j < i → matches serial_of serial (serial_of j) ≡ false)
      → matches serial_of serial (serial_of i) ≡ false
      → (j : ℕ) → j < suc i
      → matches serial_of serial (serial_of j) ≡ false
  not_yet i before here j h = elim (Bool-cases (ltb j i)) [
    | inl l ↦ before j (ltb→lt j i l)
    | inr g ↦
        let same : j ≡ i = omega (arith, ltb→ge j i g) in
        ap (λ x. matches serial_of serial (serial_of x)) same ∙ here
  ]

  serial_loop-Answer :
      (left i cnt : ℕ)
      → cnt ≡ i + left
      → 0 < cnt
      → ((j : ℕ) → j < i → matches serial_of serial (serial_of j) ≡ false)
      → Answer cnt (serial_loop serial_of serial i left)
  serial_loop-Answer zero i cnt e some_there before =
      no_match some_there (λ j h. before j (omega arith))
  serial_loop-Answer (suc left) i cnt e some_there before =
      elim (Bool-cases (matches serial_of serial (serial_of i))) [
        | inl q ↦ rw (q, serial_loop) (found i (omega arith) q before)
        | inr q ↦
            rw (q, serial_loop)
              (serial_loop-Answer left (suc i) cnt (omega arith) some_there (not_yet i before q))
      ]

  -- For every number of devices rtlsdr_get_index_by_serial() returns the first index whose serial can be
  -- read and is the one asked for; -2 without devices; and -3 if there are some and none has it.
  pub get_index_by_serial-Answer : (cnt : ℕ) → Answer cnt (get_index_by_serial serial_of serial cnt)
  unfolding get_index_by_serial
  get_index_by_serial-Answer zero = no_device refl
  get_index_by_serial-Answer (suc n) =
      serial_loop-Answer (suc n) 0 (suc n) (omega arith) (omega arith) (λ j h. absurd (omega arith))
