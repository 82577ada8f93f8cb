-- ===== src/Convenience/Search/Chosen.antt =====
-- Which device verbose_device_search() of rtl-sdr/src/convenience/convenience.c chooses.
use ebc_sdr_native.Prelude.{
  ℕ, zero, suc, ◌+◌, ◌<◌, ◌≡◌, ap, ◌∙◌, arith, true, false, Bool, Bool-cases, inl, inr, Option,
  none, some, List, [], ltb, ltb→lt, ltb→ge,
}
use ebc_sdr_native.Prelude.Int.{ℤ, pos, negsuc}
use ebc_sdr_native.Convenience.Search.{
  is_exact, is_prefix, is_suffix, number_of, pick, print_loop, match_loop, search_serial,
  verbose_device_search,
}

module _ (serial_of : ℕ → List ℕ) (count : ℕ) where
  -- device `i` is the first whose serial passes the test; no device's does
  abbrev pub IsFirst : (List ℕ → Bool) → ℕ → Type 0
  IsFirst test i =
      (i < count) × (test (serial_of i) ≡ true) × ((j : ℕ) → j < i → test (serial_of j) ≡ false)

  abbrev pub Unmatched : (List ℕ → Bool) → Type 0
  Unmatched test = (j : ℕ) → j < count → test (serial_of j) ≡ false

  abbrev Found : (List ℕ → Bool) → Option ℕ → Type 0
  Found test none = Unmatched test
  Found test (some i) = IsFirst test i

  -- An exact match comes before a prefix, and a prefix before a suffix.
  pub data Chosen (s : List ℕ) : ℤ → Type 0 where
    exactly : (i : ℕ) → IsFirst (is_exact s) i → Chosen s (pos i)
    by_prefix : (i : ℕ) → Unmatched (is_exact s) → IsFirst (is_prefix s) i → Chosen s (pos i)
    by_suffix :
        (i : ℕ)
        → Unmatched (is_exact s)
        → Unmatched (is_prefix s)
        → IsFirst (is_suffix s) i
        → Chosen s (pos i)
    nothing :
        Unmatched (is_exact s)
        → Unmatched (is_prefix s)
        → Unmatched (is_suffix s)
        → Chosen s (negsuc 0)

  not_yet :
      (test : List ℕ → Bool) (i : ℕ)
      → ((j : ℕ) → j < i → test (serial_of j) ≡ false)
      → test (serial_of i) ≡ false
      → (j : ℕ) → j < suc i
      → test (serial_of j) ≡ false
  not_yet test i before here j h = elim (Bool-cases (ltb j i)) [
    | inl l ↦ before j (ltb→lt j i l)
    | inr g ↦
        let same : j ≡ i = omega (arith, ltb→ge j i g) in ap (λ x. test (serial_of x)) same ∙ here
  ]

  pick-Chosen :
      (s : List ℕ) (test : List ℕ → Bool) (p : Option ℕ × List ℕ) (next : List ℕ → ℤ)
      → Found test p.0
      → ((i : ℕ) → IsFirst test i → Chosen s (pos i))
      → (Unmatched test → (serial : List ℕ) → Chosen s (next serial))
      → Chosen s (pick p next)
  pick-Chosen s test (some i, serial) next f here later = here i f
  pick-Chosen s test (none, serial) next f here later = later f serial

  module _ (read : ℕ → List ℕ → List ℕ)
      (reads : (i : ℕ) (str : List ℕ) → i < count → read i str ≡ serial_of i) where
    match_loop-Found :
        (test : List ℕ → Bool) (left i : ℕ) (serial : List ℕ)
        → count ≡ i + left
        → ((j : ℕ) → j < i → test (serial_of j) ≡ false)
        → Found test (match_loop read test left i serial).0
    match_loop-Found test zero i serial e before = λ j h. before j (omega arith)
    match_loop-Found test (suc left) i serial e before =
        let same = ap test (reads i serial (omega arith)) in
        elim (Bool-cases (test (serial_of i))) [
          | inl q ↦ rw (same ∙ q, match_loop) (omega arith, q, before)
          | inr q ↦
              rw (same ∙ q, match_loop)
                (match_loop-Found test left (suc i) (read i serial) (omega arith)
                  (not_yet test i before q))
        ]

    all_Found :
        (test : List ℕ → Bool) (serial : List ℕ)
        → Found test (match_loop read test count 0 serial).0
    all_Found test serial =
        match_loop-Found test count 0 serial (omega arith) (λ j h. absurd (omega arith))

    search_serial-Chosen : (s serial : List ℕ) → Chosen s (search_serial read s count serial)
    unfolding search_serial
    search_serial-Chosen s serial =
        pick-Chosen s (is_exact s) _ _ (all_Found (is_exact s) serial) exactly (λ e serial.
          pick-Chosen s (is_prefix s) _ _ (all_Found (is_prefix s) serial) (λ i. by_prefix i e)
            (λ p serial.
              pick-Chosen s (is_suffix s) _ _ (all_Found (is_suffix s) serial)
                (λ i. by_suffix i e p) (λ x serial. nothing e p x)))

-- If there is a device, the serial of each can be read, and the string is not the number of a device,
-- then verbose_device_search() returns the first device with that serial; without one the first whose
-- serial starts with the string; without one the first whose serial ends with it; and without one -1.
pub verbose_device_search-Chosen :
    (read : ℕ → List ℕ → List ℕ) (serial_of : ℕ → List ℕ) (strtol : List ℕ → ℤ × List ℕ)
    (s : List ℕ) (n : ℕ)
    → ((i : ℕ) (str : List ℕ) → i < suc n → read i str ≡ serial_of i)
    → number_of (strtol s) (suc n) ≡ none
    → Chosen serial_of (suc n) s (verbose_device_search read strtol s (suc n))
unfolding verbose_device_search
verbose_device_search-Chosen read serial_of strtol s n reads e =
    rw (e, verbose_device_search)
      (search_serial-Chosen serial_of (suc n) read reads s (print_loop read (suc n) 0 []))
