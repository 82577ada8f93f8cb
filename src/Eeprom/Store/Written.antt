-- ===== src/Eeprom/Store/Written.antt =====
-- rtlsdr_write_eeprom() of rtl-sdr/src/librtlsdr.c against the cells of the EEPROM.
use ebc_sdr_native.Prelude.{
  ℕ, zero, suc, ◌+◌, ◌%◌, ◌≤◌, ◌<◌, ◌≡◌, ◌≢◌, ◌⊎◌, ne→==, eq→==, refl, ap, ◌∙◌, arith, true, false,
  Bool-cases, inl, inr, List, [], ◌∷◌, ◌==◌, ==→eq, ge→ltb, length, get_or,
}
use ebc_sdr_native.Prelude.Int.{ℤ, pos, negsuc, is_neg, ◌==ℤ◌, eq_of_parts}
use ebc_sdr_native.Registers.{Control, iicb, read_array, write_array}
use ebc_sdr_native.Eeprom.Store.{IsEeprom, eeprom_addr, write_one, write_each, write_eeprom}

module _ (k : Control) (e : IsEeprom k) where
  -- the cells from `at` on hold `xs`, and the others what they held
  pub record Holds (b b' : k.Bus) (at : ℕ) (xs : List ℕ) : Type 0 where
    pub inside : (j : ℕ) → j < length xs → e.cell b' (at + j) ≡ get_or xs j 0
    pub below : (a : ℕ) → a < at → e.cell b' a ≡ e.cell b a
    pub above : (a : ℕ) → at + length xs ≤ a → e.cell b' a ≡ e.cell b a

  -- a transfer that writes a cell did not carry its two bytes
  pub record Failed : Type 0 where
    pub bus : k.Bus
    pub address : ℕ
    pub value : ℕ
    pub short : ((write_array k bus iicb eeprom_addr (address ∷ value ∷ [])).0 ==ℤ pos 2) ≡ false

  -- all is written, or the transfer of a byte failed
  abbrev pub Written : k.Bus → ℕ → List ℕ → ℤ × k.Bus → Type 0
  Written b at xs (r, b') = ((r ≡ pos 0) × Holds b b' at xs) ⊎ ((r ≡ negsuc 2) × Failed)

  Holds-cons :
      (b b1 b' : k.Bus) (at x : ℕ) (xs : List ℕ)
      → e.cell b1 at ≡ x
      → ((a : ℕ) → a ≢ at → e.cell b1 a ≡ e.cell b a)
      → Holds b1 b' (at + 1) xs
      → Holds b b' at (x ∷ xs)
  Holds-cons b b1 b' at x xs here others h = record {
    inside = elim [
      | zero ↦ λ l. ap (e.cell b') (omega arith) ∙ h.below at (omega arith) ∙ here
      | suc j ↦ λ l. ap (e.cell b') (omega arith) ∙ h.inside j (omega arith)
    ];
    below = λ a l. h.below a (omega arith) ∙ others a (omega arith);
    above = λ a l. h.above a (omega arith) ∙ others a (omega arith);
  }

  -- the bus after the byte at `at` is selected and read
  probed : k.Bus → ℕ → k.Bus
  probed b at = (read_array k (write_array k b iicb eeprom_addr (at ∷ [])).1 iicb eeprom_addr 1).2

  probed-keeps : (b : k.Bus) (at a : ℕ) → e.cell (probed b at) a ≡ e.cell b a
  unfolding probed
  probed-keeps b at a =
      e.read_keeps (write_array k b iicb eeprom_addr (at ∷ [])).1 a ∙ e.select_keeps b at a

  probe-cell :
      (b : k.Bus) (at : ℕ)
      → (read_array k (write_array k b iicb eeprom_addr (at ∷ [])).1 iicb eeprom_addr 1).1
        ≡ e.cell b at ∷ []
  probe-cell b at =
      let b1 : k.Bus = (write_array k b iicb eeprom_addr (at ∷ [])).1 in
      e.read_cell b1
      ∙ ap (λ a. e.cell b1 a ∷ []) (e.select_pointer b at)
      ∙ ap (λ x. x ∷ []) (e.select_keeps b at at)

  -- what the body of the loop does
  abbrev WrittenOne : k.Bus → ℕ → ℕ → ℤ × ℕ × k.Bus → Type 0
  WrittenOne b at x (r, cmd, b1) =
      ((r ≡ pos 0) × (e.cell b1 at ≡ x) × ((a : ℕ) → a ≢ at → e.cell b1 a ≡ e.cell b a))
      ⊎ ((r ≡ negsuc 2) × Failed)

  write_one-WrittenOne :
      (x at cmd : ℕ) (b : k.Bus) → at < 256 → WrittenOne b at x (write_one k x at cmd b)
  unfolding write_one probed
  write_one-WrittenOne x at cmd b h =
      let small : at % 256 ≡ at = omega arith in
      let b2 : k.Bus = probed b at in
      rw (small, probe-cell b at)
        (elim (Bool-cases (e.cell b at == x)) [
          | inl same ↦
              rw same
                (inl (refl, probed-keeps b at at ∙ ==→eq _ _ same, λ a ne. probed-keeps b at a))
          | inr differs ↦
              rw differs
                (elim (Bool-cases ((write_array k b2 iicb eeprom_addr (at ∷ x ∷ [])).0 ==ℤ pos 2)) [
                  | inr failed ↦
                      rw failed
                        (inr (refl, record { bus = b2; address = at; value = x; short = failed }))
                  | inl stored ↦ rw stored (
                      let cells = e.store_cell b2 at x (eq_of_parts _ _ (ground arith)) in
                      inl (
                        refl,
                        cells at ∙ rw (eq→== at at refl) refl,
                        λ a ne. cells a ∙ rw (ne→== a at ne) (probed-keeps b at a),
                      ))
                ])
        ])

  Written-next :
      (b : k.Bus) (at x : ℕ) (xs : List ℕ) (w : ℤ × ℕ × k.Bus) (rest : ℕ → k.Bus → ℤ × k.Bus)
      → WrittenOne b at x w
      → ((cmd : ℕ) (b1 : k.Bus) → Written b1 (at + 1) xs (rest cmd b1))
      → Written b at (x ∷ xs) (elim (is_neg w.0) [ true ↦ (w.0, w.2) | false ↦ rest w.1 w.2 ])
  Written-next b at x xs (r, cmd, b1) rest (inl (e0, here, others)) next =
      rw e0 (onward (rest cmd b1) (next cmd b1))
    where
      onward : (t : ℤ × k.Bus) → Written b1 (at + 1) xs t → Written b at (x ∷ xs) t
      onward t (inl (r0, h)) = inl (r0, Holds-cons b b1 t.1 at x xs here others h)
      onward t (inr f) = inr f
  Written-next b at x xs (r, cmd, b1) rest (inr (e0, f)) next = rw e0 (inr (e0, f))

  write_each-Written :
      (xs : List ℕ) (at cmd : ℕ) (b : k.Bus)
      → at + length xs ≤ 256
      → Written b at xs (write_each k xs at cmd b)
  unfolding write_each
  write_each-Written [] at cmd b h = inl (
    refl,
    record { inside = λ j l. absurd (omega arith); below = λ a l. refl; above = λ a l. refl },
  )
  write_each-Written (x ∷ xs) at cmd b h =
      Written-next b at x xs (write_one k x at cmd b) (write_each k xs (at + 1))
        (write_one-WrittenOne x at cmd b (omega arith))
        (λ cmd' b'. write_each-Written xs (at + 1) cmd' b' (omega arith))

  -- On a chip whose cells can always be selected and read, rtlsdr_write_eeprom() of bytes within the
  -- 256 returns 0 or -3: with 0 the cells from `offset` on hold the bytes and no other cell has
  -- changed, and -3 only if the transfer that writes a byte failed.
  pub write_eeprom-Written :
      (bytes : List ℕ) (offset cmd : ℕ) (b : k.Bus)
      → length bytes + offset ≤ 256
      → Written b offset bytes (write_eeprom k bytes offset cmd b)
  unfolding write_eeprom
  write_eeprom-Written bytes offset cmd b h =
      rw (ge→ltb 256 (length bytes + offset) h)
        (write_each-Written bytes offset cmd b (omega arith))
