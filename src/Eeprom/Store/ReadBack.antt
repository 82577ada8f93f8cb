-- ===== src/Eeprom/Store/ReadBack.antt =====
-- rtlsdr_read_eeprom() of rtl-sdr/src/librtlsdr.c, and that it reads what rtlsdr_write_eeprom() wrote.
use ebc_sdr_native.Prelude.{
  ℕ, zero, suc, ◌+◌, ◌%◌, ◌≤◌, ◌<◌, ◌≡◌, refl, sym, ap, ◌∙◌, arith, false, inl, inr, List, [], ◌∷◌,
  ge→ltb, length, get_or,
}
use ebc_sdr_native.Prelude.Int.{ℤ, pos, is_neg}
use ebc_sdr_native.Registers.{Control, iicb, read_array, write_array}
use ebc_sdr_native.Eeprom.Store.{IsEeprom, eeprom_addr, write_eeprom, read_each, read_eeprom}
use ebc_sdr_native.Eeprom.Store.Written.{write_eeprom-Written}

module _ (k : Control) (e : IsEeprom k) where
  -- what a read leaves: the bytes of the cells from `at` on
  Reads : k.Bus → ℕ → ℕ → ℤ × List ℕ × k.Bus → Type 0
  Reads b at n (r, bytes, b') =
      (is_neg r ≡ false)
      × (length bytes ≡ n)
      × ((j : ℕ) → j < n → get_or bytes j 0 ≡ e.cell b (at + j))

  Reads-cons :
      (b b1 : k.Bus) (at n x : ℕ) (t : ℤ × List ℕ × k.Bus)
      → x ≡ e.cell b at
      → ((a : ℕ) → e.cell b1 a ≡ e.cell b a)
      → Reads b1 (at + 1) n t
      → Reads b at (suc n) (t.0, x ∷ t.1, t.2)
  unfolding Reads
  Reads-cons b b1 at n x t here same (good, size, cells) = (
    good,
    omega arith,
    elim [
      | zero ↦ λ l. here ∙ ap (e.cell b) (omega arith)
      | suc j ↦ λ l. cells j (omega arith) ∙ same (at + 1 + j) ∙ ap (e.cell b) (omega arith)
    ],
  )

  -- the bus after one byte is read
  after : k.Bus → k.Bus
  after b = (read_array k b iicb eeprom_addr 1).2

  read_good : (b : k.Bus) → is_neg (read_array k b iicb eeprom_addr 1).0 ≡ false
  read_good b = ap is_neg (e.read_rc b)

  select_good : (b : k.Bus) (a : ℕ) → is_neg (write_array k b iicb eeprom_addr (a ∷ [])).0 ≡ false
  select_good b a = ap is_neg (e.select_rc b a)

  -- what is read after a first byte
  later : ℕ → k.Bus → ℤ × List ℕ × k.Bus
  unfolding after
  later n b = read_each k n (read_array k b iicb eeprom_addr 1).0 (after b)

  read_each-suc :
      (n : ℕ) (r : ℤ) (b : k.Bus)
      → read_each k (suc n) r b
        ≡ ((later n b).0, e.cell b (e.pointer b) ∷ (later n b).1, (later n b).2)
  unfolding read_each later
  read_each-suc n r b =
      rw (read_good b, read_each)
        (ap (λ l. ((later n b).0, get_or l 0 0 ∷ (later n b).1, (later n b).2)) (e.read_cell b))

  read_each-Reads :
      (n at : ℕ) (r : ℤ) (b : k.Bus)
      → is_neg r ≡ false
      → e.pointer b ≡ at % 256
      → at + n ≤ 256
      → Reads b at n (read_each k n r b)
  unfolding read_each Reads later
  read_each-Reads zero at r b good p h = (good, refl, λ j l. absurd (omega arith))
  read_each-Reads (suc n) at r b good p h =
      let small : at % 256 ≡ at = omega arith in
      let next : (at % 256 + 1) % 256 ≡ (at + 1) % 256 = omega arith in
      rw (read_each-suc n r b) (
        Reads-cons b (after b) at n (e.cell b (e.pointer b)) (later n b) (ap (e.cell b) (p ∙ small))
          (e.read_keeps b)
          (read_each-Reads n (at + 1) _ (after b) (read_good b)
            (e.read_next b ∙ ap (λ a. (a + 1) % 256) p ∙ next) (omega arith)))

  read_eeprom-Reads :
      (offset len : ℕ) (b : k.Bus)
      → len + offset ≤ 256
      → offset < 256
      → Reads b offset len (read_eeprom k offset len b)
  unfolding read_eeprom Reads
  read_eeprom-Reads offset len b h l =
      let b1 : k.Bus = (write_array k b iicb eeprom_addr (offset ∷ [])).1 in
      let small : offset % 256 ≡ offset = omega arith in
      let (good, size, cells) =
        read_each-Reads len offset _ b1 (select_good b offset)
          (e.select_pointer b offset ∙ sym small) (omega arith) in
      rw (ge→ltb 256 (len + offset) h, select_good b offset)
        (good, size, λ j lt. cells j lt ∙ e.select_keeps b offset (offset + j))

  same_bytes :
      (xs ys : List ℕ)
      → length xs ≡ length ys
      → ((j : ℕ) → j < length ys → get_or xs j 0 ≡ get_or ys j 0)
      → xs ≡ ys
  same_bytes [] [] e h = refl
  same_bytes [] (y ∷ ys) e h = absurd (omega arith)
  same_bytes (x ∷ xs) [] e h = absurd (omega arith)
  same_bytes (x ∷ xs) (y ∷ ys) e h =
      rw (h 0 (omega arith), same_bytes xs ys (omega arith) (λ j l. h (suc j) (omega arith))) refl

  -- On a chip whose cells can always be selected and read, the bytes within the 256 that
  -- rtlsdr_write_eeprom() wrote with a result of 0, from a cell below 256 on, are what
  -- rtlsdr_read_eeprom() then reads from the same place, without an error.
  pub read_eeprom-write_eeprom :
      (bytes : List ℕ) (offset cmd : ℕ) (b : k.Bus)
      → length bytes + offset ≤ 256
      → offset < 256
      → (write_eeprom k bytes offset cmd b).0 ≡ pos 0
      → (is_neg (read_eeprom k offset (length bytes) (write_eeprom k bytes offset cmd b).1).0
          ≡ false)
        × ((read_eeprom k offset (length bytes) (write_eeprom k bytes offset cmd b).1).1 ≡ bytes)
  unfolding Reads
  read_eeprom-write_eeprom bytes offset cmd b h l written =
      let b1 : k.Bus = (write_eeprom k bytes offset cmd b).1 in
      let (good, size, cells) = read_eeprom-Reads offset (length bytes) b1 h l in
      elim (write_eeprom-Written k e bytes offset cmd b h) [
        | inl (_, holds) ↦ (good, same_bytes _ bytes size (λ j lt. cells j lt ∙ holds.inside j lt))
        | inr (failed, _) ↦ cc
      ]
