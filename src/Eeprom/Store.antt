-- ===== src/Eeprom/Store.antt =====
-- rtlsdr_read_eeprom() and rtlsdr_write_eeprom() of rtl-sdr/src/librtlsdr.c, over its I2C access.
pub mod ReadBack
pub mod Written
use ebc_sdr_native.Prelude.{
  ℕ, zero, suc, ◌+◌, ◌*◌, ◌%◌, ◌<◌, ◌≡◌, ◌≢◌, bit_or, Bool, true, false, List, [], ◌∷◌, ltb, ◌==◌,
  if◌then◌else◌, length, get_or,
}
use ebc_sdr_native.Prelude.Int.{ℤ, pos, negsuc, is_neg, ◌==ℤ◌}
use ebc_sdr_native.Registers.{Control, iicb, read_array, write_array}

abbrev pub eeprom_addr : ℕ
eeprom_addr = 0xa0

module _ (k : Control) where
  -- The body of the loop of rtlsdr_write_eeprom(): its code, cmd[1] and the bus. `cmd` is cmd[1]
  -- before it, which a read that brings nothing leaves as it is.
  pub write_one : ℕ → ℕ → ℕ → k.Bus → ℤ × ℕ × k.Bus
  write_one x at cmd b =
      let b1 = (write_array k b iicb eeprom_addr (at % 256 ∷ [])).1 in
      let (_, got, b2) = read_array k b1 iicb eeprom_addr 1 in
      if get_or got 0 cmd == x
      then (pos 0, get_or got 0 cmd, b2)
      else (let (r, b3) = write_array k b2 iicb eeprom_addr (at % 256 ∷ x ∷ []) in
          if r ==ℤ pos 2 then (pos 0, x, b3) else (negsuc 2, x, b3))

  pub write_each : List ℕ → ℕ → ℕ → k.Bus → ℤ × k.Bus
  unfolding write_one
  write_each [] at cmd b = (pos 0, b)
  write_each (x ∷ xs) at cmd b =
      let (r, cmd', b') = write_one x at cmd b in
      elim (is_neg r) [ true ↦ (r, b') | false ↦ write_each xs (at + 1) cmd' b' ]

  -- `cmd` is what cmd[1] holds before it is set
  unfoldable pub write_eeprom : List ℕ → ℕ → ℕ → k.Bus → ℤ × k.Bus
  unfolding write_each
  write_eeprom bytes offset cmd b =
      if ltb 256 (length bytes + offset) then (negsuc 1, b) else write_each bytes offset cmd b

  -- the loop of rtlsdr_read_eeprom(), with the code of the last transfer
  pub read_each : ℕ → ℤ → k.Bus → ℤ × List ℕ × k.Bus
  read_each zero r b = (r, [], b)
  read_each (suc n) r b =
      let (r1, got, b1) = read_array k b iicb eeprom_addr 1 in
      elim (is_neg r1) [
        | true ↦ (negsuc 2, [], b1)
        | false ↦ let (r2, bytes, b2) = read_each n r1 b1 in (r2, get_or got 0 0 ∷ bytes, b2)
      ]

  unfoldable pub read_eeprom : ℕ → ℕ → k.Bus → ℤ × List ℕ × k.Bus
  unfolding read_each
  read_eeprom offset len b =
      if ltb 256 (len + offset)
      then (negsuc 1, [], b)
      else (let (r, b1) = write_array k b iicb eeprom_addr (offset ∷ []) in
          elim (is_neg r) [ true ↦ (negsuc 2, [], b1) | false ↦ read_each len r b1 ])

  -- The chip: 256 cells and a pointer. Selecting a cell and reading one succeed; a write of a cell may
  -- fail, and what it then stores is left open.
  pub record IsEeprom : Type 0 where
    pub cell : k.Bus → ℕ → ℕ
    pub pointer : k.Bus → ℕ
    pub select_rc : (b : k.Bus) (a : ℕ) → (write_array k b iicb eeprom_addr (a ∷ [])).0 ≡ pos 1
    pub select_pointer :
        (b : k.Bus) (a : ℕ) → pointer (write_array k b iicb eeprom_addr (a ∷ [])).1 ≡ a
    pub select_keeps :
        (b : k.Bus) (a x : ℕ) → cell (write_array k b iicb eeprom_addr (a ∷ [])).1 x ≡ cell b x
    pub read_rc : (b : k.Bus) → (read_array k b iicb eeprom_addr 1).0 ≡ pos 1
    pub read_cell : (b : k.Bus) → (read_array k b iicb eeprom_addr 1).1 ≡ cell b (pointer b) ∷ []
    pub read_next :
        (b : k.Bus) → pointer (read_array k b iicb eeprom_addr 1).2 ≡ (pointer b + 1) % 256
    pub read_keeps : (b : k.Bus) (x : ℕ) → cell (read_array k b iicb eeprom_addr 1).2 x ≡ cell b x
    pub store_cell :
        (b : k.Bus) (a v : ℕ)
        → (write_array k b iicb eeprom_addr (a ∷ v ∷ [])).0 ≡ pos 2
        → (x : ℕ)
        → cell (write_array k b iicb eeprom_addr (a ∷ v ∷ [])).1 x
          ≡ (if x == a then v else cell b x)
