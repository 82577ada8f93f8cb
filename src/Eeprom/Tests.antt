-- ===== src/Eeprom/Tests.antt =====
-- Runs of the EEPROM access of rtl-sdr/src/librtlsdr.c against a concrete chip, and its theorems at
-- them.
use ebc_sdr_native.Prelude.{
  ℕ, ◌+◌, ◌%◌, ◌≡◌, refl, arith, false, List, [], ◌∷◌, ◌++◌, ◌==◌, if◌then◌else◌, replicate, some,
}
use ebc_sdr_native.Prelude.Int.{ℤ, pos, negsuc, is_neg}
use ebc_sdr_native.Eeprom.{get_string_descriptor}
use ebc_sdr_native.Eeprom.Bounds.{IsBounded, get_string_descriptor-IsBounded}
use ebc_sdr_native.Eeprom.RoundTrip.{string_descriptor, get_string_descriptor-string_descriptor}
use ebc_sdr_native.Eeprom.Store.{IsEeprom, write_eeprom, read_eeprom}
use ebc_sdr_native.Registers.{Control}
use ebc_sdr_native.Eeprom.Store.Written.{Written, write_eeprom-Written}
use ebc_sdr_native.Eeprom.Store.ReadBack.{read_eeprom-write_eeprom}

-- the cells and the pointer
abbrev accept : (ℕ → ℕ) × ℕ → List ℕ → ℤ × ((ℕ → ℕ) × ℕ)
accept b [] = (pos 0, b)
accept b (a ∷ []) = (pos 1, (b.0, a))
accept b (a ∷ v ∷ rest) = (pos 2, (λ x. if x == a then v else b.0 x, a))

abbrev chip : Control
chip = record {
  Bus = (ℕ → ℕ) × ℕ;
  send = λ b addr index bytes. accept b bytes;
  receive = λ b addr index len. (pos 1, b.0 b.1 ∷ [], (b.0, (b.1 + 1) % 256));
  junk = λ b. (0, 0);
}

cells : IsEeprom chip
cells = record {
  cell = λ b. b.0;
  pointer = λ b. b.1;
  select_rc = λ b a. refl;
  select_pointer = λ b a. refl;
  select_keeps = λ b a x. refl;
  read_rc = λ b. refl;
  read_cell = λ b. refl;
  read_next = λ b. refl;
  read_keeps = λ b x. refl;
  store_cell = λ b a v e x. refl;
}

abbrev blank : (ℕ → ℕ) × ℕ
blank = (λ a. 0xff, 0)

-- an EEPROM whose reads fail: the stale byte equals the one to write, so nothing is written
abbrev deaf_chip : Control
deaf_chip = record {
  Bus = (ℕ → ℕ) × ℕ;
  send = λ b addr index bytes. accept b bytes;
  receive = λ b addr index len. (negsuc 0, [], b);
  junk = λ b. (0, 0);
}

stale_skip :
    ((write_eeprom deaf_chip (7 ∷ 7 ∷ []) 0 0 blank).0 ≡ pos 0)
    × ((write_eeprom deaf_chip (7 ∷ 7 ∷ []) 0 0 blank).1.0 1 ≡ 0xff)
unfolding write_eeprom
stale_skip = (refl, refl)

get_string_descriptor-IsBounded_example :
    IsBounded (pos 9) (get_string_descriptor (pos 9) (replicate 256 0xff))
get_string_descriptor-IsBounded_example =
    get_string_descriptor-IsBounded (pos 9) (replicate 256 0xff) refl

-- "RTL" at position 9
get_string_descriptor-string_descriptor_example :
    get_string_descriptor
      (pos 9)
      (replicate 9 0 ++ (string_descriptor (82 ∷ 84 ∷ 76 ∷ []) ++ replicate 239 0))
    ≡ some (pos 17, 82 ∷ 84 ∷ 76 ∷ [])
get_string_descriptor-string_descriptor_example =
    get_string_descriptor-string_descriptor (replicate 9 0) (82 ∷ 84 ∷ 76 ∷ []) (replicate 239 0)
      (omega arith) refl

write_eeprom-Written_example :
    Written chip cells blank 4 (1 ∷ 2 ∷ []) (write_eeprom chip (1 ∷ 2 ∷ []) 4 0 blank)
write_eeprom-Written_example = write_eeprom-Written chip cells (1 ∷ 2 ∷ []) 4 0 blank (omega arith)

read_eeprom-write_eeprom_example :
    (is_neg (read_eeprom chip 4 2 (write_eeprom chip (1 ∷ 2 ∷ []) 4 0 blank).1).0 ≡ false)
    × ((read_eeprom chip 4 2 (write_eeprom chip (1 ∷ 2 ∷ []) 4 0 blank).1).1 ≡ 1 ∷ 2 ∷ [])
unfolding write_eeprom
read_eeprom-write_eeprom_example =
    read_eeprom-write_eeprom chip cells (1 ∷ 2 ∷ []) 4 0 blank (omega arith) (omega arith) refl
