-- ===== src/Convenience/Search.antt =====
-- verbose_device_search() of rtl-sdr/src/convenience/convenience.c, without its messages.
pub mod Chosen
use ebc_sdr_native.Prelude.{
  ℕ, zero, suc, ◌+◌, ◌-◌, ◌%◌, Bool, true, false, ◌&&◌, Option, none, some, List, [], ◌∷◌, ◌==◌,
  ltb, if◌then◌else◌, length, drop,
}
use ebc_sdr_native.Prelude.Int.{ℤ, pos, negsuc}
use ebc_sdr_native.R82xx.Regs.{bytes_eq}

-- (int) of a long
abbrev pub narrow : ℤ → ℤ
narrow (pos n) =
    let m = n % 4294967296 in if ltb m 2147483648 then pos m else negsuc (4294967295 - m)
narrow (negsuc n) =
    let m = n % 4294967296 in if ltb m 2147483648 then negsuc m else pos (4294967295 - m)

-- strcmp(s, serial) == 0
abbrev pub is_exact : List ℕ → List ℕ → Bool
is_exact s serial = bytes_eq s serial

-- strncmp(s, serial, strlen(s)) == 0
abbrev pub is_prefix : List ℕ → List ℕ → Bool
is_prefix [] serial = true
is_prefix (x ∷ s) [] = false
is_prefix (x ∷ s) (y ∷ serial) = x == y && is_prefix s serial

abbrev pub is_suffix : List ℕ → List ℕ → Bool
is_suffix s serial =
    if ltb (length serial) (length s)
    then false
    else is_prefix s (drop (length serial - length s) serial)

-- device, if the whole string is a number from 0 to device_count - 1
abbrev below_count : ℤ → ℕ → Option ℕ
below_count (pos n) count = if ltb n count then some n else none
below_count (negsuc n) count = none

abbrev pub number_of : ℤ × List ℕ → ℕ → Option ℕ
number_of (device, []) count = below_count (narrow device) count
number_of (device, x ∷ rest) count = none

-- the device of a loop if it has returned one, and otherwise what comes after with the buffer
abbrev pub pick : Option ℕ × List ℕ → (List ℕ → ℤ) → ℤ
pick (some i, serial) next = pos i
pick (none, serial) next = next serial

-- `read` is what rtlsdr_get_device_usb_strings() leaves in the buffer `serial`, which holds the string of
-- an earlier call when it fails.
module _ (read : ℕ → List ℕ → List ℕ) where
  -- the loop that prints the devices: of it only the buffer is left
  abbrev pub print_loop : ℕ → ℕ → List ℕ → List ℕ
  print_loop zero i serial = serial
  print_loop (suc left) i serial = print_loop left (suc i) (read i serial)

  -- one of the three loops, from device `i` on
  abbrev pub match_loop : (List ℕ → Bool) → ℕ → ℕ → List ℕ → Option ℕ × List ℕ
  match_loop test zero i serial = (none, serial)
  match_loop test (suc left) i serial = elim (test (read i serial)) [
    | true ↦ (some i, read i serial)
    | false ↦ match_loop test left (suc i) (read i serial)
  ]

  unfoldable pub search_serial : List ℕ → ℕ → List ℕ → ℤ
  search_serial s count serial = pick (match_loop (is_exact s) count 0 serial) (λ serial.
      pick (match_loop (is_prefix s) count 0 serial)
        (λ serial. pick (match_loop (is_suffix s) count 0 serial) (λ serial. negsuc 0)))

  abbrev or_serial : Option ℕ → ℤ → ℤ
  or_serial none r = r
  or_serial (some device) r = pos device

  -- with strtol() of the string, and the number of devices
  unfoldable pub verbose_device_search : (List ℕ → ℤ × List ℕ) → List ℕ → ℕ → ℤ
  unfolding search_serial
  verbose_device_search strtol s zero = negsuc 0
  verbose_device_search strtol s (suc n) =
      or_serial (number_of (strtol s) (suc n)) (search_serial s (suc n) (print_loop (suc n) 0 []))
