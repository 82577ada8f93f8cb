-- ===== src/Device/Search/Strings/Found.antt =====
-- That the index of rtlsdr_get_index_by_serial() in rtl-sdr/src/librtlsdr.c is right for rtlsdr_open().
use mathlib.Core.Bool.{false≢true}
use ebc_sdr_native.Prelude.{
  ℕ, suc, ◌+◌, ◌<◌, ◌≡◌, ◌≢◌, refl, sym, ap, ◌∙◌, arith, true, false, Bool-cases, inl, inr, some,
  List, ne→==, length,
}
use ebc_sdr_native.Prelude.Int.{ℤ, pos, negsuc, is_neg, pos_part, ◌==ℤ◌}
use ebc_sdr_native.R82xx.Regs.{bytes_eq}
use ebc_sdr_native.Device.Search.{
  count_loop, get_device_count, select_device, matches, get_index_by_serial,
}
use ebc_sdr_native.Device.Search.Selected.{select_device-nth_known}
use ebc_sdr_native.Device.Search.Strings.Position.{counted, count_bound, strings_loop-nth_known}
use ebc_sdr_native.Device.Search.Serial.{Answer, get_index_by_serial-Answer}
use ebc_sdr_native.Device.Search.Strings.{
  StringHost, strings_loop, get_usb_strings, read_at, get_device_usb_strings, serial_at,
}

-- the serial of the device at a position, as libusb reads it
abbrev pub serial_of : StringHost → ℕ → List ℕ
serial_of h j = h.ascii j (h.descriptor j).serial

-- what the buffer holds after a call, by where the call fails
module _ (h : StringHost) (str : List ℕ) (index : ℕ) where
  at_failed_init : is_neg h.init ≡ true → serial_at h str index ≡ (h.init, str)
  unfolding serial_at get_device_usb_strings
  at_failed_init n = rw (n, serial_at, get_device_usb_strings) refl

  module _ (j : ℕ) (n : is_neg h.init ≡ false) (e : strings_loop index 0 h.devices 0 ≡ some j) where
    at_failed_open :
        (h.open_code j ==ℤ pos 0) ≡ false → serial_at h str index ≡ (h.open_code j, str)
    unfolding serial_at get_device_usb_strings read_at
    at_failed_open o = rw (n, e, o, serial_at, get_device_usb_strings, read_at) refl

    at_failed_read :
        (h.open_code j ==ℤ pos 0) ≡ true
        → is_neg (h.descriptor j).code ≡ true
        → serial_at h str index ≡ (negsuc 0, str)
    unfolding serial_at get_device_usb_strings read_at get_usb_strings
    at_failed_read o d =
        rw (n, e, o, d, serial_at, get_device_usb_strings, read_at, get_usb_strings) refl

    at_read :
        (h.open_code j ==ℤ pos 0) ≡ true
        → is_neg (h.descriptor j).code ≡ false
        → serial_at h str index ≡ (pos 0, serial_of h j)
    unfolding serial_at get_device_usb_strings read_at get_usb_strings
    at_read o d = rw (n, e, o, d, serial_at, get_device_usb_strings, read_at, get_usb_strings) refl

not_zero : (r : ℤ) → is_neg r ≡ true → (r ==ℤ pos 0) ≡ false
not_zero (pos n) e = absurd (false≢true e)
not_zero (negsuc n) e = ne→== 0 (0 + suc n) (λ q. omega (arith, q))

-- a call that fails gives no match
no_match :
    {A : Type 0} (serial_of : ℕ → ℤ × List ℕ) (serial str : List ℕ) (r : ℤ)
    → (r ==ℤ pos 0) ≡ false
    → matches serial_of serial (r, str) ≡ true
    → A
no_match serial_of serial str r o m = absurd (false≢true (rw o at m))

no_index : (n i : ℕ) → negsuc n ≢ pos i
no_index n i e = false≢true (sym (ap is_neg e))

-- the answer of rtlsdr_get_index_by_serial() when it is an index
answer_index :
    (serial_of : ℕ → ℤ × List ℕ) (serial : List ℕ) (cnt : ℕ) (r : ℤ)
    → Answer serial_of serial cnt r
    → (i : ℕ) → r ≡ pos i
    → (i < cnt) × (matches serial_of serial (serial_of i) ≡ true)
answer_index serial_of serial cnt r (Answer.found j l m before) i e =
    let same : j ≡ i = ap pos_part e in (rw (sym same) l, rw (sym same) m)
answer_index serial_of serial cnt r (Answer.no_device z) i e = absurd (no_index 1 i e)
answer_index serial_of serial cnt r (Answer.no_match z before) i e = absurd (no_index 2 i e)

module _ (h : StringHost) (str serial : List ℕ) (index j : ℕ)
    (e : strings_loop index 0 h.devices 0 ≡ some j) where
  -- a match is with the serial of the device where the loop breaks
  opened_match :
      (others : ℕ → ℤ × List ℕ)
      → is_neg h.init ≡ false
      → (h.open_code j ==ℤ pos 0) ≡ true
      → matches others serial (serial_at h str index) ≡ true
      → bytes_eq serial (serial_of h j) ≡ true
  opened_match others n o m = elim (Bool-cases (is_neg (h.descriptor j).code)) [
    | inl d ↦ absurd (false≢true (rw (at_failed_read h str index j n e o d) at m))
    | inr d ↦ rw (at_read h str index j n e o d) at m
  ]

  match_serial :
      (others : ℕ → ℤ × List ℕ)
      → matches others serial (serial_at h str index) ≡ true
      → bytes_eq serial (serial_of h j) ≡ true
  match_serial others m = elim (Bool-cases (is_neg h.init)) [
    | inl n ↦
        no_match others serial str h.init (not_zero h.init n)
          (rw (at_failed_init h str index n) at m)
    | inr n ↦ elim (Bool-cases (h.open_code j ==ℤ pos 0)) [
      | inl o ↦ opened_match others n o m
      | inr o ↦
          no_match others serial str (h.open_code j) o
            (rw (at_failed_open h str index j n e o) at m)
    ]
  ]

-- With fewer than 2^31 devices, whatever the buffer holds before each call: if
-- rtlsdr_get_index_by_serial() returns an index, then rtlsdr_open() selects for it a device whose serial,
-- as libusb reads it, is the one asked for.
pub get_index_by_serial-select_device :
    (h : StringHost) (str : ℕ → List ℕ) (serial : List ℕ) (i : ℕ)
    → length h.devices < 2147483648
    → get_index_by_serial (λ n. serial_at h (str n) n) serial (get_device_count h.devices) ≡ pos i
    → (j : ℕ) × (select_device i h.devices ≡ some j) × (bytes_eq serial (serial_of h j) ≡ true)
unfolding get_device_count
get_index_by_serial-select_device h str serial i bound found =
    let calls : ℕ → ℤ × List ℕ = λ n. serial_at h (str n) n in
    let cnt = get_device_count h.devices in
    let (below, m) =
      answer_index calls serial cnt (get_index_by_serial calls serial cnt)
        (get_index_by_serial-Answer calls serial cnt) i found in
    let under : i < count_loop h.devices 0 = below in
    let (j, e) = counted i 0 h.devices 0 (omega (arith, under)) (omega arith) in
    let small : i < 4294967295 = omega (arith, count_bound h.devices 0 (omega arith), under) in
    let there = strings_loop-nth_known i i 0 h.devices 0 (omega arith) small ∙ e in
    (
      j,
      select_device-nth_known i h.devices small ∙ e,
      match_serial h (str i) serial i j there calls m,
    )
