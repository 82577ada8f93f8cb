-- ===== src/Device/Search/Strings.antt =====
-- rtlsdr_get_device_usb_strings() and rtlsdr_get_usb_strings() of rtl-sdr/src/librtlsdr.c. What libusb
-- answers is a parameter; the calls that open and release something are logged, the last one first.
pub mod Found
mod Position
use ebc_sdr_native.Prelude.{
  ℕ, suc, ◌+◌, ◌%◌, Bool, true, false, Option, none, some, List, [], ◌∷◌, ◌==◌,
}
use ebc_sdr_native.Prelude.Int.{ℤ, pos, negsuc, is_neg, ◌==ℤ◌}
use ebc_sdr_native.Device.Search.{Ids, is_known, minus_one}

-- struct libusb_device_descriptor as far as it is read, with the code of the call that reads it
pub record Descriptor : Type 0 where
  pub code : ℤ
  pub manufact : ℕ
  pub product : ℕ
  pub serial : ℕ

-- A device is its position in the list of libusb, and so is a handle. `ascii` is what
-- libusb_get_string_descriptor_ascii() leaves in a buffer of zeros, up to the NUL.
pub record StringHost : Type 0 where
  pub init : ℤ
  pub devices : List Ids
  pub open_code : ℕ → ℤ
  pub descriptor : ℕ → Descriptor
  pub ascii : ℕ → ℕ → List ℕ

pub data Call : Type 0 where
  libusb_init get_device_list free_device_list libusb_exit : Call
  open_device close_device : ℕ → Call

-- the buffers of the caller; a null pointer is `none`
pub record Buffers : Type 0 where
  pub manufact : Option (List ℕ)
  pub product : Option (List ℕ)
  pub serial : Option (List ℕ)

-- memset() and libusb_get_string_descriptor_ascii(), if the pointer is not null
abbrev fill : List ℕ → Option (List ℕ) → Option (List ℕ)
fill s none = none
fill s (some _) = some s

unfoldable pub get_usb_strings : StringHost → ℕ → Buffers → ℤ × Buffers
get_usb_strings h dev b =
    let dd = h.descriptor dev in
    elim (is_neg dd.code) [
      | true ↦ (negsuc 0, b)
      | false ↦ (
        pos 0,
        record {
          manufact = fill (h.ascii dev dd.manufact) b.manufact;
          product = fill (h.ascii dev dd.product) b.product;
          serial = fill (h.ascii dev dd.serial) b.serial;
        },
      )
    ]

-- The loop of rtlsdr_get_device_usb_strings() from position `i` on: where it breaks, if it does.
unfoldable pub strings_loop : ℕ → ℕ → List Ids → ℕ → Option ℕ
unfolding is_known
strings_loop index i [] count = none
strings_loop index i (ids ∷ rest) count = elim (is_known ids) [
  | false ↦ strings_loop index (suc i) rest count
  | true ↦ elim (index == minus_one ((count + 1) % 4294967296)) [
    | true ↦ some i
    | false ↦ strings_loop index (suc i) rest ((count + 1) % 4294967296)
  ]
]

-- what is done with the device where the loop breaks; `r` is what libusb_init() returned
unfoldable pub read_at : StringHost → ℤ → Option ℕ → Buffers → ℤ × Buffers × List Call
unfolding get_usb_strings
read_at h r none b = (r, b, [])
read_at h r (some i) b = elim (h.open_code i ==ℤ pos 0) [
  | false ↦ (h.open_code i, b, Call.open_device i ∷ [])
  | true ↦
      let (r', b') = get_usb_strings h i b in
      (r', b', Call.close_device i ∷ Call.open_device i ∷ [])
]

abbrev followed : List Call → List Call → List Call
followed [] before = before
followed (c ∷ later) before = c ∷ followed later before

unfoldable pub get_device_usb_strings : StringHost → ℕ → Buffers → ℤ × Buffers × List Call
unfolding read_at strings_loop
get_device_usb_strings h index b = elim (is_neg h.init) [
  | true ↦ (h.init, b, Call.libusb_init ∷ [])
  | false ↦
      let (r, b', calls) = read_at h h.init (strings_loop index 0 h.devices 0) b in
      (
        r,
        b',
        followed (Call.libusb_exit ∷ Call.free_device_list ∷ calls)
            (Call.get_device_list ∷ Call.libusb_init ∷ []),
      )
]

abbrev pub buffer_or : List ℕ → Option (List ℕ) → List ℕ
buffer_or str none = str
buffer_or str (some s) = s

-- What rtlsdr_get_index_by_serial() sees of a call for `index`, when its buffer holds `str` before it.
unfoldable pub serial_at : StringHost → List ℕ → ℕ → ℤ × List ℕ
unfolding get_device_usb_strings
serial_at h str index =
    let (r, b, calls) =
      get_device_usb_strings h index
        (record { manufact = none; product = none; serial = some str }) in
    (r, buffer_or str b.serial)
