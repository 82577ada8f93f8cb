-- ===== src/Device/Search.antt =====
-- The search for devices in rtl-sdr/src/librtlsdr.c: find_known_device(), rtlsdr_get_device_count(), the
-- loops over the devices of libusb, and rtlsdr_get_index_by_serial().
pub mod Selected
pub mod Serial
pub mod Strings
use ebc_sdr_native.Prelude.{
  ℕ, zero, suc, ◌+◌, ◌-◌, ◌%◌, Bool, true, false, ◌&&◌, Option, none, some, List, [], ◌∷◌, ◌==◌,
  if◌then◌else◌,
}
use ebc_sdr_native.Prelude.Int.{ℤ, pos, negsuc, ◌==ℤ◌}
use ebc_sdr_native.R82xx.Regs.{bytes_eq}

-- the vendor and the product of a device descriptor
abbrev pub Ids : Type 0
Ids = ℕ × ℕ

abbrev pub known_devices : List Ids
known_devices =
    (0x0bda, 0x2832)
    ∷ (0x0bda, 0x2838)
    ∷ (0x0413, 0x6680)
    ∷ (0x0413, 0x6f0f)
    ∷ (0x0458, 0x707f)
    ∷ (0x0ccd, 0x00a9)
    ∷ (0x0ccd, 0x00b3)
    ∷ (0x0ccd, 0x00b4)
    ∷ (0x0ccd, 0x00b5)
    ∷ (0x0ccd, 0x00b7)
    ∷ (0x0ccd, 0x00b8)
    ∷ (0x0ccd, 0x00b9)
    ∷ (0x0ccd, 0x00c0)
    ∷ (0x0ccd, 0x00c6)
    ∷ (0x0ccd, 0x00d3)
    ∷ (0x0ccd, 0x00d7)
    ∷ (0x0ccd, 0x00e0)
    ∷ (0x1554, 0x5020)
    ∷ (0x15f4, 0x0131)
    ∷ (0x15f4, 0x0133)
    ∷ (0x185b, 0x0620)
    ∷ (0x185b, 0x0650)
    ∷ (0x185b, 0x0680)
    ∷ (0x1b80, 0xd393)
    ∷ (0x1b80, 0xd394)
    ∷ (0x1b80, 0xd395)
    ∷ (0x1b80, 0xd397)
    ∷ (0x1b80, 0xd398)
    ∷ (0x1b80, 0xd39d)
    ∷ (0x1b80, 0xd3a4)
    ∷ (0x1b80, 0xd3a8)
    ∷ (0x1b80, 0xd3af)
    ∷ (0x1b80, 0xd3b0)
    ∷ (0x1d19, 0x1101)
    ∷ (0x1d19, 0x1102)
    ∷ (0x1d19, 0x1103)
    ∷ (0x1d19, 0x1104)
    ∷ (0x1f4d, 0xa803)
    ∷ (0x1f4d, 0xb803)
    ∷ (0x1f4d, 0xc803)
    ∷ (0x1f4d, 0xd286)
    ∷ (0x1f4d, 0xd803)
    ∷ []

-- the index in `known` of the device, if it is there
abbrev pub find_from : ℕ → List Ids → ℕ → ℕ → Option ℕ
find_from i [] vid pid = none
find_from i ((v, p) ∷ known) vid pid =
    if v == vid && p == pid then some i else find_from (suc i) known vid pid

unfoldable pub find_known_device : ℕ → ℕ → Option ℕ
find_known_device vid pid = find_from 0 known_devices vid pid

abbrev is_found : Option ℕ → Bool
is_found none = false
is_found (some _) = true

unfoldable pub is_known : Ids → Bool
unfolding find_known_device
is_known ids = is_found (find_known_device ids.0 ids.1)

-- device_count, if the device is one of ours
abbrev pub count_one : Ids → ℕ → ℕ
count_one ids count = if is_known ids then (count + 1) % 4294967296 else count

unfoldable pub count_loop : List Ids → ℕ → ℕ
unfolding is_known
count_loop [] count = count
count_loop (ids ∷ rest) count = count_loop rest (count_one ids count)

-- the loop of rtlsdr_get_device_count() over the list of libusb
unfoldable pub get_device_count : List Ids → ℕ
unfolding count_loop
get_device_count devices = count_loop devices 0

-- device_count - 1 is a uint32_t
abbrev pub minus_one : ℕ → ℕ
minus_one count = (count + 4294967295) % 4294967296

-- The loop of rtlsdr_open() from position `i` on: the position of the device, if there is one.
unfoldable pub select_loop : ℕ → ℕ → List Ids → ℕ → Option ℕ
unfolding is_known
select_loop index i [] count = none
select_loop index i (ids ∷ rest) count = elim (index == minus_one (count_one ids count)) [
  | true ↦ some i
  | false ↦ select_loop index (suc i) rest (count_one ids count)
]

unfoldable pub select_device : ℕ → List Ids → Option ℕ
unfolding select_loop
select_device index devices = select_loop index 0 devices 0

-- The loop of rtlsdr_get_device_name(): the index in `known_devices` of the device whose name is
-- returned. `last` is `device`, as the round before has left it.
unfoldable pub name_loop : ℕ → Option ℕ → List Ids → ℕ → Option ℕ
unfolding find_known_device
name_loop index last [] count = last
name_loop index last (ids ∷ rest) count = elim (find_known_device ids.0 ids.1) [
  | none ↦ name_loop index none rest count
  | some n ↦ elim (index == minus_one ((count + 1) % 4294967296)) [
    | true ↦ some n
    | false ↦ name_loop index (some n) rest ((count + 1) % 4294967296)
  ]
]

unfoldable pub get_device_name : ℕ → List Ids → Option ℕ
unfolding name_loop
get_device_name index devices = name_loop index none devices 0

-- rtlsdr_get_index_by_serial(): the first of `cnt` devices with that serial, -2 for no device, -3 for no
-- match. `serial_of` is rtlsdr_get_device_usb_strings(), with its code.
module _ (serial_of : ℕ → ℤ × List ℕ) (serial : List ℕ) where
  -- !r && !strcmp(serial, str)
  abbrev pub matches : ℤ × List ℕ → Bool
  matches (r, str) = r ==ℤ pos 0 && bytes_eq serial str

  abbrev pub serial_loop : ℕ → ℕ → ℤ
  serial_loop i zero = negsuc 2
  serial_loop i (suc left) = elim (matches (serial_of i)) [
    | true ↦ pos i
    | false ↦ serial_loop (suc i) left
  ]

  -- of the number of devices
  unfoldable pub get_index_by_serial : ℕ → ℤ
  get_index_by_serial zero = negsuc 1
  get_index_by_serial (suc n) = serial_loop 0 (suc n)
