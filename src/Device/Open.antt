-- ===== src/Device/Open.antt =====
-- rtlsdr_open() and rtlsdr_close() of rtl-sdr/src/librtlsdr.c, with the resources that they hold.
-- DETACH_KERNEL_DRIVER, which a build may define, is a parameter.
pub mod RoundTrip
pub mod Released
mod Tests
use ebc_sdr_native.Prelude.{
  ℕ, ◌/◌, ◌%◌, Bool, true, false, not, ◌&&◌, Option, none, some, List, [], ◌∷◌, ◌==◌, if◌then◌else◌,
  get_or,
}
use ebc_sdr_native.Prelude.Int.{ℤ, pos, negsuc, is_neg, ◌==ℤ◌}
use ebc_sdr_native.Usb.{Host}
use ebc_sdr_native.Stream.{Dev}
use ebc_sdr_native.Registers
use ebc_sdr_native.Registers.Baseband.{deinit_baseband}
use ebc_sdr_native.Eeprom.Store.{read_eeprom}
use ebc_sdr_native.R82xx.{RtlDev}
use ebc_sdr_native.Device.{TunerKind, Tuner, Radio, Op, is_zero}
use ebc_sdr_native.Device.Search.{Ids, select_device}
use ebc_sdr_native.Device.Search.Strings.{StringHost, Buffers, get_usb_strings, buffer_or}
use ebc_sdr_native.Device.Probe.{probe, setup_tuner}
use ebc_sdr_native.Device.Held.{
  Resource, memory, context, device_list, handle, driver, interface, acquire, release, release_all,
  Opened, Outcome, power_up, fail, new_radio, start_tuner,
}
use ebc_sdr_native.Bridge.{close_wait}

-- The calls of libusb, in the order in which they are made: what they return, or what they do to the
-- bus. `host` has those that rtlsdr_get_device_usb_strings() makes as well; `listed` says whether
-- libusb_get_device_list() has made a list.
pub record Libusb (k : Registers.Control) : Type 0 where
  pub host : StringHost
  pub listed : Bool
  pub kernel_driver_active : ℤ
  pub detach_kernel_driver : ℤ
  pub claim_interface : ℤ
  pub reset_device : k.Bus → k.Bus
  pub release_interface : k.Bus → k.Bus
  pub attach_kernel_driver : k.Bus → k.Bus

-- what the search for the device finds, as a position in the list
unfoldable pub find_device : {k : Registers.Control} → Libusb k → ℕ → Option ℕ
unfolding select_device
find_device lib index = if lib.listed then select_device index lib.host.devices else none

-- the manufacturer and the product, in buffers that are zeros
unfoldable pub model_strings : StringHost → ℕ → RtlDev
unfolding get_usb_strings
model_strings h i =
    let b =
      (get_usb_strings h i (record { manufact = some []; product = some []; serial = none })).1 in
    record { manufact = buffer_or [] b.manufact; product = buffer_or [] b.product }

-- a kernel driver is there, and the build asks to detach it
abbrev pub has_driver : {k : Registers.Control} → Bool → Libusb k → Bool
has_driver detaches lib = detaches && (lib.kernel_driver_active ==ℤ pos 1)

-- libusb_detach_kernel_driver() fails
abbrev pub is_stuck : {k : Registers.Control} → Bool → Libusb k → Bool
is_stuck detaches lib = has_driver detaches lib && not (is_zero lib.detach_kernel_driver)

-- or succeeds
abbrev pub is_detached : {k : Registers.Control} → Bool → Libusb k → Bool
is_detached detaches lib = has_driver detaches lib && is_zero lib.detach_kernel_driver

module _ {k : Registers.Control} (tuners : TunerKind → Tuner k) where
  -- rtlsdr_close() at its end: its code, what it leaves held, the bus, and how many ms it has waited
  pub record Closed : Type 0 where
    pub code : ℤ
    pub held : List Resource
    pub bus : k.Bus
    pub waited : ℕ

  -- libusb_release_interface(), libusb_attach_kernel_driver() if there was a driver, libusb_close(),
  -- libusb_exit() and free()
  abbrev pub given_back : Bool → List Resource
  given_back has_driver = interface ∷ acquire has_driver driver (handle ∷ context ∷ memory ∷ [])

  -- the chip's state is freed with the device
  abbrev pub exit_tuner : (kind : TunerKind) → Radio k (tuners kind) → Option (k.Bus → ℤ × k.Bus)
  exit_tuner kind s = elim ((tuners kind).exit) [
    | none ↦ none
    | some op ↦ some (λ b. let (r, chip, b') = op s.chip b in (r, b'))
  ]

  -- rtlsdr_close() of a device, whose stream is `d`
  unfoldable pub close :
      {h : Host}
      → (Dev h → Dev h)
      → (Dev h → Dev h)
      → Libusb k
      → Bool
      → Dev h
      → Opened tuners
      → List Resource
      → Option Closed
  unfolding close_wait deinit_baseband
  close pass interrupt lib detaches d o held =
      let (waited, d') = close_wait pass interrupt d in
      let b = o.radio.bus in
      let b1 = if d'.dev_lost then b else (deinit_baseband k (exit_tuner o.kind o.radio) b).1 in
      let b2 = lib.release_interface b1 in
      let b3 = if detaches && o.driver_active then lib.attach_kernel_driver b2 else b2 in
      elim (release_all (given_back (detaches && o.driver_active)) held) [
        | none ↦ none
        | some rest ↦ some (record { code = pos 0; held = rest; bus = b3; waited = waited })
      ]

  module _ (blank : (kind : TunerKind) → (tuners kind).Chip) (apply_ppm : ℕ → ℤ → ℕ) where
    -- from the claimed interface of device `i` to the end; the codes on the way are not looked at
    unfoldable pub bring_up : Libusb k → ℕ → k.Bus → Opened tuners
    unfolding power_up model_strings probe setup_tuner read_eeprom Registers.set_i2c_repeater
        Registers.set_bias_tee
    bring_up lib i b =
        let b1 = power_up k lib.reset_device b in
        let strings = model_strings lib.host i in
        let (kind, b2) = probe k (Registers.set_i2c_repeater k b1 true) in
        let s = setup_tuner apply_ppm kind (new_radio tuners blank kind strings b2 kind) in
        let s1 = (start_tuner tuners apply_ppm kind s).1 in
        let b3 = Registers.set_i2c_repeater k s1.bus false in
        let (r, image, b4) = read_eeprom k 0 256 b3 in
        let force = not (is_neg r) && get_or image 7 0 / 2 % 2 == 0 in
        let b5 = if force then (Registers.set_bias_tee k force b4 true).1 else b4 in
        record {
          kind = kind;
          radio = record s1 { bus = b5 };
          force_bt = force;
          driver_active = lib.kernel_driver_active ==ℤ pos 1;
        }

    -- after libusb_open() of device `i` has returned `r`, and the list of devices is free
    unfoldable pub claim : Libusb k → Bool → ℕ → ℤ → k.Bus → List Resource → Option (Outcome tuners)
    unfolding bring_up
    claim lib detaches i r b held = elim (is_stuck detaches lib) [
      | true ↦ fail tuners r (handle ∷ context ∷ memory ∷ []) held
      | false ↦
          let held1 = acquire (is_detached detaches lib) driver held in
          elim (is_neg lib.claim_interface) [
            | true ↦ fail tuners lib.claim_interface (handle ∷ context ∷ memory ∷ []) held1
            | false ↦ some (record {
              code = pos 0;
              held = acquire (not (is_neg lib.claim_interface)) interface held1;
              device = some (bring_up lib i b);
            })
          ]
    ]

    unfoldable pub open_found :
        Libusb k → Bool → ℕ → k.Bus → List Resource → Option (Outcome tuners)
    unfolding claim
    open_found lib detaches i b held = elim (is_neg (lib.host.open_code i)) [
      | true ↦ fail tuners (lib.host.open_code i) (device_list ∷ context ∷ memory ∷ []) held
      | false ↦
          elim (release device_list (acquire (not (is_neg (lib.host.open_code i))) handle held)) [
            | none ↦ none
            | some held' ↦ claim lib detaches i (lib.host.open_code i) b held'
          ]
    ]

    -- -12 is -ENOMEM. `has_memory` is the success of malloc(), and `none` a resource that is released
    -- without being held.
    unfoldable pub device_open : Libusb k → Bool → Bool → ℕ → k.Bus → Option (Outcome tuners)
    unfolding open_found find_device
    device_open lib detaches false index b =
        some (record { code = negsuc 11; held = []; device = none })
    device_open lib detaches true index b = elim (is_neg lib.host.init) [
      | true ↦ fail tuners (negsuc 0) (memory ∷ []) (memory ∷ [])
      | false ↦
          let ctx = acquire (not (is_neg lib.host.init)) context (memory ∷ []) in
          let held = acquire lib.listed device_list ctx in
          elim (find_device lib index) [
            | none ↦ fail tuners (negsuc 0) (context ∷ memory ∷ []) held
            | some i ↦ open_found lib detaches i b held
          ]
    ]
