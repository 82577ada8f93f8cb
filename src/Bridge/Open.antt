-- ===== src/Bridge/Open.antt =====
-- rtlsdr_open2() of android/librtlsdr_andro.c, with the resources that it holds on the way: the memory
-- of the device, the context of libusb and the handle of the device. The build does not define
-- DETACH_KERNEL_DRIVER.
pub mod Balanced
use ebc_sdr_native.Prelude.{
  ℕ, zero, suc, ◌/◌, ◌%◌, Bool, true, false, not, ◌&&◌, Option, none, some, List, [], ◌∷◌, ◌==◌,
  if◌then◌else◌, get_or,
}
use ebc_sdr_native.Prelude.Int.{ℤ, pos, negsuc, is_neg, ◌==ℤ◌}
use ebc_sdr_native.Registers
use ebc_sdr_native.Registers.Baseband.{init_baseband}
use ebc_sdr_native.Fir.{fir_default}
use ebc_sdr_native.Eeprom.{get_string_descriptor}
use ebc_sdr_native.Eeprom.Store.{read_eeprom}
use ebc_sdr_native.R82xx.{RtlDev}
use ebc_sdr_native.Device.{TunerKind, Tuner, Radio, Op, is_zero}
use ebc_sdr_native.Device.Probe.{probe, tuner_xtal, setup_tuner}
use ebc_sdr_native.Device.Tune.{apply_to}
use ebc_sdr_native.Device.Held.{
  Resource, memory, context, handle, interface, acquire, Opened, Outcome, power_up, fail, new_radio,
  start_tuner,
}

-- The calls of libusb: their codes, whether a context comes of libusb_init(), and the bus after them.
pub record Libusb (k : Registers.Control) : Type 0 where
  pub init : k.Bus → ℤ × Bool × k.Bus
  pub wrap_sys_device : ℕ → k.Bus → ℤ × k.Bus
  pub kernel_driver_active : ℤ
  pub claim_interface : k.Bus → ℤ × k.Bus
  pub reset_device : k.Bus → k.Bus

-- a string up to its NUL
abbrev pub c_string : List ℕ → List ℕ
c_string [] = []
c_string (x ∷ xs) = elim (x == 0) [ true ↦ [] | false ↦ x ∷ c_string xs ]

abbrev second_string : List ℕ → Option (ℤ × List ℕ) → List ℕ
second_string image none = []
second_string image (some (p, _)) = elim (get_string_descriptor p image) [
  | none ↦ []
  | some (_, str) ↦ c_string str
]

abbrev first_string : Option (ℤ × List ℕ) → List ℕ
first_string none = []
first_string (some (_, str)) = c_string str

-- the strings of an image that was read
unfoldable pub strings_of : List ℕ → RtlDev
unfolding get_string_descriptor
strings_of image =
    let first = get_string_descriptor (pos 9) image in
    record { manufact = first_string first; product = second_string image first }

module _ {k : Registers.Control} (tuners : TunerKind → Tuner k) where
  module _ (blank : (kind : TunerKind) → (tuners kind).Chip) (apply_ppm : ℕ → ℤ → ℕ) where
    -- from the claimed interface to the tuner's initialisation: what it returns, and the device
    unfoldable pub bring_up : Libusb k → k.Bus → ℤ × Opened tuners
    unfolding power_up read_eeprom strings_of probe tuner_xtal setup_tuner
        Registers.set_i2c_repeater Registers.set_bias_tee
    bring_up lib b =
        let (r, image, b3) = read_eeprom k 0 256 (power_up k lib.reset_device b) in
        let strings =
          if is_neg r then record { manufact = []; product = [] } else strings_of image in
        let (kind, b4) = probe k (Registers.set_i2c_repeater k b3 true) in
        let s = setup_tuner apply_ppm kind (new_radio tuners blank kind strings b4 kind) in
        let force = not (is_neg r) && get_or image 7 0 / 2 % 2 == 0 in
        let b5 = if force then (Registers.set_bias_tee k force s.bus true).1 else s.bus in
        let (r', s') = start_tuner tuners apply_ppm kind (record s { bus = b5 }) in
        (
          r',
          record {
            kind = kind;
            radio = s';
            force_bt = force;
            driver_active = lib.kernel_driver_active ==ℤ pos 1;
          },
        )

    unfoldable pub finish_open : ℤ × Opened tuners → List Resource → Option (Outcome tuners)
    unfolding Registers.set_i2c_repeater
    finish_open (r, o) held = elim (is_neg r) [
      | true ↦ fail tuners r (handle ∷ context ∷ memory ∷ []) held
      | false ↦
          let s = o.radio in
          let on : Radio k (tuners o.kind) = record s {
            bus = Registers.set_i2c_repeater k s.bus false;
          } in
          some (record { code = pos 0; held = held; device = some (record o { radio = on }) })
    ]

    -- -12 is -ENOMEM, -2001 and -2002 are EBC_SDR_ERR_LIBUSB_INIT and EBC_SDR_ERR_CLAIM. `has_memory`
    -- is the success of malloc(), and `none` a resource that is released without being held.
    unfoldable pub open2 : Libusb k → Bool → ℕ → k.Bus → Option (Outcome tuners)
    unfolding bring_up finish_open
    open2 lib false fd b = some (record { code = negsuc 11; held = []; device = none })
    open2 lib true fd b =
        let (status, has_ctx, b1) = lib.init b in
        let ctx = acquire has_ctx context (memory ∷ []) in
        elim (is_zero status) [
          | false ↦ fail tuners status (memory ∷ []) (memory ∷ [])
          | true ↦ elim has_ctx [
            | false ↦ fail tuners (negsuc 2000) (memory ∷ []) (memory ∷ [])
            | true ↦
                let (wrapped, b2) = lib.wrap_sys_device fd b1 in
                elim (is_zero wrapped) [
                  | false ↦ fail tuners wrapped (context ∷ memory ∷ []) ctx
                  | true ↦
                      let held = acquire (is_zero wrapped) handle ctx in
                      let (claimed, b3) = lib.claim_interface b2 in
                      elim (is_neg claimed) [
                        | true ↦ fail tuners (negsuc 2001) (handle ∷ context ∷ memory ∷ []) held
                        | false ↦
                            finish_open (bring_up lib b3)
                              (acquire (not (is_neg claimed)) interface held)
                      ]
                ]
          ]
        ]
