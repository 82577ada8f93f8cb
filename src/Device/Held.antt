-- ===== src/Device/Held.antt =====
-- What rtlsdr_open() and rtlsdr_close() of rtl-sdr/src/librtlsdr.c and rtlsdr_open2() of
-- android/librtlsdr_andro.c hold: the memory of the device, the context of libusb, its list of devices
-- the handle of the device, a kernel driver that was detached and is owed, and the claimed interface; and what the two ways to open a device share.
use ebc_sdr_native.Prelude.{ℕ, Bool, true, false, Option, none, some, List, [], ◌∷◌, if◌then◌else◌}
use ebc_sdr_native.Prelude.Int.{ℤ, pos, is_neg}
use ebc_sdr_native.Registers
use ebc_sdr_native.Registers.Baseband.{init_baseband}
use ebc_sdr_native.Fir.{fir_default}
use ebc_sdr_native.R82xx.{RtlDev}
use ebc_sdr_native.Device.{TunerKind, Tuner, Radio}
use ebc_sdr_native.Device.Probe.{tuner_xtal}
use ebc_sdr_native.Device.Tune.{apply_to}
use ebc_sdr_native.Device.Clock.{tuner_clock}

pub data Resource : Type 0 where
  memory context device_list handle driver interface : Resource

abbrev is_same : Resource → Resource → Bool
is_same memory memory = true
is_same context context = true
is_same device_list device_list = true
is_same handle handle = true
is_same driver driver = true
is_same interface interface = true
is_same _ _ = false

-- what is held after a call, if it was a success
abbrev pub acquire : Bool → Resource → List Resource → List Resource
acquire true r held = r ∷ held
acquire false r held = held

-- to free(), libusb_exit(), libusb_free_device_list() or libusb_close() what is not held is a fault,
-- `none`
abbrev pub release : Resource → List Resource → Option (List Resource)
release r [] = none
release r (x ∷ xs) = elim (is_same r x) [
  | true ↦ some xs
  | false ↦ elim (release r xs) [ none ↦ none | some rest ↦ some (x ∷ rest) ]
]

abbrev pub release_all : List Resource → List Resource → Option (List Resource)
release_all [] held = some held
release_all (r ∷ rs) held = elim (release r held) [
  | none ↦ none
  | some held' ↦ release_all rs held'
]

-- the dummy write, with a reset where it fails, and the baseband
unfoldable pub power_up : (k : Registers.Control) → (k.Bus → k.Bus) → k.Bus → k.Bus
unfolding init_baseband
power_up k reset_device b =
    let (w, b') = Registers.write_reg k b Registers.usbb Registers.usb_sysctl 0x09 1 in
    init_baseband k fir_default (if is_neg w then reset_device b' else b')

module _ {k : Registers.Control} (tuners : TunerKind → Tuner k) where
  -- the device that is handed out
  pub record Opened : Type 0 where
    pub kind : TunerKind
    pub radio : Radio k (tuners kind)
    pub force_bt : Bool
    pub driver_active : Bool

  pub record Outcome : Type 0 where
    pub code : ℤ
    pub held : List Resource
    pub device : Option Opened

  -- a return with a code, after the given resources are released
  abbrev pub fail : ℤ → List Resource → List Resource → Option Outcome
  fail code freed held = elim (release_all freed held) [
    | none ↦ none
    | some rest ↦ some (record { code = code; held = rest; device = none })
  ]

  module _ (blank : (kind : TunerKind) → (tuners kind).Chip) where
    -- the device after memset(), with its crystals and strings
    abbrev pub new_radio : TunerKind → RtlDev → k.Bus → (kind : TunerKind) → Radio k (tuners kind)
    new_radio found strings b kind = record {
      bus = b;
      chip = blank kind;
      rate = 0;
      rtl_xtal = 28800000;
      direct_sampling = pos 0;
      tuner_type = found;
      tun_xtal = tuner_xtal found strings 28800000;
      freq = 0;
      bw = 0;
      offs_freq = 0;
      corr = pos 0;
      gain = pos 0;
      strings = strings;
      direct_sampling_mode = pos 0;
    }

  module _ (apply_ppm : ℕ → ℤ → ℕ) where
    -- dev->tuner->init(), if there is one
    abbrev pub start_tuner : (kind : TunerKind) → Radio k (tuners kind) → ℤ × Radio k (tuners kind)
    start_tuner kind s = elim (apply_to (tuners kind).init (tuner_clock apply_ppm s)) [
      | none ↦ (pos 0, s)
      | some op ↦ let (r', chip, b) = op s.chip s.bus in (r', record s { chip = chip; bus = b })
    ]
