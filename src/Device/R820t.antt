-- ===== src/Device/R820t.antt =====
-- The R820T and the R828D behind the tuner interface: r820t_init() to r820t_set_gain_mode() of
-- rtl-sdr/src/librtlsdr.c, with the driver of rtl-sdr/src/tuner_r82xx.c on the device's own I2C calls.

pub mod Requests
pub mod Steady
mod Tests
pub mod Tuned
use ebc_sdr_native.Prelude.{ℕ, Bool, true, false, not, Option, none, some}
use ebc_sdr_native.Prelude.Int.{ℤ, pos, negsuc}
use ebc_sdr_native.I2c.{I2c}
use ebc_sdr_native.Registers
use ebc_sdr_native.Registers.Tuner.{tuner_bus}
use ebc_sdr_native.R82xx
use ebc_sdr_native.R82xx.{Chip, Config, RtlDev, Priv, St, Run, ok, err, hang}
use ebc_sdr_native.R82xx.Bandwidth.{set_bandwidth}
use ebc_sdr_native.R82xx.Freq.{set_freq}
use ebc_sdr_native.R82xx.Gain.{set_gain}
use ebc_sdr_native.R82xx.Init.{init, standby}
use ebc_sdr_native.Device.{TunerKind, Tuner, SetBw, is_zero}

-- the code that a command returns; no command hangs with the message length of r820t_init()
abbrev pub returned : {i : I2c} {A : Type 0} → (A → ℤ) → Priv → i.Bus → Run i A → ℤ × Priv × i.Bus
returned code p b (ok a s) = (code a, s.priv, s.bus)
returned code p b (err r s) = (r, s.priv, s.bus)
returned code p b hang = (negsuc 0, p, b)

abbrev pub success : Unit {0} → ℤ
success _ = pos 0

abbrev pub is_r828d : TunerKind → Bool
is_r828d TunerKind.r828d = true
is_r828d _ = false

-- the configuration that r820t_init() stores
abbrev pub r82xx_config : TunerKind → ℕ → Config
r82xx_config kind xtal = elim (is_r828d kind) [
  | true ↦ record {
    i2c_addr = 0x74;
    xtal = xtal;
    rafael_chip = Chip.r828d;
    max_i2c_msg_len = 8;
    use_predetect = false;
  }
  | false ↦ record {
    i2c_addr = 0x34;
    xtal = xtal;
    rafael_chip = Chip.r820t;
    max_i2c_msg_len = 8;
    use_predetect = false;
  }
]

module _ (k : Registers.Control) (force_bt : Bool) where
  abbrev pub on_device : Priv → k.Bus → St (tuner_bus k force_bt)
  on_device p b = record { priv = p; bus = b }

  -- The tuner of a device of that kind with these strings; r820t_set_if_gain() does not exist.
  abbrev pub r820t : TunerKind → RtlDev → Tuner k
  r820t kind strings = record {
    Chip = Priv;
    load_clock = λ clock p. record p { cfg = record p.cfg { xtal = clock } };
    init = some (λ clock p b.
        returned success p b
          (init (on_device (record p { cfg = r82xx_config kind clock; rtl_dev = strings }) b)));
    exit = some (λ p b. returned success p b (standby (on_device p b)));
    set_freq = some (λ freq p b. returned success p b (set_freq freq (on_device p b)));
    set_bw =
        some (SetBw.retunes (λ bw rate p b. returned pos p b (set_bandwidth bw (on_device p b))));
    set_gain = some (λ gain p b. returned success p b (set_gain true gain (on_device p b)));
    set_if_gain = none;
    set_gain_mode = some (λ manual p b.
        returned success p b (set_gain (not (is_zero manual)) (pos 0) (on_device p b)));
  }
