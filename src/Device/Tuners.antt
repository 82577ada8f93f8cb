-- ===== src/Device/Tuners.antt =====
-- tuners[] of rtl-sdr/src/librtlsdr.c: the drivers behind the tuner interface, on the device's own I2C
-- calls.

pub mod Made
pub mod Makes
mod Tests
use ebc_sdr_native.Prelude.{ℕ, ◌-◌, ◌%◌, Bool, not, Option, none, some, ltb}
use ebc_sdr_native.Prelude.Int.{ℤ, pos, negsuc}
use ebc_sdr_native.Registers
use ebc_sdr_native.Registers.Tuner.{tuner_bus}
use ebc_sdr_native.R82xx.{RtlDev}
use ebc_sdr_native.E4k.{Band, PllParams}
use ebc_sdr_native.E4k.Regs.{E4kState}
use ebc_sdr_native.E4k.Filters.{tune_freq, e4000_set_bw}
use ebc_sdr_native.E4k.Gains.{e4000_set_gain, e4000_set_if_gain, enable_manual_gain}
use ebc_sdr_native.E4k.Setup.{e4000_init, e4000_exit}
use ebc_sdr_native.Fitipower
use ebc_sdr_native.Fitipower.Fc0012
use ebc_sdr_native.Fitipower.Fc0013
use ebc_sdr_native.Fc2580.Calls
use ebc_sdr_native.Device.{TunerKind, Tuner, SetBw, Op, is_zero}
use ebc_sdr_native.Device.R820t.{r820t}

-- an int as a uint32_t
abbrev pub to_uint : ℤ → ℕ
to_uint (pos n) = n % 4294967296
to_uint (negsuc n) = 4294967295 - n % 4294967296

-- struct e4k_state without its rtl_dev
pub record E4kChip : Type 0 where
  pub i2c_addr : ℕ
  pub band : Band
  pub vco : PllParams

abbrev pub no_tuner : (k : Registers.Control) → Tuner k
no_tuner k = record {
  Chip = Unit {0};
  load_clock = λ clock c. c;
  init = none;
  exit = none;
  set_freq = none;
  set_bw = none;
  set_gain = none;
  set_if_gain = none;
  set_gain_mode = none;
}

module _ (k : Registers.Control) (force_bt : Bool) where
  abbrev pub to_chip : ℤ × E4kState (tuner_bus k force_bt) → ℤ × E4kChip × k.Bus
  to_chip (r, s) = (r, record { i2c_addr = s.i2c_addr; band = s.band; vco = s.vco }, s.bus)

  abbrev pub e4k_call :
      (E4kState (tuner_bus k force_bt) → ℤ × E4kState (tuner_bus k force_bt)) → Op k E4kChip
  e4k_call f c b =
      to_chip (f (record { bus = b; i2c_addr = c.i2c_addr; band = c.band; vco = c.vco }))

  abbrev pub e4000 : Tuner k
  e4000 = record {
    Chip = E4kChip;
    load_clock = λ clock c. record c { vco = record c.vco { fosc = clock } };
    init = some (λ clock. e4k_call (e4000_init clock));
    exit = some (e4k_call e4000_exit);
    set_freq = some (λ freq. e4k_call (tune_freq freq));
    set_bw = some (SetBw.plain (λ bw. e4k_call (e4000_set_bw (to_uint bw))));
    set_gain = some (λ gain. e4k_call (e4000_set_gain gain));
    set_if_gain = some (λ stage gain. e4k_call (e4000_set_if_gain (to_uint stage) gain));
    set_gain_mode = some (λ manual. e4k_call (enable_manual_gain (not (is_zero manual))));
  }

  -- a call of a driver that keeps no state; the chip's state is rtlsdr_get_tuner_clock()
  abbrev pub clocked : ℕ → ℤ × k.Bus → ℤ × ℕ × k.Bus
  clocked clock (r, b) = (r, clock, b)

  abbrev pub coded : {A : Type 0} → ℕ → Option A × k.Bus → ℤ × ℕ × k.Bus
  coded clock result = clocked clock (Fitipower.code_of result)

  -- the V-band or U-band filter, then the tuner
  abbrev pub fc0012_set_freq : ℕ → Op k ℕ
  fc0012_set_freq freq clock b =
      let b' = Registers.set_gpio_bit k b 6 (ltb 300000000 freq) in
      coded clock (Fc0012.set_params (tuner_bus k force_bt) clock freq 6000000 b')

  abbrev pub fc0012 : Tuner k
  fc0012 = record {
    Chip = ℕ;
    load_clock = λ clock c. clock;
    init = some (λ clock c b. coded clock (Fc0012.init (tuner_bus k force_bt) b));
    exit = some (λ c b. (pos 0, c, b));
    set_freq = some fc0012_set_freq;
    set_bw = some (SetBw.plain (λ bw c b. (pos 0, c, b)));
    set_gain = some (λ gain c b. coded c (Fc0012.set_gain (tuner_bus k force_bt) gain b));
    set_if_gain = none;
    set_gain_mode = some (λ manual c b. (pos 0, c, b));
  }

  abbrev pub fc0013 : Tuner k
  fc0013 = record {
    Chip = ℕ;
    load_clock = λ clock c. clock;
    init = some (λ clock c b. coded clock (Fc0013.init (tuner_bus k force_bt) b));
    exit = some (λ c b. (pos 0, c, b));
    set_freq =
        some (λ freq c b. coded c (Fc0013.set_params (tuner_bus k force_bt) c freq 6000000 b));
    set_bw = some (SetBw.plain (λ bw c b. (pos 0, c, b)));
    set_gain = some (λ gain c b. coded c (Fc0013.set_lna_gain (tuner_bus k force_bt) gain b));
    set_if_gain = none;
    set_gain_mode = some (λ manual c b.
        coded c (Fc0013.set_gain_mode (tuner_bus k force_bt) (not (is_zero manual)) b));
  }

  abbrev pub fc2580 : Tuner k
  fc2580 = record {
    Chip = ℕ;
    load_clock = λ clock c. clock;
    init = some (λ clock c b. clocked clock (Calls.initialize (tuner_bus k force_bt) b));
    exit = some (λ c b. (pos 0, c, b));
    set_freq = some (λ freq c b. clocked c (Calls.set_rf_freq_hz (tuner_bus k force_bt) freq b));
    set_bw =
        some
          (SetBw.plain (λ bw c b. clocked c (Calls.set_bandwidth_mode (tuner_bus k force_bt) 1 b)));
    set_gain = some (λ gain c b. (pos 0, c, b));
    set_if_gain = none;
    set_gain_mode = some (λ manual c b. (pos 0, c, b));
  }

  abbrev pub tuners : RtlDev → TunerKind → Tuner k
  tuners strings TunerKind.unknown = no_tuner k
  tuners strings TunerKind.e4000 = e4000
  tuners strings TunerKind.fc0012 = fc0012
  tuners strings TunerKind.fc0013 = fc0013
  tuners strings TunerKind.fc2580 = fc2580
  tuners strings TunerKind.r820t = r820t k force_bt TunerKind.r820t strings
  tuners strings TunerKind.r828d = r820t k force_bt TunerKind.r828d strings
