-- ===== src/Device/R820t/Tests.antt =====
-- An R828D on a register file behind the control transfers of rtl-sdr/src/librtlsdr.c.
use ebc_sdr_native.Prelude.{
  ℕ, ◌+◌, ◌-◌, ◌≡◌, refl, ap, ◌∙◌, arith, true, false, List, [], ◌∷◌, get_or,
}
use ebc_sdr_native.Prelude.Int.{ℤ, pos}
use ebc_sdr_native.Registers.Tuner.{Implements, tuner_bus, tuner_bus-Implements}
use ebc_sdr_native.Registers.Tests.{tuner, tuner_file}
use ebc_sdr_native.R82xx.{Priv, RtlDev, XtalCap, DeliverySystem, TunerType}
use ebc_sdr_native.R82xx.Tables.{r82xx_init_array}
use ebc_sdr_native.Device.{TunerKind, Radio, repeated}
use ebc_sdr_native.Device.Tune.{choose_mode, auto_mode}
use ebc_sdr_native.Device.Settings.{set_tuner_gain, set_tuner_gain_mode}
use ebc_sdr_native.Device.R820t.{r820t, r82xx_config}
use ebc_sdr_native.Device.R820t.Steady.{Done}
use ebc_sdr_native.Device.R820t.Tuned.{Steady}
use ebc_sdr_native.Device.R820t.Requests.{Request, session, AllFit}
use ebc_sdr_native.Device.R820t.Requests.Kept.{session-Steady}

abbrev dongle : RtlDev
dongle = record { manufact = 82 ∷ []; product = 82 ∷ [] }

abbrev driver : Priv
driver = record {
  cfg = r82xx_config TunerKind.r828d 16000000;
  regs = r82xx_init_array;
  xtal_cap_sel = XtalCap.high_cap_0p;
  int_freq = 3570000;
  fil_cal_code = 0;
  input = 0;
  has_lock = true;
  init_done = true;
  delsys = DeliverySystem.dvbt;
  tuner_type = TunerType.digital_tv;
  bw = 3;
  rtl_dev = dongle;
}

abbrev exact : ℕ → ℤ → ℕ
exact xtal ppm = xtal

-- the registers hold the initial values
abbrev radio : Radio tuner (r820t tuner false TunerKind.r828d dongle)
radio = record {
  bus = λ a. get_or r82xx_init_array (a - 5) 0;
  chip = driver;
  rate = 2048000;
  rtl_xtal = 28800000;
  direct_sampling = pos 0;
  tuner_type = TunerKind.r828d;
  tun_xtal = 16000000;
  freq = 0;
  bw = 0;
  offs_freq = 0;
  corr = pos 0;
  gain = pos 0;
  strings = dongle;
  direct_sampling_mode = pos 0;
}

abbrev behind : Implements (tuner_bus tuner false) (λ f. f)
behind = tuner_bus-Implements tuner_file false

radio-Steady : Steady false tuner_file behind TunerKind.r828d dongle exact radio
radio-Steady = record {
  synced = record {
    sized = refl;
    room = omega arith;
    same = λ j h.
        behind.same_chip radio.bus (5 + j)
        ∙ (let e : 5 + j - 5 ≡ j = omega arith in ap (λ n. get_or r82xx_init_array n 0) e);
  };
  in_use = refl;
}

abbrev calls : List Request
calls = Request.gain (pos 297) ∷ Request.gain_mode (pos 1) ∷ Request.center_freq 100000000 ∷ []

calls_fit : AllFit exact calls radio
unfolding set_tuner_gain set_tuner_gain_mode repeated choose_mode auto_mode
calls_fit = (tt, λ e. (tt, λ e. (refl, λ e. tt)))

session-Steady_example :
    Done (Steady false tuner_file behind TunerKind.r828d dongle exact) (session exact calls radio)
session-Steady_example =
    session-Steady false tuner_file behind TunerKind.r828d dongle exact calls radio radio-Steady
      calls_fit
