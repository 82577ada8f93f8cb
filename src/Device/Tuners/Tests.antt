-- ===== src/Device/Tuners/Tests.antt =====
-- rtlsdr_set_center_freq() of rtl-sdr/src/librtlsdr.c against a register file behind the control
-- transfers, on the tuners without a state of their own, and its theorems there.
use ebc_sdr_native.Prelude.{
  ℕ, ◌%◌, ◌≡◌, ap, ◌∙◌, inr, refl, arith, false, [], length, take, take-length,
}
use ebc_sdr_native.Prelude.Int.{ℤ, pos}
use ebc_sdr_native.I2c.{AllOrNothing}
use ebc_sdr_native.Registers.Tests.{tuner, tuner_file}
use ebc_sdr_native.Registers.Tuner.{tuner_bus, tuner_bus-Implements}
use ebc_sdr_native.Fitipower.Fc0012.Tunes as Tunes12
use ebc_sdr_native.Fitipower.Fc0013.Tunes as Tunes13
use ebc_sdr_native.Fc2580.Makes as Exactly
use ebc_sdr_native.Device.{TunerKind, Tuner, Radio}
use ebc_sdr_native.Registers
use ebc_sdr_native.Fitipower.Fc0012
use ebc_sdr_native.Fitipower.Fc0013
use ebc_sdr_native.Fc2580.Calls
use ebc_sdr_native.Device.Tune.{choose_mode, set_center_freq}
use ebc_sdr_native.Device.Tuners.{fc0012, fc0013, fc2580}
use ebc_sdr_native.Device.Tuners.Made.{Done}
use ebc_sdr_native.Device.Tuners.Makes.{
  fc0012-set_center_freq, fc0013-set_center_freq, fc2580-set_center_freq,
}

wire_whole : AllOrNothing (tuner_bus tuner false)
wire_whole b addr bytes h =
    let fits : length bytes % 256 ≡ length bytes = omega arith in
    inr (ap pos (ap (λ n. length (take n bytes)) fits ∙ ap length (take-length bytes)))

abbrev exact : ℕ → ℤ → ℕ
exact xtal ppm = xtal

-- a device with the given tuner and its clock, in use
abbrev dongle : TunerKind → (t : Tuner tuner) → t.Chip → Radio tuner t
dongle kind t chip = record {
  bus = λ a. 0;
  chip = chip;
  rate = 2048000;
  rtl_xtal = 28800000;
  direct_sampling = pos 0;
  tuner_type = kind;
  tun_xtal = 28800000;
  freq = 0;
  bw = 0;
  offs_freq = 0;
  corr = pos 0;
  gain = pos 0;
  strings = record { manufact = []; product = [] };
  direct_sampling_mode = pos 0;
}

abbrev with_fc0012 : Radio tuner (fc0012 tuner false)
with_fc0012 = dongle TunerKind.fc0012 (fc0012 tuner false) 28800000

abbrev with_fc0013 : Radio tuner (fc0013 tuner false)
with_fc0013 = dongle TunerKind.fc0013 (fc0013 tuner false) 28800000

abbrev with_fc2580 : Radio tuner (fc2580 tuner false)
with_fc2580 = dongle TunerKind.fc2580 (fc2580 tuner false) 28800000

-- the calls succeed on this bus
fc0012_tunes : (set_center_freq exact 100000000 with_fc0012).0 ≡ pos 0
unfolding set_center_freq Fc0012.set_params Registers.set_gpio_bit
fc0012_tunes = refl

fc0013_tunes : (set_center_freq exact 1000000000 with_fc0013).0 ≡ pos 0
unfolding set_center_freq Fc0013.set_params
fc0013_tunes = refl

fc2580_tunes : (set_center_freq exact 100000000 with_fc2580).0 ≡ pos 0
unfolding set_center_freq Calls.set_rf_freq_hz
fc2580_tunes = refl

fc0012-set_center_freq_example :
    Done
      (λ s'. Tunes12.Makes 100000000 (tuner_file.chip s'.bus) × (s'.freq ≡ 100000000))
      (set_center_freq exact 100000000 with_fc0012)
unfolding choose_mode
fc0012-set_center_freq_example =
    fc0012-set_center_freq false tuner_file (tuner_bus-Implements tuner_file false) wire_whole exact
      100000000 with_fc0012 refl refl refl (omega arith) (omega arith) (omega arith)

fc0013-set_center_freq_example :
    Done
      (λ s'. Tunes13.Makes 1000000000 (tuner_file.chip s'.bus) × (s'.freq ≡ 1000000000))
      (set_center_freq exact 1000000000 with_fc0013)
unfolding choose_mode
fc0013-set_center_freq_example =
    fc0013-set_center_freq false tuner_file (tuner_bus-Implements tuner_file false) wire_whole exact
      1000000000 with_fc0013 refl refl refl (omega arith) (omega arith) (inr (omega arith))
      (omega arith)

fc2580-set_center_freq_example :
    Done
      (λ s'. Exactly.Makes 100000 (tuner_file.chip s'.bus) × (s'.freq ≡ 100000000))
      (set_center_freq exact 100000000 with_fc2580)
unfolding choose_mode
fc2580-set_center_freq_example =
    fc2580-set_center_freq false tuner_file (tuner_bus-Implements tuner_file false) wire_whole exact
      100000000 with_fc2580 refl refl (omega arith) (omega arith) (omega arith)
