-- ===== src/Device/Tests.antt =====
-- Runs of the control functions of rtl-sdr/src/librtlsdr.c against a bus that takes every transfer, and
-- their theorems at them.
use ebc_sdr_native.Prelude.{
  ◌∷◌, ℕ, ◌+◌, ◌≡◌, refl, true, none, some, [], length, ltb, if◌then◌else◌, List, arith,
}
use ebc_sdr_native.Prelude.Int.{ℤ, pos, negsuc}
use ebc_sdr_native.Registers
use ebc_sdr_native.R82xx.Model.{codes}
use ebc_sdr_native.Device.{TunerKind, Tuner, SetBw, Radio}
use ebc_sdr_native.Device.Search.{
  Ids, select_device, get_device_count, get_device_name, get_index_by_serial,
}
use ebc_sdr_native.Device.Search.Strings.{StringHost, serial_at}
use ebc_sdr_native.Device.Search.Strings.Found.{serial_of, get_index_by_serial-select_device}
use ebc_sdr_native.R82xx.Regs.{bytes_eq}
use ebc_sdr_native.Device.Search.Selected.{nth_known, select_device-nth_known}
use ebc_sdr_native.Device.Tune.{center_freq_loop, set_center_freq}
use ebc_sdr_native.Device.Tune.Ends.{center_freq_loop-set_center_freq}
use ebc_sdr_native.Device.Tune.Settles.{Rests, set_center_freq-Rests}
use ebc_sdr_native.Device.Settings.{real_rate, set_sample_rate}
use ebc_sdr_native.Device.Settings.Rate.{real_rate-id}

-- the bus counts the transfers that send
abbrev wire : Registers.Control
wire = record {
  Bus = ℕ;
  send = λ b addr index bytes. (pos (length bytes), b + 1);
  receive = λ b addr index len. (pos len, [], b);
  junk = λ b. (0, 0);
}

-- a tuner whose state is its frequency, and that fails above `limit`
abbrev tuner : ℕ → Tuner wire
tuner limit = record {
  Chip = ℕ;
  load_clock = λ clock c. c;
  init = some (λ clock c b. (pos 0, 1, b));
  exit = some (λ c b. (pos 0, 0, b));
  set_freq = some (λ freq c b. if ltb limit freq then (negsuc 0, c, b) else (pos 0, freq, b));
  set_bw = none;
  set_gain = none;
  set_if_gain = none;
  set_gain_mode = none;
}

abbrev exact : ℕ → ℤ → ℕ
exact xtal ppm = xtal

-- an R820T, in direct sampling if `mode` is not 0
abbrev dongle_with : (t : Tuner wire) → t.Chip → ℤ → Radio wire t
dongle_with t chip mode = record {
  bus = 0;
  chip = chip;
  rate = 2048000;
  rtl_xtal = 28800000;
  direct_sampling = mode;
  tuner_type = TunerKind.r820t;
  tun_xtal = 28800000;
  freq = 7000000;
  bw = 0;
  offs_freq = 0;
  corr = pos 0;
  gain = pos 0;
  strings = record { manufact = codes "Realtek"; product = codes "RTL2838UHIDIR" };
  direct_sampling_mode = pos 0;
}

abbrev dongle : (limit : ℕ) → ℤ → Radio wire (tuner limit)
dongle limit mode = dongle_with (tuner limit) 0 mode

-- a tuner whose filter cannot be set
abbrev stuck_filter : Tuner wire
stuck_filter = record (tuner 1000000000) {
  set_bw = some (SetBw.plain (λ bw c b. (negsuc 0, c, b)));
}

-- the rate is set, the filter is not, and 0 is returned
filter_lost : (set_sample_rate exact 2400000 (dongle_with stuck_filter 0 (pos 0))).0 ≡ pos 0
unfolding set_sample_rate
filter_lost = refl

-- from direct sampling to the tuner
up : (set_center_freq exact 100000000 (dongle 1000000000 (pos 2))).1.freq ≡ 100000000
unfolding set_center_freq
up = refl

-- the tuner fails: the device falls back to direct sampling at no frequency, and reports success
error_lost :
    ((set_center_freq exact 100000000 (dongle 50000000 (pos 2))).0 ≡ pos 0)
    × (((set_center_freq exact 100000000 (dongle 50000000 (pos 2))).1.freq ≡ 0)
        × ((set_center_freq exact 100000000 (dongle 50000000 (pos 2))).1.direct_sampling ≡ pos 2))
unfolding set_center_freq
error_lost = (refl, (refl, refl))

-- the lowest crystal that rtlsdr_set_xtal_freq() takes, at a rate that is not refused
lowest_crystal : real_rate 28799000 300000 ≡ 900062
unfolding real_rate
lowest_crystal = refl

rate_kept : (set_sample_rate exact 250000 (dongle 0 (pos 0))).1.rate ≡ 250000
unfolding set_sample_rate
rate_kept = refl

center_freq_loop-set_center_freq_example :
    center_freq_loop exact 5 100000000 (dongle 50000000 (pos 2))
    ≡ some (set_center_freq exact 100000000 (dongle 50000000 (pos 2)))
center_freq_loop-set_center_freq_example =
    center_freq_loop-set_center_freq exact 2 100000000 (dongle 50000000 (pos 2))

set_center_freq-Rests_example :
    Rests exact 100000000
      (dongle 50000000 (pos 2))
      (set_center_freq exact 100000000 (dongle 50000000 (pos 2)))
set_center_freq-Rests_example =
    set_center_freq-Rests exact 100000000 (dongle 50000000 (pos 2)) refl refl

real_rate-id_example : real_rate 28800000 2048000 ≡ 2048000
real_rate-id_example = real_rate-id 2048000 refl

-- a keyboard and two of our devices
abbrev plugged : List Ids
plugged = (0x046d, 0xc31c) ∷ (0x0bda, 0x2838) ∷ (0x0bda, 0x2832) ∷ []

-- device_count - 1 wraps: the keyboard is selected
wrapped_index : select_device 0xffffffff plugged ≡ some 0
unfolding select_device
wrapped_index = refl

-- there is no device 7, but the name of the last one is returned
name_of_last : get_device_name 7 plugged ≡ some 0
unfolding get_device_name
name_of_last = refl

select_device-nth_known_example : select_device 1 plugged ≡ nth_known 0 plugged 1
select_device-nth_known_example = select_device-nth_known 1 plugged (omega arith)

-- the second device has the serial string 3
abbrev hub : StringHost
hub = record {
  init = pos 0;
  devices = plugged;
  open_code = λ i. pos 0;
  descriptor = λ i. record { code = pos 0; manufact = 1; product = 2; serial = 3 };
  ascii = λ i n. i ∷ n ∷ [];
}

-- there is no device 7: the code is that of libusb_init(), and the buffer is as it was
missing_device : serial_at hub (9 ∷ []) 7 ≡ (pos 0, 9 ∷ [])
unfolding serial_at
missing_device = refl

get_index_by_serial-select_device_example :
    (j : ℕ) × (select_device 1 plugged ≡ some j) × (bytes_eq (2 ∷ 3 ∷ []) (serial_of hub j) ≡ true)
unfolding get_index_by_serial serial_at get_device_count
get_index_by_serial-select_device_example =
    get_index_by_serial-select_device hub (λ n. []) (2 ∷ 3 ∷ []) 1 (omega arith) refl
