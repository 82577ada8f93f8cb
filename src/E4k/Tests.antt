-- ===== src/E4k/Tests.antt =====
-- The computations of rtl-sdr/src/tuner_e4k.c at concrete frequencies.
use ebc_sdr_native.Prelude.{◌≡◌, refl, arith, some, false}
use ebc_sdr_native.E4k.{uhf, choose_rf_filter, e4k_compute_pll_params}
use ebc_sdr_native.E4k.Accuracy.{IsClose, e4k_compute_pll_params-IsClose}

-- 500 MHz takes the filter of 505 MHz
filter_500 : choose_rf_filter uhf 500000000 ≡ 6
unfolding choose_rf_filter
filter_500 = refl

-- for 3690 MHz the integral multiplier is 256, and is cut to 0
wrapped_z :
    e4k_compute_pll_params 28800000 3690000000
    ≡ some (record {
      fosc = 28800000;
      intended_flo = 3690000000;
      flo = 3600000;
      x = 16384;
      z = 0;
      r = 2;
      r_idx = 0;
      threephase = false;
    })
unfolding e4k_compute_pll_params
wrapped_z = refl

e4k_compute_pll_params-IsClose_example :
    IsClose 100000000 (e4k_compute_pll_params 28800000 100000000)
e4k_compute_pll_params-IsClose_example =
    e4k_compute_pll_params-IsClose 28800000 100000000 (omega arith) (omega arith) (omega arith)
      (omega arith)
