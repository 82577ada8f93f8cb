-- ===== src/E4k.antt =====
-- The searches and the PLL computation of rtl-sdr/src/tuner_e4k.c.
pub mod Closest
pub mod Accuracy
pub mod Regs
pub mod Filters
pub mod Gains
pub mod Setup
mod Chip
mod Tests
use ebc_sdr_native.Prelude.{
  ℕ, zero, suc, ◌+◌, ◌-◌, ◌*◌, ◌/◌, ◌%◌, ◌^◌, bit_and, Bool, true, false, not, ◌||◌, Option, none,
  some, List, [], ◌∷◌, ltb, ◌==◌, if◌then◌else◌,
}

pub unsigned_delta : ℕ → ℕ → ℕ
unsigned_delta a b = if ltb b a then a - b else b - a

abbrev pub rf_filt_center_uhf : List ℕ
rf_filt_center_uhf =
    360000000 ∷ 380000000 ∷ 405000000 ∷ 425000000 ∷ 450000000 ∷ 475000000 ∷ 505000000 ∷ 540000000
    ∷ 575000000 ∷ 615000000 ∷ 670000000 ∷ 720000000 ∷ 760000000 ∷ 840000000 ∷ 890000000 ∷ 970000000
    ∷ []

abbrev pub rf_filt_center_l : List ℕ
rf_filt_center_l =
    1300000000 ∷ 1320000000 ∷ 1360000000 ∷ 1410000000 ∷ 1445000000 ∷ 1460000000 ∷ 1490000000
    ∷ 1530000000 ∷ 1560000000 ∷ 1590000000 ∷ 1640000000 ∷ 1660000000 ∷ 1680000000 ∷ 1700000000
    ∷ 1720000000 ∷ 1750000000 ∷ []

-- the loop from index `i` on, with the best distance and its index so far
pub closest_loop : ℕ → List ℕ → ℕ → ℕ → ℕ → ℕ
unfolding unsigned_delta
closest_loop freq [] i best bi = bi
closest_loop freq (x ∷ xs) i best bi = elim (ltb (unsigned_delta freq x) best) [
  | true ↦ closest_loop freq xs (i + 1) (unsigned_delta freq x) i
  | false ↦ closest_loop freq xs (i + 1) best bi
]

unfoldable pub closest_arr_idx : List ℕ → ℕ → ℕ
unfolding closest_loop
closest_arr_idx arr freq = closest_loop freq arr 0 0xffffffff 0

pub data Band : Type 0 where
  vhf2 vhf3 uhf l : Band

unfoldable pub choose_rf_filter : Band → ℕ → ℕ
unfolding closest_arr_idx
choose_rf_filter vhf2 freq = 0
choose_rf_filter vhf3 freq = 0
choose_rf_filter uhf freq = closest_arr_idx rf_filt_center_uhf freq
choose_rf_filter l freq = closest_arr_idx rf_filt_center_l freq

pub record PllSettings : Type 0 where
  pub freq : ℕ
  pub reg_synth7 : ℕ
  pub mult : ℕ

abbrev settings : ℕ → ℕ → ℕ → PllSettings
settings freq reg mult = record { freq = freq; reg_synth7 = reg; mult = mult }

abbrev pub pll_vars : List PllSettings
pll_vars =
    settings 72400000 15 48
    ∷ settings 81200000 14 40
    ∷ settings 108300000 13 32
    ∷ settings 162500000 12 24
    ∷ settings 216600000 11 16
    ∷ settings 325000000 10 12
    ∷ settings 350000000 9 8
    ∷ settings 432000000 3 8
    ∷ settings 667000000 2 6
    ∷ settings 1200000000 1 4
    ∷ []

-- the search loop: r_idx 0 and r 2 unless an entry is above the frequency
pub find_settings : ℕ → List PllSettings → PllSettings
find_settings flo [] = record { freq = 0; reg_synth7 = 0; mult = 2 }
find_settings flo (s ∷ rest) = if ltb flo s.freq then s else find_settings flo rest

pub is_fosc_valid : ℕ → Bool
is_fosc_valid fosc = not (ltb fosc 16000000 || ltb 30000000 fosc)

pub compute_fvco : ℕ → ℕ → ℕ → ℕ
compute_fvco f_osc z x = f_osc * z + f_osc * x / 65536

-- -EINVAL as a uint32_t if the VCO frequency is 0
pub compute_flo : ℕ → ℕ → ℕ → ℕ → ℕ
unfolding compute_fvco
compute_flo f_osc z x r =
    let fvco = compute_fvco f_osc z x in if fvco == 0 then 2 ^ 32 - 22 else fvco / r % 2 ^ 32

-- struct e4k_pll_params
pub record PllParams : Type 0 where
  pub fosc : ℕ
  pub intended_flo : ℕ
  pub flo : ℕ
  pub x : ℕ
  pub z : ℕ
  pub r : ℕ
  pub r_idx : ℕ
  pub threephase : Bool

-- what e4k_compute_pll_params() computes from the multiplier of the VCO
pub params : ℕ → ℕ → PllSettings → PllParams
unfolding compute_flo
params fosc intended_flo s =
    let intended_fvco = intended_flo * s.mult in
    let z = intended_fvco / fosc in
    let remainder = intended_fvco - fosc * z in
    let x = remainder * 65536 / fosc % 2 ^ 32 in
    record {
      fosc = fosc;
      intended_flo = intended_flo;
      flo = compute_flo fosc (z % 256) (x % 65536) s.mult;
      x = x % 65536;
      z = z % 256;
      r = s.mult;
      r_idx = s.reg_synth7;
      threephase = not (bit_and s.reg_synth7 0x08 == 0);
    }

-- `none` is the return of 0 for an oscillator out of its range
unfoldable pub e4k_compute_pll_params : ℕ → ℕ → Option PllParams
unfolding is_fosc_valid find_settings params
e4k_compute_pll_params fosc intended_flo =
    if is_fosc_valid fosc
    then some (params fosc intended_flo (find_settings intended_flo pll_vars))
    else none
