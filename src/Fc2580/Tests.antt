-- ===== src/Fc2580/Tests.antt =====
-- Runs of rtl-sdr/src/tuner_fc2580.c on a register file, and its theorem at it.
use ebc_sdr_native.Prelude.{ℕ, ◌≡◌, refl, inr, List, [], ◌∷◌, length}
use ebc_sdr_native.Prelude.Int.{pos}
use ebc_sdr_native.I2c.{I2c, IsChip, AllOrNothing, burn}
use ebc_sdr_native.Fc2580.Calls.{set_rf_freq_hz, initialize}

abbrev File : Type 0
File = ℕ → ℕ

abbrev burn_all : File → List ℕ → File
burn_all f [] = f
burn_all f (r ∷ bytes) = burn f r bytes

-- a chip whose filter is calibrated at once
abbrev bus : I2c
bus = record {
  Bus = File;
  write = λ f addr bytes. (pos (length bytes), burn_all f bytes);
  read = λ f addr n. (pos n, 0xc0 ∷ [], f);
  set_bias_tee_gpio = λ f gpio on. (pos 0, f);
}

abbrev file : IsChip bus
file = record {
  chip = λ f. f;
  write_all = λ f addr r bytes e a. refl;
  read_keeps = λ f addr n a. refl;
  gpio_keeps = λ f gpio on a. refl;
}

bus_whole : AllOrNothing bus
bus_whole f addr bytes h = inr refl

abbrev zeros : File
zeros a = 0

-- 100 MHz: 12 times that in VHF is 2 times 4.096 MHz times 146 and 31/64
abbrev at_100_mhz : List ℕ
unfolding set_rf_freq_hz
at_100_mhz =
    let f = (set_rf_freq_hz bus 100000000 zeros).1 in
    f 0x02 ∷ f 0x18 ∷ f 0x1a ∷ f 0x1b ∷ f 0x1c ∷ []

vhf_regs : at_100_mhz ≡ 0x86 ∷ 0x27 ∷ 0xc0 ∷ 0 ∷ 146 ∷ []
unfolding at_100_mhz set_rf_freq_hz
vhf_regs = refl

-- the filter's coefficient, and the register that starts the calibration
filter_set : ((initialize bus zeros).0 ≡ pos 0) × ((initialize bus zeros).1 0x37 ≡ 54)
unfolding initialize
filter_set = (refl, refl)
