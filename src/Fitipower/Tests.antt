-- ===== src/Fitipower/Tests.antt =====
-- Runs of rtl-sdr/src/tuner_fc0012.c and rtl-sdr/src/tuner_fc0013.c on a register file, and their
-- theorems at it.
use ebc_sdr_native.Prelude.{ℕ, ◌≡◌, refl, arith, none, some, ◌⊎◌, inr, List, [], ◌∷◌, length}
use ebc_sdr_native.Prelude.Int.{pos}
use ebc_sdr_native.I2c.{I2c, IsChip, AllOrNothing, burn}
use ebc_sdr_native.Fitipower.{make, settings, xdiv_of, xin_of}
use ebc_sdr_native.Fitipower.Programmed.{Ends}
use ebc_sdr_native.Fitipower.Fc0012
use ebc_sdr_native.Fitipower.Fc0012.Tunes as Tunes12
use ebc_sdr_native.Fitipower.Fc0013
use ebc_sdr_native.Fitipower.Fc0013.Range.{InGap, Outside}
use ebc_sdr_native.Fitipower.Fc0013.Tunes as Tunes13

abbrev File : Type 0
File = ℕ → ℕ

abbrev burn_all : File → List ℕ → File
burn_all f [] = f
burn_all f (r ∷ bytes) = burn f r bytes

-- a chip of which each read gives 0x10
abbrev bus : I2c
bus = record {
  Bus = File;
  write = λ f addr bytes. (pos (length bytes), burn_all f bytes);
  read = λ f addr n. (pos n, 0x10 ∷ [], f);
  set_bias_tee_gpio = λ f gpio on. (pos 0, f);
}

abbrev file : IsChip bus
file = record {
  chip = λ f. f;
  write_all = λ f addr r bytes e a. refl;
  read_keeps = λ f addr n a. refl;
  gpio_keeps = λ f gpio on a. refl;
}

bus_whole : AllOrNothing bus
bus_whole f addr bytes h = inr refl

abbrev zeros : File
zeros a = 0

-- the registers 1 to 6 after fc0012_set_params()
abbrev tuned : (clock freq : ℕ) → List ℕ
unfolding Fc0012.set_params
tuned clock freq =
    let f = (Fc0012.set_params bus clock freq 6000000 zeros).1 in
    f 1 ∷ f 2 ∷ f 3 ∷ f 4 ∷ f 5 ∷ f 6 ∷ []

-- 100 MHz: 222 parts and 2/9 of 14.4 MHz, divided by 32
fm_band : tuned 28800000 100000000 ≡ 6 ∷ 27 ∷ 28 ∷ 113 ∷ 0x47 ∷ 0xaa ∷ []
unfolding tuned Fc0012.set_params
fm_band = refl

-- the product of 1.4 GHz and 4 wraps, and what is left of it is taken
wrapped_vco : tuned 28800000 1400000000 ≡ 3 ∷ 11 ∷ 208 ∷ 72 ∷ 0x0f ∷ 0xa2 ∷ []
unfolding tuned Fc0012.set_params
wrapped_vco = refl

-- at 1075 MHz it wraps to 5 MHz, the counter wraps too, and 256 parts are taken
wrapped_counter : tuned 28800000 1075000000 ≡ 8 ∷ 31 ∷ 44 ∷ 186 ∷ 0x0f ∷ 0xa2 ∷ []
unfolding tuned Fc0012.set_params
wrapped_counter = refl

-- with a clock corrected by 10 ppm, 170 parts and just below a half are taken for 170 parts less a half
half_lost : (xdiv_of 2455224532 14400144 ≡ 170) × (xin_of 2455224532 14400144 ≡ 49152)
unfolding xdiv_of xin_of
half_lost = (refl, refl)

gap : (Fc0013.set_params bus 28800000 949000000 6000000 zeros).0 ≡ none
unfolding Fc0013.set_params
gap = refl

set_params-Makes_example :
    (settings (Fc0012.divider 100000000) 100000000 28800000 6000000
      ≡ some (make (Fc0012.divider 100000000) 100000000 28800000 6000000))
    × Ends
        (λ _ f. Tunes12.Makes 100000000 f)
        (Fc0012.set_params bus 28800000 100000000 6000000 zeros)
set_params-Makes_example =
    Tunes12.set_params-Makes file bus_whole 100000000 6000000 zeros (omega arith) (omega arith)

set_params-Answer_example :
    (InGap 100000000 × Ends (λ _ _. ⊥) (Fc0013.set_params bus 28800000 100000000 6000000 zeros))
    ⊎ (Outside 100000000
        × (settings (Fc0013.divider 100000000) 100000000 28800000 6000000
            ≡ some (make (Fc0013.divider 100000000) 100000000 28800000 6000000))
        × Ends
            (λ _ f. Tunes13.Makes 100000000 f)
            (Fc0013.set_params bus 28800000 100000000 6000000 zeros))
set_params-Answer_example =
    Tunes13.set_params-Answer file bus_whole 100000000 6000000 zeros (omega arith) (omega arith)
