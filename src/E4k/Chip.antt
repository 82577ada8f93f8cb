-- ===== src/E4k/Chip.antt =====
-- Runs of rtl-sdr/src/tuner_e4k.c against a file of registers, and its theorems at them.
use ebc_sdr_native.Prelude.{
  ℕ, ◌%◌, ◌≡◌, ◌⊎◌, refl, arith, true, false, List, [], ◌∷◌, ◌==◌, if◌then◌else◌, get_or,
}
use ebc_sdr_native.Prelude.Int.{ℤ, pos, negsuc}
use ebc_sdr_native.I2c.{I2c}
use ebc_sdr_native.E4k.{Band, PllParams}
use ebc_sdr_native.E4k.Closest.{IsNearest}
use ebc_sdr_native.E4k.Regs.{E4kState, reg_set_mask}
use ebc_sdr_native.E4k.Regs.Masked.{IsE4k, Masked, reg_set_mask-Masked}
use ebc_sdr_native.E4k.Filters.{
  IfFilter, if_filter_bw, if_filter_bw_set, if_filter_bw_get, tune_freq,
}
use ebc_sdr_native.E4k.Filters.BandWidth.{if_filter_bw_get-if_filter_bw_set}
use ebc_sdr_native.E4k.Gains.{e4000_set_gain}
use ebc_sdr_native.E4k.Gains.Accepted.{is_accepted, e4000_set_gain_lem}
use ebc_sdr_native.E4k.Setup.{e4k_init}

-- the registers, and the one that is selected
abbrev File : Type 0
File = (ℕ → ℕ) × ℕ

abbrev accept : File → List ℕ → ℤ × File
accept f [] = (pos 0, f)
accept f (r ∷ []) = (pos 1, (f.0, r))
accept f (r ∷ v ∷ _) = (pos 2, (λ x. if x == r then v else f.0 x, r))

abbrev chip : I2c
chip = record {
  Bus = File;
  write = λ f addr bytes. accept f bytes;
  read = λ f addr n. (pos 1, f.0 f.1 % 256 ∷ [], f);
  set_bias_tee_gpio = λ f gpio on. (pos 0, f);
}

file : IsE4k chip
file = record {
  reg = λ f r. f.0 r % 256;
  byte = λ f r. omega arith;
  select_rc = λ f a r. refl;
  read_rc = λ f a r. refl;
  read_reg = λ f a r. refl;
  read_keeps = λ f a r x. refl;
  store = λ f a r v h e x. ground arith;
}

-- a chip that answers no read
abbrev deaf_chip : I2c
deaf_chip = record {
  Bus = File;
  write = λ f addr bytes. accept f bytes;
  read = λ f addr n. (negsuc 0, [], f);
  set_bias_tee_gpio = λ f gpio on. (pos 0, f);
}

abbrev idle : PllParams
idle = record {
  fosc = 28800000;
  intended_flo = 0;
  flo = 0;
  x = 0;
  z = 0;
  r = 2;
  r_idx = 0;
  threephase = false;
}

abbrev fresh : (i : I2c) → i.Bus → E4kState i
fresh i b = record { bus = b; i2c_addr = 0xc8; band = Band.vhf2; vco = idle }

-- a failed read: the bits outside the mask are all set by the write, and 0 is returned
lost_bits :
    ((reg_set_mask 0x16 0x06 0x02 (fresh deaf_chip (λ r. 0, 0))).0 ≡ pos 0)
    × ((reg_set_mask 0x16 0x06 0x02 (fresh deaf_chip (λ r. 0, 0))).1.bus.0 0x16 ≡ 0xfb)
unfolding reg_set_mask
lost_bits = (refl, refl)

-- 100 MHz, with the lock bit set
tuned : (tune_freq 100000000 (fresh chip (λ r. 1, 0))).0 ≡ pos 0
unfolding tune_freq
tuned = refl

started : (e4k_init (fresh chip (λ r. 0, 0))).1.bus.0 0x16 ≡ 0x01
unfolding e4k_init
started = refl

reg_set_mask-Masked_example :
    (((reg_set_mask 0x16 0x06 0x02 (fresh chip (λ r. 0xff, 0))).0 ≡ pos 0)
      × Masked file 0x16 0x06 0x02
          (λ r. 0xff, 0)
          (reg_set_mask 0x16 0x06 0x02 (fresh chip (λ r. 0xff, 0))).1.bus)
    ⊎ ((reg_set_mask 0x16 0x06 0x02 (fresh chip (λ r. 0xff, 0))).0 ≡ negsuc 0)
reg_set_mask-Masked_example =
    reg_set_mask-Masked file 0x16 0x06 0x02 (fresh chip (λ r. 0xff, 0)) (omega arith)

if_filter_bw_get-if_filter_bw_set_example :
    (k : ℕ) × (IsNearest 2000000 (if_filter_bw IfFilter.mix) k
      × ((if_filter_bw_get IfFilter.mix
            (if_filter_bw_set IfFilter.mix 2000000 (fresh chip (λ r. 0x5a, 0))).1).0
          ≡ pos (get_or (if_filter_bw IfFilter.mix) k 0)))
unfolding if_filter_bw_set
if_filter_bw_get-if_filter_bw_set_example =
    if_filter_bw_get-if_filter_bw_set file IfFilter.mix 2000000 (fresh chip (λ r. 0x5a, 0))
      (omega arith) refl

e4000_set_gain_lem_example :
    ((is_accepted (pos 420) ≡ true)
      × ((e4000_set_gain (pos 420) (fresh chip (λ r. 0, 0))).0 ≡ pos 0))
    ⊎ ((is_accepted (pos 420) ≡ false)
        × (e4000_set_gain (pos 420) (fresh chip (λ r. 0, 0)) ≡ (negsuc 0, fresh chip (λ r. 0, 0))))
e4000_set_gain_lem_example = e4000_set_gain_lem (pos 420) (fresh chip (λ r. 0, 0))
