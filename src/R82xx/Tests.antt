-- ===== src/R82xx/Tests.antt =====
-- Runs of the tuner driver of rtl-sdr/src/tuner_r82xx.c against concrete buses, and its theorems at
-- them.
use ebc_sdr_native.Prelude.{
  ◌*◌, ◌/◌, ℕ, suc, ◌+◌, ◌-◌, ◌≡◌, refl, ap, Bool, true, false, List, [], ◌∷◌, arith, length,
  get_or, replicate, if◌then◌else◌,
}
use ebc_sdr_native.Prelude.Int.{ℤ, pos, negsuc}
use ebc_sdr_native.I2c.{I2c, IsChip, burn}
use ebc_sdr_native.R82xx.{r828d, high_cap_0p, undefined, unset, Priv, St, Run, ok, err, hang}
use ebc_sdr_native.R82xx.Tables.{r82xx_init_array}
use ebc_sdr_native.R82xx.Model.{codes}
use ebc_sdr_native.R82xx.Regs.{write, write_reg, write_reg_mask, read}
use ebc_sdr_native.R82xx.Regs.Sync.{InSync, Settles, Any, Wrote, write-Settles}
use ebc_sdr_native.R82xx.Bandwidth.{filters}
use ebc_sdr_native.R82xx.Bandwidth.Filter.{Covers, filters-Covers}
use ebc_sdr_native.R82xx.Freq.{set_freq}
use ebc_sdr_native.R82xx.Init.{init, initial_write}
use ebc_sdr_native.R82xx.Init.Setup.{init-Settles}
use ebc_sdr_native.R82xx.Pll.{divider, vco_div, nint_of}
use ebc_sdr_native.R82xx.Pll.Tuning.{Tunes, divider-Tunes}
use ebc_sdr_native.R82xx.Calls.{set_freq-Settles}

abbrev store : (ℕ → ℕ) → ℕ → List ℕ → ℤ × (ℕ → ℕ)
store f addr [] = (pos 0, f)
store f addr (r ∷ bytes) = (pos (suc (length bytes)), burn f r bytes)

-- a bus that is the register file, and that reads as all ones
abbrev good_bus : I2c
good_bus = record {
  Bus = ℕ → ℕ;
  write = store;
  read = λ f addr n. (pos n, replicate n 0xff, f);
  set_bias_tee_gpio = λ f gpio on. (pos 0, f);
}

chip : IsChip good_bus
chip = record {
  chip = λ f. f;
  write_all = λ f addr r bytes e a. refl;
  read_keeps = λ f addr n a. refl;
  gpio_keeps = λ f gpio on a. refl;
}

-- the chip with the registers `regs`, and the driver of a Blog V4 that has them in its shadow
abbrev v4_priv : List ℕ → Priv
v4_priv regs = record {
  cfg = record {
    i2c_addr = 0x74;
    xtal = 28800000;
    rafael_chip = r828d;
    max_i2c_msg_len = 8;
    use_predetect = false;
  };
  regs = regs;
  xtal_cap_sel = high_cap_0p;
  int_freq = 3570000;
  fil_cal_code = 0;
  input = 0;
  has_lock = false;
  init_done = true;
  delsys = undefined;
  tuner_type = unset;
  bw = 3;
  rtl_dev = record { manufact = codes "RTLSDRBlog"; product = codes "Blog V4" };
}

abbrev tuned : St good_bus
tuned = record { priv = v4_priv r82xx_init_array; bus = λ a. get_or r82xx_init_array (a - 5) 0 }

abbrev powered : St good_bus
powered = record { priv = v4_priv []; bus = λ a. 0 }

tuned-InSync : InSync chip tuned
unfolding chip
tuned-InSync = record {
  sized = refl;
  room = omega arith;
  same = λ j h. let e : 5 + j - 5 ≡ j = omega arith in ap (λ k. get_or r82xx_init_array k 0) e;
}

-- a bus whose next transfer fails, and the later ones succeed
abbrev flaky_bus : I2c
flaky_bus = record {
  Bus = Bool × (ℕ → ℕ);
  write = λ b addr bytes.
      if b.0
      then (negsuc 3, (false, b.1))
      else ((store b.1 addr bytes).0, (false, (store b.1 addr bytes).1));
  read = λ b addr n. (pos n, replicate n 0xff, b);
  set_bias_tee_gpio = λ b gpio on. (pos 0, b);
}

abbrev state_of : {i : I2c} {A : Type 0} → St i → Run i A → St i
state_of s (ok a t) = t
state_of s (err r t) = t
state_of s hang = s

abbrev code_of : {i : I2c} {A : Type 0} → Run i A → ℤ
code_of (ok a t) = pos 0
code_of (err r t) = r
code_of hang = pos 1

abbrev before_fault : St flaky_bus
before_fault = record { priv = v4_priv (replicate 30 0); bus = (true, λ a. 0) }

abbrev after_fault : St flaky_bus
after_fault = state_of before_fault (write_reg 0x0a 0x36 before_fault)

-- a write that failed is skipped when it is tried again, though the chip never got it
retry_skipped :
    (code_of (write_reg 0x0a 0x36 before_fault) ≡ negsuc 3)
    × (code_of (write_reg 0x0a 0x36 after_fault) ≡ pos 0)
    × ((state_of after_fault (write_reg 0x0a 0x36 after_fault)).bus.1 0x0a ≡ 0)
unfolding write_reg
retry_skipped = (refl, refl, refl)

-- r82xx_init() succeeds though its first write failed, and register 0x18 keeps what it held
first_write_lost :
    (code_of (initial_write before_fault) ≡ negsuc 3)
    × (code_of (init before_fault) ≡ pos 0)
    × ((state_of before_fault (init before_fault)).bus.1 0x18 ≡ 0)
unfolding init write_reg_mask read write_reg
first_write_lost = (refl, refl, refl)

-- no divider fits 1.85 GHz, and the quotient 4111 is taken for 15, which the test lets pass
wrapped_quotient :
    ((divider 1850000000).mix_div ≡ 128)
    × (vco_div 28800000 (1850000000 * 128) / 65536 ≡ 4111)
    × (nint_of (vco_div 28800000 (1850000000 * 128)) ≡ 15)
unfolding divider vco_div nint_of
wrapped_quotient = (refl, refl, refl)

write-Settles_example :
    Settles chip
      (Wrote chip (v4_priv r82xx_init_array) 0x10 (1 ∷ 2 ∷ []))
      (write 0x10 (1 ∷ 2 ∷ []) tuned)
write-Settles_example =
    write-Settles chip tuned 0x10 (1 ∷ 2 ∷ []) tuned-InSync (omega arith) (omega arith)

init-Settles_example : Settles chip Any (init powered)
unfolding initial_write
init-Settles_example = init-Settles chip powered (omega arith) tt

set_freq-Settles_example : Settles chip Any (set_freq 7100000 tuned)
set_freq-Settles_example = set_freq-Settles chip 7100000 tuned tuned-InSync

filters-Covers_example : Covers 1000000 (filters (pos 1000000))
filters-Covers_example = filters-Covers 1000000 (omega arith)

divider-Tunes_example : Tunes 28800000 104070000
divider-Tunes_example =
    divider-Tunes 28800000 104070000 (omega arith) (omega arith) (omega arith) (omega arith)
