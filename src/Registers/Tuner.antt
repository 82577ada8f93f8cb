-- ===== src/Registers/Tuner.antt =====
-- rtlsdr_i2c_write_fn(), rtlsdr_i2c_read_fn() and rtlsdr_set_bias_tee_gpio() of
-- rtl-sdr/src/librtlsdr.c in the place that rtl-sdr/src/tuner_r82xx.c leaves for them.
use ebc_sdr_native.Prelude.{
  ℕ, suc, ◌%◌, ◌≤◌, ◌≡◌, ◌≢◌, refl, ap, ◌∙◌, arith, Bool, List, ◌∷◌, length, take, length-take,
  take-length,
}
use ebc_sdr_native.Prelude.Int.{pos}
use ebc_sdr_native.I2c.{I2c, IsChip, burn}
use ebc_sdr_native.Registers.{Control, i2c_write, i2c_read, set_bias_tee_gpio}

abbrev pub tuner_bus : Control → Bool → I2c
tuner_bus k force_bt = record {
  Bus = k.Bus;
  write = i2c_write k;
  read = i2c_read k;
  set_bias_tee_gpio = set_bias_tee_gpio k force_bt;
}

-- The tuner behind the control transfers: 0x610 is the index of a write to the I2C block; a
-- transfer with another index does not reach the tuner. No transfer reports more bytes than it was given.
pub record IsTuner (k : Control) : Type 0 where
  pub chip : k.Bus → ℕ → ℕ
  pub send_all :
      (b : k.Bus) (addr r : ℕ) (bytes : List ℕ)
      → (k.send b addr 0x610 (r ∷ bytes)).0 ≡ pos (suc (length bytes))
      → (a : ℕ) → chip (k.send b addr 0x610 (r ∷ bytes)).1 a ≡ burn (chip b) r bytes a
  pub send_bound :
      (b : k.Bus) (addr index n : ℕ) (bytes : List ℕ)
      → (k.send b addr index bytes).0 ≡ pos n
      → n ≤ length bytes
  pub send_keeps :
      (b : k.Bus) (addr index a : ℕ) (bytes : List ℕ)
      → index ≢ 0x610
      → chip (k.send b addr index bytes).1 a ≡ chip b a
  pub receive_keeps :
      (b : k.Bus) (addr index n a : ℕ) → chip (k.receive b addr index n).2 a ≡ chip b a

-- `i` has the chip `chip` behind it
pub record Implements (i : I2c) (chip : i.Bus → ℕ → ℕ) : Type 0 where
  pub is_chip : IsChip i
  pub same_chip : (b : i.Bus) (a : ℕ) → is_chip.chip b a ≡ chip b a

module _ {k : Control} (t : IsTuner k) where
  gpio_keeps :
      (force_bt : Bool) (b : k.Bus) (gpio : ℕ) (on : Bool) (a : ℕ)
      → t.chip (set_bias_tee_gpio k force_bt b gpio on).1 a ≡ t.chip b a
  unfolding set_bias_tee_gpio
  gpio_keeps force_bt b gpio on a =
      t.send_keeps _ _ 0x210 a _ (λ e. omega (arith, e))
      ∙ t.receive_keeps _ _ _ _ a
      ∙ t.send_keeps _ _ 0x210 a _ (λ e. omega (arith, e))
      ∙ t.receive_keeps _ _ _ _ a
      ∙ t.send_keeps _ _ 0x210 a _ (λ e. omega (arith, e))
      ∙ t.receive_keeps b _ _ _ a

  -- a length that does not fit its uint8_t is not reported as written
  whole :
      (b : k.Bus) (addr r : ℕ) (bytes : List ℕ)
      → (i2c_write k b addr (r ∷ bytes)).0 ≡ pos (suc (length bytes))
      → take (length (r ∷ bytes) % 256) (r ∷ bytes) ≡ r ∷ bytes
  whole b addr r bytes e =
      let n = length (r ∷ bytes) % 256 in
      let fits : n ≡ length (r ∷ bytes) = omega (
        arith,
        t.send_bound b addr 0x610 (suc (length bytes)) (take n (r ∷ bytes)) e,
        length-take n (r ∷ bytes),
      ) in
      ap (λ m. take m (r ∷ bytes)) fits ∙ take-length (r ∷ bytes)

  write_all :
      (b : k.Bus) (addr r : ℕ) (bytes : List ℕ)
      → (i2c_write k b addr (r ∷ bytes)).0 ≡ pos (suc (length bytes))
      → (a : ℕ) → t.chip (i2c_write k b addr (r ∷ bytes)).1 a ≡ burn (t.chip b) r bytes a
  write_all b addr r bytes e a =
      let w = whole b addr r bytes e in rw w (t.send_all b addr r bytes (rw w at e) a)

  -- The I2C and GPIO calls over control transfers are a bus as the R82xx tuner's module takes it, and the
  -- chip behind it is the one behind the transfers, whether or not the bias tee is forced.
  pub tuner_bus-Implements : (force_bt : Bool) → Implements (tuner_bus k force_bt) t.chip
  tuner_bus-Implements force_bt = record {
    is_chip = record {
      chip = t.chip;
      write_all = write_all;
      read_keeps = λ b addr n a. t.receive_keeps b addr _ _ a;
      gpio_keeps = gpio_keeps force_bt;
    };
    same_chip = λ b a. refl;
  }
