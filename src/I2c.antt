-- ===== src/I2c.antt =====
-- What rtl-sdr/src/tuner_r82xx.c calls of its surroundings: rtlsdr_i2c_write_fn(), rtlsdr_i2c_read_fn()
-- and rtlsdr_set_bias_tee_gpio() of rtl-sdr/src/librtlsdr.c, which end in USB control transfers. They
-- are parameters here, with the chip's register file behind them in `IsChip`.
use ebc_sdr_native.Prelude.{
  ◌<◌, ℕ, suc, ◌+◌, ◌≡◌, ◌⊎◌, true, Bool, List, [], ◌∷◌, ◌==◌, if◌then◌else◌, length,
}
use ebc_sdr_native.Prelude.Int.{ℤ, pos, is_neg}

pub record I2c : Type 1 where
  pub Bus : Type 0
  -- the bus address, then the bytes: the register and what is written from it on
  pub write : Bus → ℕ → List ℕ → ℤ × Bus
  -- the bus address, the number of bytes; the code, the bytes and the bus
  pub read : Bus → ℕ → ℕ → ℤ × List ℕ × Bus
  pub set_bias_tee_gpio : Bus → ℕ → Bool → ℤ × Bus

-- the register file `f` after `bytes` are written from register `r` on
abbrev pub burn : (ℕ → ℕ) → ℕ → List ℕ → ℕ → ℕ
burn f r [] = f
burn f r (x ∷ xs) = burn (λ a. if a == r then x else f a) (r + 1) xs

-- The chip's register file. A write that reports all its bytes has stored them, the register number
-- going up by one for each byte; what a failed write stores is left open.
pub record IsChip (i : I2c) : Type 0 where
  pub chip : i.Bus → ℕ → ℕ
  pub write_all :
      (b : i.Bus) (addr r : ℕ) (bytes : List ℕ)
      → (i.write b addr (r ∷ bytes)).0 ≡ pos (suc (length bytes))
      → (a : ℕ) → chip (i.write b addr (r ∷ bytes)).1 a ≡ burn (chip b) r bytes a
  pub read_keeps : (b : i.Bus) (addr n a : ℕ) → chip (i.read b addr n).2 a ≡ chip b a
  pub gpio_keeps :
      (b : i.Bus) (gpio : ℕ) (on : Bool) (a : ℕ)
      → chip (i.set_bias_tee_gpio b gpio on).1 a ≡ chip b a

-- A write of up to 255 bytes sends all of them, or fails with a negative code.
abbrev pub AllOrNothing : I2c → Type 0
AllOrNothing i =
    (b : i.Bus) (addr : ℕ) (bytes : List ℕ)
    → length bytes < 256
    → (is_neg (i.write b addr bytes).0 ≡ true) ⊎ ((i.write b addr bytes).0 ≡ pos (length bytes))
