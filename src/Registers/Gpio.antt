-- ===== src/Registers/Gpio.antt =====
-- The GPIO pins of rtlsdr_set_gpio_output(), rtlsdr_set_gpio_bit() and rtlsdr_set_bias_tee_gpio() in
-- rtl-sdr/src/librtlsdr.c, over the system registers of the chip.
use ebc_sdr_native.Prelude.{
  ℕ, zero, suc, ◌-◌, ◌*◌, ◌/◌, ◌%◌, ◌^◌, ◌≤◌, ◌<◌, ◌≡◌, ◌≢◌, refl, ◌∙◌, arith, bit_and, bit_or,
  Bool, true, false, ◌&&◌, ◌||◌, [], ◌∷◌, ◌==◌, if◌then◌else◌, all_below, all_below-holds, ==→eq,
  eq→==, ne→==,
}
use ebc_sdr_native.Prelude.Bits.{
  test_bit, test_bit-bit_and, test_bit-bit_or, test_bit_low, test_bit_high,
}
use ebc_sdr_native.Registers.{
  Control, sysb, gpo, gpoe, gpd, reg_value, read_reg, write_reg, set_bias_tee_gpio,
}

-- The chip's system registers, one byte each, behind transfers that succeed.
pub record IsSystem (k : Control) : Type 0 where
  pub reg : k.Bus → ℕ → ℕ
  pub receive_reg : (b : k.Bus) (a : ℕ) → (k.receive b a 0x200 1).1 ≡ reg b a ∷ []
  pub receive_keeps : (b : k.Bus) (a x : ℕ) → reg (k.receive b a 0x200 1).2 x ≡ reg b x
  pub send_reg :
      (b : k.Bus) (a v x : ℕ)
      → reg (k.send b a 0x210 (v ∷ [])).1 x ≡ (if x == a then v else reg b x)

-- `new` has bit `pin` as given, and the other bits of the byte as in `old`
pub record BitSet (pin value old new : ℕ) : Type 0 where
  pub set : test_bit new pin ≡ value
  pub others : (j : ℕ) → j < 8 → j ≢ pin → test_bit new j ≡ test_bit old j

all_pairs-holds :
    (p : ℕ → ℕ → Bool)
    → all_below 8 (λ x. all_below 8 (p x)) ≡ true
    → (x y : ℕ) → x < 8
    → y < 8
    → p x y ≡ true
all_pairs-holds p e x y h g =
    all_below-holds 8 (p x) y (all_below-holds 8 (λ x. all_below 8 (p x)) x e h) g

-- the bit of a pin, and its complement
one_bit : (pin j : ℕ) → pin < 8 → j < 8 → test_bit (2 ^ pin % 256) j ≡ (if j == pin then 1 else 0)
one_bit pin j h g = ==→eq _ _ (
    all_pairs-holds (λ pin j. test_bit (2 ^ pin % 256) j == (if j == pin then 1 else 0)) refl pin j
      h g)

all_but_bit :
    (pin j : ℕ) → pin < 8 → j < 8 → test_bit (65535 - 2 ^ pin % 256) j ≡ (if j == pin then 0 else 1)
all_but_bit pin j h g = ==→eq _ _ (
    all_pairs-holds (λ pin j. test_bit (65535 - 2 ^ pin % 256) j == (if j == pin then 0 else 1))
      refl pin j h g)

test_bit_le : (x j : ℕ) → test_bit x j ≤ 1
test_bit_le x zero = omega arith
test_bit_le x (suc j) = test_bit_le (x / 2) j

-- what the stack held is above the byte that was read
test_bit-reg_value :
    (junk : ℕ × ℕ) (x j : ℕ) → j < 8 → test_bit (reg_value junk (x ∷ [])) j ≡ test_bit x j
test_bit-reg_value junk x j h = omega (
  arith,
  test_bit-bit_or j (junk.1 % 256 * 256) (x % 256),
  test_bit_high j (junk.1 % 256) h,
  test_bit_low j x h,
)

pub BitSet-of :
    (pin value old new : ℕ)
    → value ≤ 1
    → ((j : ℕ) → j < 8 → test_bit new j ≡ (if j == pin then value else test_bit old j))
    → pin < 8
    → BitSet pin value old new
BitSet-of pin value old new v e h = record {
  set = rw (eq→== pin pin refl) at (e pin h);
  others = λ j g d. rw (ne→== j pin d) at (e j g);
}

module _ (pin : ℕ) (h : pin < 8) (junk : ℕ × ℕ) (x : ℕ) where
  raised : BitSet pin 1 x (bit_or (reg_value junk (x ∷ [])) (2 ^ pin % 256) % 256)
  raised =
      BitSet-of pin 1 x _ (omega arith)
        (λ j g. ground (
          arith,
          test_bit_low j (bit_or (reg_value junk (x ∷ [])) (2 ^ pin % 256)) g,
          test_bit-bit_or j (reg_value junk (x ∷ [])) (2 ^ pin % 256),
          test_bit-reg_value junk x j g,
          one_bit pin j h g,
          test_bit_le x j,
        ))
        h

  lowered : BitSet pin 0 x (bit_and (reg_value junk (x ∷ [])) (65535 - 2 ^ pin % 256) % 256)
  lowered =
      BitSet-of pin 0 x _ (omega arith)
        (λ j g. ground (
          arith,
          test_bit_low j (bit_and (reg_value junk (x ∷ [])) (65535 - 2 ^ pin % 256)) g,
          test_bit-bit_and j (reg_value junk (x ∷ [])) (65535 - 2 ^ pin % 256),
          test_bit-reg_value junk x j g,
          all_but_bit pin j h g,
          test_bit_le x j,
        ))
        h

abbrev level : Bool → ℕ
level on = if on then 1 else 0

module _ {k : Control} (c : IsSystem k) where
  -- what reads a register, changes it and writes it back
  abbrev update : (ℕ → ℕ) → k.Bus → ℕ → k.Bus
  update f b a = let (r, b1) = read_reg k b sysb a 1 in (write_reg k b1 sysb a (f r) 1).1

  update_hit :
      (f : ℕ → ℕ) (b : k.Bus) (a : ℕ)
      → c.reg (update f b a) a ≡ f (reg_value (k.junk b) (c.reg b a ∷ [])) % 256
  update_hit f b a =
      let e : (a == a) ≡ true = eq→== a a refl in rw (c.send_reg, e, c.receive_reg) refl

  update_miss : (f : ℕ → ℕ) (b : k.Bus) (a x : ℕ) → x ≢ a → c.reg (update f b a) x ≡ c.reg b x
  update_miss f b a x d =
      let e : (x == a) ≡ false = ne→== x a d in rw (c.send_reg, e, c.receive_keeps) refl

  -- The pin `pin` is an output that drives `on`; nothing else of the registers changes.
  pub record Drives (pin : ℕ) (on : Bool) (b b' : k.Bus) : Type 0 where
    pub level_set : BitSet pin (level on) (c.reg b gpo) (c.reg b' gpo)
    pub not_input : BitSet pin 0 (c.reg b gpd) (c.reg b' gpd)
    pub enabled : BitSet pin 1 (c.reg b gpoe) (c.reg b' gpoe)
    pub rest : (a : ℕ) → a ≢ gpo → a ≢ gpd → a ≢ gpoe → c.reg b' a ≡ c.reg b a

  abbrev set_to : Bool → ℕ → ℕ → ℕ
  set_to on pin r = if on then bit_or r (2 ^ pin % 256) else bit_and r (65535 - 2 ^ pin % 256)

  set_to-BitSet :
      (on : Bool) (pin x : ℕ) (junk : ℕ × ℕ)
      → pin < 8
      → BitSet pin (level on) x (set_to on pin (reg_value junk (x ∷ [])) % 256)
  set_to-BitSet true pin x junk h = raised pin h junk x
  set_to-BitSet false pin x junk h = lowered pin h junk x

  -- the three registers, one after the other
  driven :
      (on : Bool) (b : k.Bus) (pin : ℕ)
      → pin < 8
      → Drives pin on b (
          update
            (set_to on pin)
            (update (set_to true pin) (update (set_to false pin) b gpd) gpoe)
            gpo)
  driven on b pin h =
      let b1 = update (set_to false pin) b gpd in
      let b2 = update (set_to true pin) b1 gpoe in
      record {
        level_set =
            rw
              (
                update_hit (set_to on pin) b2 gpo,
                update_miss (set_to true pin) b1 gpoe gpo (omega arith),
                update_miss (set_to false pin) b gpd gpo (omega arith),
              )
              (set_to-BitSet on pin (c.reg b gpo) (k.junk b2) h);
        not_input =
            rw
              (
                update_miss (set_to on pin) b2 gpo gpd (omega arith),
                update_miss (set_to true pin) b1 gpoe gpd (omega arith),
                update_hit (set_to false pin) b gpd,
              )
              (set_to-BitSet false pin (c.reg b gpd) (k.junk b) h);
        enabled =
            rw
              (
                update_miss (set_to on pin) b2 gpo gpoe (omega arith),
                update_hit (set_to true pin) b1 gpoe,
                update_miss (set_to false pin) b gpd gpoe (omega arith),
              )
              (set_to-BitSet true pin (c.reg b gpoe) (k.junk b1) h);
        rest = λ a d1 d2 d3.
            update_miss (set_to on pin) b2 gpo a d1
            ∙ update_miss (set_to true pin) b1 gpoe a d3
            ∙ update_miss (set_to false pin) b gpd a d2;
      }

  -- If every control transfer on the system registers succeeds, rtlsdr_set_bias_tee_gpio() of a pin
  -- below 8 makes it an output at the level asked for, or high if it is pin 0 and the bias tee is
  -- forced. No other bit of the three registers and no other register changes.
  pub set_bias_tee_gpio-Drives :
      (force_bt : Bool) (b : k.Bus) (pin : ℕ) (on : Bool)
      → pin < 8
      → Drives pin (pin == 0 && force_bt || on) b (set_bias_tee_gpio k force_bt b pin on).1
  unfolding set_bias_tee_gpio
  set_bias_tee_gpio-Drives force_bt b pin on h = driven (pin == 0 && force_bt || on) b pin h
