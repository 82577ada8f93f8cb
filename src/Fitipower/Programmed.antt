-- ===== src/Fitipower/Programmed.antt =====
-- That fc0012_set_params() of rtl-sdr/src/tuner_fc0012.c and fc0013_set_params() of
-- rtl-sdr/src/tuner_fc0013.c leave their settings in the registers of the chip when they succeed.
use ebc_sdr_native.Prelude.{
  length, ℕ, ◌+◌, ◌<◌, ◌≡◌, ne→==, ◌⊎◌, inl, inr, refl, ◌∙◌, ap, arith, false, Bool-cases, Option,
  none, some, List, [], ◌∷◌, ◌==◌, if◌then◌else◌, bit_and, bit_or,
}
use ebc_sdr_native.Prelude.Int.{pos, is_neg}
use ebc_sdr_native.I2c.{I2c, IsChip, AllOrNothing, burn}
use ebc_sdr_native.R82xx.Regs.Overwrite.{burn-cong}
use ebc_sdr_native.Fitipower.{
  Cmd, and_then, writereg, readreg, write_regs, Settings, switch_vco, i2c_addr,
}
use ebc_sdr_native.Fitipower.Pll.{reg}

-- what holds of the value and of the bus if the call succeeds
abbrev pub Ends : {S A : Type 0} → (A → S → Type 0) → Option A × S → Type 0
Ends P (none, b) = Unit {0}
Ends P (some a, b) = P a b

pub bind-Ends :
    {S A B : Type 0} (P : A → S → Type 0) (Q : B → S → Type 0) (m : Option A × S) (k : A → Cmd S B)
    → Ends P m
    → ((a : A) (b : S) → P a b → Ends Q (k a b))
    → Ends Q (and_then m k)
bind-Ends P Q (none, b) k p next = tt
bind-Ends P Q (some a, b) k p next = next a b p

module _ {i : I2c} (c : IsChip i) (full : AllOrNothing i) where
  sent :
      (b : i.Bus) (addr r : ℕ) (bytes : List ℕ)
      → length (r ∷ bytes) < 256
      → is_neg (i.write b addr (r ∷ bytes)).0 ≡ false
      → (a : ℕ) → c.chip (i.write b addr (r ∷ bytes)).1 a ≡ burn (c.chip b) r bytes a
  sent b addr r bytes h e a = elim (full b addr (r ∷ bytes) h) [
    | inl neg ↦ cc
    | inr whole ↦ c.write_all b addr r bytes (whole ∙ ap pos (omega arith)) a
  ]

  -- the registers after values are written from `r` on
  abbrev pub Burned : i.Bus → ℕ → List ℕ → Unit {0} → i.Bus → Type 0
  Burned b r vals _ b' = (a : ℕ) → c.chip b' a ≡ burn (c.chip b) r vals a

  pub writereg-Ends : (r val : ℕ) (b : i.Bus) → Ends (Burned b r (val ∷ [])) (writereg i r val b)
  unfolding writereg
  writereg-Ends r val b = elim (Bool-cases (is_neg (i.write b i2c_addr (r ∷ val ∷ [])).0)) [
    | inl e ↦ rw (e, writereg) tt
    | inr e ↦ rw (e, writereg) (sent b i2c_addr r (val ∷ []) (omega arith) e)
  ]

  abbrev pub Unchanged : {A : Type 0} → i.Bus → A → i.Bus → Type 0
  Unchanged b _ b' = (a : ℕ) → c.chip b' a ≡ c.chip b a

  pub readreg-Ends : (r : ℕ) (b : i.Bus) → Ends (Unchanged b) (readreg i r b)
  unfolding readreg
  readreg-Ends r b =
      let b1 = (i.write b i2c_addr (r ∷ [])).1 in
      elim (Bool-cases (is_neg (i.write b i2c_addr (r ∷ [])).0)) [
        | inl e ↦ rw (e, readreg) tt
        | inr e ↦ elim (Bool-cases (is_neg (i.read b1 i2c_addr 1).0)) [
          | inl e2 ↦ rw (e, readreg, e2) tt
          | inr e2 ↦
              rw (e, readreg, e2)
                (λ a. c.read_keeps b1 i2c_addr 1 a ∙ sent b i2c_addr r [] (omega arith) e a)
        ]
      ]

  pub write_regs-Ends :
      (vals : List ℕ) (r : ℕ) (b : i.Bus) → Ends (Burned b r vals) (write_regs i r vals b)
  unfolding write_regs
  write_regs-Ends [] r b = λ a. refl
  write_regs-Ends (val ∷ rest) r b =
      bind-Ends (Burned b r (val ∷ [])) (Burned b r (val ∷ rest)) (writereg i r val b)
        (λ _. write_regs i (r + 1) rest) (writereg-Ends r val b)
        (λ _ b1 h. weaken b1 h (write_regs i (r + 1) rest b1) (write_regs-Ends rest (r + 1) b1))
    where
      weaken :
          (b1 : i.Bus)
          → Burned b r (val ∷ []) tt b1
          → (m : Option (Unit {0}) × i.Bus) → Ends (Burned b1 (r + 1) rest) m
          → Ends (Burned b r (val ∷ rest)) m
      weaken b1 h (none, b2) e = tt
      weaken b1 h (some _, b2) e = λ a.
          e a ∙ burn-cong (c.chip b1) (λ x. if x == r then val else c.chip b x) (r + 1) rest a h

pub map-Ends :
    {S A : Type 0} {P Q : A → S → Type 0} (m : Option A × S)
    → ((a : A) (b : S) → P a b → Q a b)
    → Ends P m
    → Ends Q m
map-Ends (none, b) f p = tt
map-Ends (some a, b) f p = f a b p

module _ {i : I2c} (c : IsChip i) (s : Settings) where
  -- the registers 1 to 5 of the chip
  pub record Holds (b : i.Bus) : Type 0 where
    pub one : c.chip b 1 ≡ reg s 1
    pub two : c.chip b 2 ≡ reg s 2
    pub three : c.chip b 3 ≡ reg s 3
    pub four : c.chip b 4 ≡ reg s 4
    pub five : c.chip b 5 ≡ reg s 5

  -- and register 6, where the calibration may have switched the range of the VCO
  pub record Programmed (b : i.Bus) : Type 0 where
    pub holds : Holds b
    pub six :
        (c.chip b 6 ≡ s.reg6)
        ⊎ ((c.chip b 6 ≡ bit_and s.reg6 0xf7) ⊎ (c.chip b 6 ≡ bit_or s.reg6 0x08))

  -- register 6 has the value `v`
  abbrev pub At : {A : Type 0} → ℕ → A → i.Bus → Type 0
  At v _ b = Holds b × (c.chip b 6 ≡ v)

module _ {i : I2c} (c : IsChip i) (full : AllOrNothing i) (s : Settings) where
  kept :
      (v r : ℕ) (b b' : i.Bus)
      → 6 < r
      → ((a : ℕ) → a < 7 → c.chip b' a ≡ c.chip b a)
      → At c s v tt b
      → At c s v tt b'
  kept v r b b' h same (holds, six) = (
    record {
      one = same 1 (omega arith) ∙ holds.one;
      two = same 2 (omega arith) ∙ holds.two;
      three = same 3 (omega arith) ∙ holds.three;
      four = same 4 (omega arith) ∙ holds.four;
      five = same 5 (omega arith) ∙ holds.five;
    },
    same 6 (omega arith) ∙ six,
  )

  other : (f : ℕ → ℕ) (r val a : ℕ) → 6 < r → a < 7 → burn f r (val ∷ []) a ≡ f a
  other f r val a h k = rw (ne→== a r (λ e. omega (arith, e))) refl

  pub writereg-At :
      (v r val : ℕ) (b : i.Bus) → 6 < r → At c s v tt b → Ends (At c s v) (writereg i r val b)
  writereg-At v r val b h at =
      map-Ends (writereg i r val b)
        (λ _ b' burned. kept v r b b' h (λ a k. burned a ∙ other (c.chip b) r val a h k) at)
        (writereg-Ends c full r val b)

  pub readreg-At : (v r : ℕ) (b : i.Bus) → At c s v tt b → Ends (At c s v) (readreg i r b)
  readreg-At v r b at =
      map-Ends (readreg i r b) (λ _ b' same. kept v 7 b b' (omega arith) (λ a k. same a) at)
        (readreg-Ends c full r b)

  -- two of the calls that keep the registers
  strobe :
      (v first second : ℕ) (b : i.Bus)
      → At c s v tt b
      → Ends (At c s v) (and_then (writereg i 0x0e first b) (λ _. writereg i 0x0e second))
  strobe v first second b at =
      bind-Ends (At c s v) (At c s v) (writereg i 0x0e first b) (λ _. writereg i 0x0e second)
        (writereg-At v 0x0e first b (omega arith) at)
        (λ _ b1 at1. writereg-At v 0x0e second b1 (omega arith) at1)

  pub switch_vco-At :
      (v new : ℕ) (b : i.Bus) → At c s v tt b → Ends (At c s new) (switch_vco i new b)
  unfolding switch_vco
  switch_vco-At v new b (holds, six) =
      bind-Ends (At c s new) (At c s new) (writereg i 0x06 new b) _
        (map-Ends (writereg i 0x06 new b)
          (λ _ b' burned. (
            record {
              one = burned 1 ∙ holds.one;
              two = burned 2 ∙ holds.two;
              three = burned 3 ∙ holds.three;
              four = burned 4 ∙ holds.four;
              five = burned 5 ∙ holds.five;
            },
            burned 6,
          ))
          (writereg-Ends c full 0x06 new b))
        (λ _ b1 at. strobe new 0x80 0x00 b1 at)
