-- ===== src/Fc2580/Programmed.antt =====
-- What a list of writes of rtl-sdr/src/tuner_fc2580.c leaves in the registers of the tuner, if all of
-- them succeed.
use ebc_sdr_native.Prelude.{
  ℕ, ◌≡◌, inl, inr, refl, ◌∙◌, ap, arith, Bool, true, false, Bool-cases, List, [], ◌∷◌, ◌==◌,
  if◌then◌else◌,
}
use ebc_sdr_native.Prelude.Int.{pos, is_neg}
use ebc_sdr_native.I2c.{I2c, IsChip, AllOrNothing}
use ebc_sdr_native.Fc2580.{Cmd, also, Write, i2c_addr, i2c_write, write_list}

-- what holds of the bus if all the calls have succeeded
abbrev pub Ends : {S : Type 0} → (S → Type 0) → Bool × S → Type 0
Ends P (true, b) = P b
Ends P (false, b) = Unit {0}

pub also-Ends :
    {S : Type 0} (P Q : S → Type 0) (m : Bool × S) (f : Cmd S)
    → Ends P m
    → ((b : S) → P b → Ends Q (f b))
    → Ends Q (also m f)
also-Ends P Q (true, b) f p next = next b p
also-Ends P Q (false, b) f p next = tt

pub any-Ends : {S : Type 0} (m : Bool × S) → Ends (λ _. Unit {0}) m
any-Ends (true, b) = tt
any-Ends (false, b) = tt

pub map-Ends :
    {S : Type 0} (P Q : S → Type 0) (m : Bool × S) → ((b : S) → P b → Q b) → Ends P m → Ends Q m
map-Ends P Q (true, b) f p = f b p
map-Ends P Q (false, b) f p = tt

-- the register file after the writes
abbrev pub stored : (ℕ → ℕ) → List Write → ℕ → ℕ
stored f [] = f
stored f ((reg, val) ∷ rest) = stored (λ a. if a == reg then val else f a) rest

stored-cong :
    (f g : ℕ → ℕ) (ws : List Write) (a : ℕ) → ((x : ℕ) → f x ≡ g x) → stored f ws a ≡ stored g ws a
stored-cong f g [] a h = h a
stored-cong f g ((reg, val) ∷ rest) a h =
    stored-cong (λ x. if x == reg then val else f x) (λ x. if x == reg then val else g x) rest a
      (λ x. ground (arith, h x))

module _ {i : I2c} (c : IsChip i) (full : AllOrNothing i) where
  abbrev pub Stored : i.Bus → List Write → i.Bus → Type 0
  Stored b ws b' = (a : ℕ) → c.chip b' a ≡ stored (c.chip b) ws a

  i2c_write-Ends :
      (reg val : ℕ) (b : i.Bus) → Ends (Stored b ((reg, val) ∷ [])) (i2c_write i reg val b)
  unfolding i2c_write
  i2c_write-Ends reg val b = elim (Bool-cases (is_neg (i.write b i2c_addr (reg ∷ val ∷ [])).0)) [
    | inl e ↦ rw (e, i2c_write) tt
    | inr e ↦
        rw (e, i2c_write)
          (λ a. elim (full b i2c_addr (reg ∷ val ∷ []) (omega arith)) [
            | inl neg ↦ cc
            | inr whole ↦ c.write_all b i2c_addr reg (val ∷ []) (whole ∙ ap pos (omega arith)) a
          ])
  ]

  pub write_list-Ends : (ws : List Write) (b : i.Bus) → Ends (Stored b ws) (write_list i ws b)
  unfolding write_list
  write_list-Ends [] b = λ a. refl
  write_list-Ends ((reg, val) ∷ rest) b =
      also-Ends (Stored b ((reg, val) ∷ [])) (Stored b ((reg, val) ∷ rest)) (i2c_write i reg val b)
        (write_list i rest) (i2c_write-Ends reg val b)
        (λ b1 h.
          map-Ends (Stored b1 rest) (Stored b ((reg, val) ∷ rest)) (write_list i rest b1)
            (λ b2 e a.
              e a ∙ stored-cong (c.chip b1) (λ x. if x == reg then val else c.chip b x) rest a h)
            (write_list-Ends rest b1))
