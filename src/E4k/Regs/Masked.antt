-- ===== src/E4k/Regs/Masked.antt =====
-- e4k_reg_set_mask() and the fields of rtl-sdr/src/tuner_e4k.c against the registers of the chip.
use mathlib.Core.Path.{subst}
use ebc_sdr_native.Prelude.{
  ℕ, zero, suc, ◌-◌, ◌*◌, ◌/◌, ◌%◌, ◌^◌, ◌≤◌, ◌<◌, ◌≡◌, ◌≢◌, ◌⊎◌, inl, inr, refl, sym, ap, ◌∙◌,
  arith, bit_and, true, false, Bool-cases, all_below, all_below-holds, ==→eq, eq→==, ne→==, [], ◌∷◌,
  ◌==◌, if◌then◌else◌,
}
use ebc_sdr_native.Prelude.Bits.{
  test_bit, test_bit-bit_and, test_bit-bit_or, bit_or-bound, bit_and-bound,
}
use ebc_sdr_native.Prelude.Int.{ℤ, pos, negsuc, ◌==ℤ◌, ltb_ℤ, eq_of_parts, parts_of_eq}
use ebc_sdr_native.I2c.{I2c}
use ebc_sdr_native.E4k.Regs.{
  E4kState, RegField, merge, to_u8, field_mask, field_of, reg_write, reg_read, reg_set_mask,
  mask_step, field_step, field_write, field_read,
}

-- The registers of the chip. Selecting a register and reading it succeed; a write may fail, and what
-- it then stores is left open.
pub record IsE4k (i : I2c) : Type 0 where
  pub reg : i.Bus → ℕ → ℕ
  pub byte : (b : i.Bus) (r : ℕ) → reg b r < 256
  pub select_rc : (b : i.Bus) (a r : ℕ) → (i.write b a (r ∷ [])).0 ≡ pos 1
  pub read_rc : (b : i.Bus) (a r : ℕ) → (i.read (i.write b a (r ∷ [])).1 a 1).0 ≡ pos 1
  pub read_reg : (b : i.Bus) (a r : ℕ) → (i.read (i.write b a (r ∷ [])).1 a 1).1 ≡ reg b r ∷ []
  pub read_keeps : (b : i.Bus) (a r x : ℕ) → reg (i.read (i.write b a (r ∷ [])).1 a 1).2 x ≡ reg b x
  pub store :
      (b : i.Bus) (a r v : ℕ)
      → v < 256
      → (i.write b a (r ∷ v ∷ [])).0 ≡ pos 2
      → (x : ℕ) → reg (i.write b a (r ∷ v ∷ [])).1 x ≡ (if x == r then v else reg b x)

-- the byte that a masked write leaves
abbrev pub store_value : ℕ → ℕ → ℕ → ℕ
store_value old mask val = if bit_and old mask == val then old else merge old mask val

complement : (mask j : ℕ) → mask < 256 → j < 8 → test_bit (255 - mask) j ≡ 1 - test_bit mask j
complement mask j h g = ==→eq _ _ (
    all_below-holds 8 (λ j. test_bit (255 - mask) j == 1 - test_bit mask j) j
      (all_below-holds 256 (λ m. all_below 8 (λ j. test_bit (255 - m) j == 1 - test_bit m j)) mask
        refl h)
      g)

test_bit_le : (x j : ℕ) → test_bit x j ≤ 1
test_bit_le x zero = omega arith
test_bit_le x (suc j) = test_bit_le (x / 2) j

merge-byte : (tmp mask val : ℕ) → mask < 256 → merge tmp mask val < 256
merge-byte tmp mask val h =
    bit_or-bound 8 _ _ (bit_and-bound 8 tmp (255 - mask) (omega arith)) (bit_and-bound 8 val mask h)

-- bit by bit
test_bit-store_value :
    (old mask val j : ℕ)
    → mask < 256
    → j < 8
    → test_bit (store_value old mask val) j
      ≡ (if test_bit mask j == 1 then test_bit val j else test_bit old j)
test_bit-store_value old mask val j h g = elim (Bool-cases (bit_and old mask == val)) [
  | inl e ↦
      let v = ap (λ x. test_bit x j) (==→eq (bit_and old mask) val e) in
      rw e (ground (arith, v, test_bit-bit_and j old mask, test_bit_le mask j, test_bit_le old j))
  | inr e ↦ rw e (
      ground (
        arith,
        test_bit-bit_or j (bit_and old (255 - mask)) (bit_and val mask),
        test_bit-bit_and j old (255 - mask),
        test_bit-bit_and j val mask,
        complement mask j h g,
        test_bit_le mask j,
        test_bit_le old j,
        test_bit_le val j,
      ))
]

==ℤ→eq : (a b : ℤ) → (a ==ℤ b) ≡ true → a ≡ b
==ℤ→eq a b e = ground (arith, eq_of_parts a b)

module _ {i : I2c} (c : IsE4k i) where
  selected : (b : i.Bus) (a r : ℕ) → ltb_ℤ (i.write b a (r ∷ [])).0 (pos 1) ≡ false
  selected b a r = ap (λ z. ltb_ℤ z (pos 1)) (c.select_rc b a r)

  received : (b : i.Bus) (a r : ℕ) → ltb_ℤ (i.read (i.write b a (r ∷ [])).1 a 1).0 (pos 1) ≡ false
  received b a r = ap (λ z. ltb_ℤ z (pos 1)) (c.read_rc b a r)

  reg_read_value : (r : ℕ) (s : E4kState i) → (reg_read r s).0 ≡ pos (c.reg s.bus r)
  unfolding reg_read
  reg_read_value r s =
      rw (selected s.bus s.i2c_addr r, reg_read, received s.bus s.i2c_addr r, c.read_reg) refl

  pub reg_read_keeps :
      (r : ℕ) (s : E4kState i) (x : ℕ) → c.reg (reg_read r s).1.bus x ≡ c.reg s.bus x
  unfolding reg_read
  reg_read_keeps r s x =
      rw (selected s.bus s.i2c_addr r, reg_read) (c.read_keeps s.bus s.i2c_addr r x)

  -- what a write leaves if it reports success
  pub record Written (r v : ℕ) (s : E4kState i) (result : ℤ × E4kState i) : Type 0 where
    pub value : c.reg result.1.bus r ≡ v
    pub others : (x : ℕ) → x ≢ r → c.reg result.1.bus x ≡ c.reg s.bus x

  unfoldable pub Outcome : ℕ → ℕ → E4kState i → ℤ × E4kState i → Type 0
  Outcome r v s result = ((result.0 ≡ pos 0) × Written r v s result) ⊎ (result.0 ≡ negsuc 0)

  reg_write-Outcome : (r v : ℕ) (s : E4kState i) → v < 256 → Outcome r v s (reg_write r v s)
  unfolding reg_write Outcome
  reg_write-Outcome r v s byte =
      let rc = (i.write s.bus s.i2c_addr (r ∷ v ∷ [])).0 in
      elim (Bool-cases (rc ==ℤ pos 2)) [
        | inl e ↦
            let stored = c.store s.bus s.i2c_addr r v byte (==ℤ→eq rc (pos 2) e) in
            let here : (r == r) ≡ true = eq→== r r refl in
            inl (
              rw e refl,
              record {
                value = stored r ∙ rw here refl;
                others =
                    λ x d. let there : (x == r) ≡ false = ne→== x r d in stored x ∙ rw there refl;
              },
            )
        | inr e ↦ inr (rw e refl)
      ]

  -- from a state whose registers are those of `s`
  from_read :
      (r v : ℕ) (s s1 : E4kState i) (result : ℤ × E4kState i)
      → ((x : ℕ) → c.reg s1.bus x ≡ c.reg s.bus x)
      → Outcome r v s1 result
      → Outcome r v s result
  unfolding Outcome
  from_read r v s s1 result same (inl (e, w)) =
      inl (e, record { value = w.value; others = λ x d. w.others x d ∙ same x })
  from_read r v s s1 result same (inr e) = inr e

  mask_step-Outcome :
      (r mask val : ℕ) (s : E4kState i)
      → mask < 256
      → Outcome r (store_value (c.reg s.bus r) mask val) s (mask_step r mask val (c.reg s.bus r) s)
  unfolding mask_step Outcome
  mask_step-Outcome r mask val s h = elim (Bool-cases (bit_and (c.reg s.bus r) mask == val)) [
    | inl e ↦ rw (e, mask_step) (inl (refl, record { value = refl; others = λ x d. refl }))
    | inr e ↦
        rw (e, mask_step)
          (reg_write-Outcome r (merge (c.reg s.bus r) mask val) s (merge-byte _ mask val h))
  ]

  to_u8_byte : (b : i.Bus) (r : ℕ) → to_u8 (pos (c.reg b r)) ≡ c.reg b r
  to_u8_byte b r = omega (arith, c.byte b r)

  -- e4k_reg_set_mask() reports success with the byte stored and the other registers as they were, or
  -- a failed write.
  pub reg_set_mask-Outcome :
      (r mask val : ℕ) (s : E4kState i)
      → mask < 256
      → Outcome r (store_value (c.reg s.bus r) mask val) s (reg_set_mask r mask val s)
  unfolding reg_set_mask
  reg_set_mask-Outcome r mask val s h =
      let s1 = (reg_read r s).1 in
      let same = reg_read_keeps r s r in
      let e : to_u8 (reg_read r s).0 ≡ c.reg s1.bus r =
        ap to_u8 (reg_read_value r s) ∙ to_u8_byte s.bus r ∙ sym same in
      from_read r _ s s1 _ (reg_read_keeps r s) (
        subst
          (λ old.
            Outcome r (store_value old mask val) s1
              (mask_step r mask val (to_u8 (reg_read r s).0) s1))
          same
          (subst
            (λ tmp.
              Outcome r (store_value (c.reg s1.bus r) mask val) s1 (mask_step r mask val tmp s1))
            (sym e) (mask_step-Outcome r mask val s1 h)))

  field_step-Outcome :
      (f : RegField) (val old : ℕ) (tmp : ℤ) (s : E4kState i)
      → tmp ≡ pos old
      → Outcome f.reg
          (store_value (c.reg s.bus f.reg) (field_mask f) (val * 2 ^ f.shift % 256))
          s
          (field_step f val (tmp, s))
  unfolding field_step
  field_step-Outcome f val old (negsuc n) s e = absurd (ground (arith, parts_of_eq _ _ e))
  field_step-Outcome f val old (pos n) s e =
      reg_set_mask-Outcome f.reg (field_mask f) _ s (omega arith)

  -- e4k_field_write() does that to the bits of the field.
  pub field_write-Outcome :
      (f : RegField) (val : ℕ) (s : E4kState i)
      → Outcome f.reg
          (store_value (c.reg s.bus f.reg) (field_mask f) (val * 2 ^ f.shift % 256))
          s
          (field_write f val s)
  unfolding field_write
  field_write-Outcome f val s =
      let s1 = (reg_read f.reg s).1 in
      from_read f.reg _ s s1 _ (reg_read_keeps f.reg s) (
        subst
          (λ old.
            Outcome f.reg (store_value old (field_mask f) (val * 2 ^ f.shift % 256)) s1
              (field_step f val (reg_read f.reg s)))
          (reg_read_keeps f.reg s f.reg)
          (field_step-Outcome f val _ (reg_read f.reg s).0 s1 (reg_read_value f.reg s)))

  pub field_read_value :
      (f : RegField) (s : E4kState i) → (field_read f s).0 ≡ field_of f (pos (c.reg s.bus f.reg))
  unfolding field_read
  field_read_value f s = ap (field_of f) (reg_read_value f.reg s)

  -- The bits under the mask are those of `val`, the others are kept, and so are the other registers.
  pub record Masked (r mask val : ℕ) (b b' : i.Bus) : Type 0 where
    pub bits :
        (j : ℕ)
        → j < 8
        → test_bit (c.reg b' r) j
          ≡ (if test_bit mask j == 1 then test_bit val j else test_bit (c.reg b r) j)
    pub others : (x : ℕ) → x ≢ r → c.reg b' x ≡ c.reg b x

  -- On a chip on which every selection and read of a register succeeds, while writes may fail:
  -- whether or not it writes, e4k_reg_set_mask() returns 0 with the bits under the mask set to those
  -- of the value and nothing else changed, or -1.
  pub reg_set_mask-Masked :
      (r mask val : ℕ) (s : E4kState i)
      → mask < 256
      → (((reg_set_mask r mask val s).0 ≡ pos 0)
          × Masked r mask val s.bus (reg_set_mask r mask val s).1.bus)
        ⊎ ((reg_set_mask r mask val s).0 ≡ negsuc 0)
  unfolding Outcome
  reg_set_mask-Masked r mask val s h = elim (reg_set_mask-Outcome r mask val s h) [
    | inl (e, w) ↦ inl (
      e,
      record {
        bits = λ j g.
            ap (λ x. test_bit x j) w.value ∙ test_bit-store_value (c.reg s.bus r) mask val j h g;
        others = w.others;
      },
    )
    | inr e ↦ inr e
  ]
