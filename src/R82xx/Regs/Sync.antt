-- ===== src/R82xx/Regs/Sync.antt =====
-- The shadow registers of rtl-sdr/src/tuner_r82xx.c against the register file of the chip: what a
-- command needs, what it leaves when it succeeds, and that it always returns.
use mathlib.Core.Path.{subst}
use ebc_sdr_native.Prelude.{
  ℕ, zero, suc, ◌+◌, ◌-◌, ◌≤◌, ◌<◌, ◌≡◌, refl, sym, ◌∙◌, ap, true, false, List, [], ◌∷◌, arith,
  Bool-cases, inl, inr, ge→ltb, length, get_or, take, drop, length-drop,
}
use ebc_sdr_native.Prelude.Int.{ℤ, pos, negsuc, is_neg, ◌==ℤ◌, eq_of_parts}
use ebc_sdr_native.I2c.{I2c, IsChip, burn}
use ebc_sdr_native.R82xx.{Priv, St, Run, ok, err, hang, Cmd, and_then}
use ebc_sdr_native.R82xx.Regs.Overwrite.{
  length-overwrite, burn-overwrite, overwrite-equal, burn-split, burn-cong,
}
use ebc_sdr_native.R82xx.Regs.{
  num_regs, overwrite, shadow_store, shadow_equal, fault_code, i2c_send, msg_size, is_empty,
  write_loop, write,
}

-- The shadow has its 30 bytes and is what the chip holds, and a message has room for a value.
pub record InSync {i : I2c} (c : IsChip i) (s : St i) : Type 0 where
  pub sized : length s.priv.regs ≡ num_regs
  pub room : 2 ≤ s.priv.cfg.max_i2c_msg_len
  pub same : (j : ℕ) → j < num_regs → c.chip s.bus (5 + j) ≡ get_or s.priv.regs j 0

-- The command returns: in sync and with a postcondition, or with a negative code.
abbrev pub Settles : {i : I2c} {A : Type 0} → IsChip i → (A → St i → Type 0) → Run i A → Type 0
Settles c P (ok a s) = InSync c s × P a s
Settles c P (err r s) = is_neg r ≡ true
Settles c P hang = ⊥

abbrev pub Any : {i : I2c} {A : Type 0} → A → St i → Type 0
Any a s = Unit {0}

module _ {i : I2c} (c : IsChip i) where
  -- what sending `val` from `reg` on does: all of it is on the chip, or the code is negative
  abbrev pub Sends : St i → ℕ → List ℕ → Run i (Unit {0}) → Type 0
  Sends s reg val (ok _ s') =
      (s'.priv ≡ s.priv) × ((a : ℕ) → c.chip s'.bus a ≡ burn (c.chip s.bus) reg val a)
  Sends s reg val (err r s') = is_neg r ≡ true
  Sends s reg val hang = ⊥

  pub fault_code_neg : (rc : ℤ) → is_neg (fault_code rc) ≡ true
  fault_code_neg (pos n) = refl
  fault_code_neg (negsuc n) = refl

  i2c_send-Sends : (s : St i) (reg : ℕ) (msg : List ℕ) → Sends s reg msg (i2c_send reg msg s)
  unfolding i2c_send
  i2c_send-Sends s reg msg =
      let rc = (i.write s.bus s.priv.cfg.i2c_addr (reg ∷ msg)).0 in
      elim (Bool-cases (rc ==ℤ pos (length msg + 1))) [
        | inl e ↦
            rw e
              (refl, c.write_all s.bus s.priv.cfg.i2c_addr reg msg (eq_of_parts _ _ (ground arith)))
        | inr e ↦ rw e (fault_code_neg rc)
      ]

  -- one message and the loop for the rest
  Sends-next :
      (s : St i) (reg n : ℕ) (rest : List ℕ) (m : Run i (Unit {0})) (k : Cmd i (Unit {0}))
      → n ≤ length rest
      → Sends s reg (take n rest) m
      → ((s' : St i) → s'.priv ≡ s.priv → Sends s' (reg + n) (drop n rest) (k s'))
      → Sends s reg rest (and_then m (λ _ s'. k s'))
  Sends-next s reg n rest (ok _ s1) k fits (same, sent) next = go (k s1) (next s1 same)
    where
      go : (m : Run i (Unit {0})) → Sends s1 (reg + n) (drop n rest) m → Sends s reg rest m
      go (ok _ s2) (same2, sent2) = (
        same2 ∙ same,
        λ a.
            sent2 a
            ∙ burn-cong (c.chip s1.bus) (burn (c.chip s.bus) reg (take n rest)) (reg + n)
                (drop n rest) a sent
            ∙ burn-split (c.chip s.bus) reg n rest a fits,
      )
      go (err r s2) neg = neg
      go hang e = e
  Sends-next s reg n rest (err r s1) k fits neg next = neg
  Sends-next s reg n rest hang k fits e next = e

  is_empty-nil : (xs : List ℕ) → is_empty xs ≡ true → xs ≡ []
  is_empty-nil [] e = refl
  is_empty-nil (x ∷ xs) e = cc

  drop-nonempty : (n : ℕ) (xs : List ℕ) → is_empty (drop n xs) ≡ false → n < length xs
  drop-nonempty zero [] e = cc
  drop-nonempty zero (x ∷ xs) e = omega arith
  drop-nonempty (suc n) [] e = cc
  drop-nonempty (suc n) (x ∷ xs) e = omega (arith, drop-nonempty n xs e)

  pub write_loop-Sends :
      (fuel reg : ℕ) (rest : List ℕ) (s : St i)
      → 2 ≤ s.priv.cfg.max_i2c_msg_len
      → length rest < fuel
      → Sends s reg rest (write_loop fuel reg rest s)
  unfolding write_loop
  write_loop-Sends zero reg rest s room h = absurd (omega arith)
  write_loop-Sends (suc fuel) reg rest s room h =
      let size : ℕ = msg_size (s.priv.cfg.max_i2c_msg_len - 1) rest in
      Sends-next s reg size rest (i2c_send reg (take size rest) s) _ (ground arith)
        (i2c_send-Sends s reg (take size rest))
        (λ s' same. elim (Bool-cases (is_empty (drop size rest))) [
          | inl e ↦ rw e (refl, λ a. rw (is_empty-nil (drop size rest) e))
          | inr e ↦
              let more : size < length rest = drop-nonempty size rest e in
              rw e (
                write_loop-Sends fuel (reg + size) (drop size rest) s' (rw same room)
                  (ground (arith, length-drop {0} size rest)))
        ])

  -- what a write of `val` from `reg` on leaves
  abbrev pub Wrote : Priv → ℕ → List ℕ → Unit {0} → St i → Type 0
  Wrote p reg val _ s = s.priv ≡ record p { regs = overwrite p.regs (reg - 5) val }

  stored-InSync :
      (s : St i) (reg : ℕ) (val : List ℕ) (b : i.Bus)
      → InSync c s
      → 5 ≤ reg
      → ((a : ℕ) → c.chip b a ≡ burn (c.chip s.bus) reg val a)
      → InSync c (record { priv = shadow_store s.priv reg val; bus = b })
  unfolding shadow_store
  stored-InSync s reg val b sync low sent = rw (ge→ltb reg 5 low) (record {
    sized = length-overwrite s.priv.regs (reg - 5) val ∙ sync.sized;
    room = sync.room;
    same = λ j h.
        sent (5 + j)
        ∙ burn-overwrite (c.chip s.bus) s.priv.regs reg (reg - 5) val (omega arith)
            (λ j' h'. sync.same j' (omega (arith, sync.sized))) j (omega (arith, sync.sized));
  })

  shadow_store-high :
      (p : Priv) (reg : ℕ) (val : List ℕ)
      → 5 ≤ reg
      → shadow_store p reg val ≡ record p { regs = overwrite p.regs (reg - 5) val }
  unfolding shadow_store
  shadow_store-high p reg val low = rw (ge→ltb reg 5 low)

  shadow_equal-overwrite :
      (p : Priv) (reg : ℕ) (val : List ℕ)
      → length p.regs ≡ num_regs
      → 5 ≤ reg
      → reg + length val ≤ 35
      → shadow_equal p reg val ≡ true
      → overwrite p.regs (reg - 5) val ≡ p.regs
  unfolding shadow_equal
  shadow_equal-overwrite p reg val sized low high e =
      overwrite-equal p.regs (reg - 5) val (omega arith)
        (rw (ge→ltb reg 5 low, ge→ltb 30 (reg - 5 + length val) (omega arith)) at e)

  Sends-Settles :
      (s : St i) (reg : ℕ) (val : List ℕ) (m : Run i (Unit {0}))
      → InSync c s
      → 5 ≤ reg
      → Sends (record { priv = shadow_store s.priv reg val; bus = s.bus }) reg val m
      → Settles c (Wrote s.priv reg val) m
  Sends-Settles s reg val (ok _ s') sync low (same, sent) = (
    subst (λ p. InSync c (record { priv = p; bus = s'.bus })) (sym same)
        (stored-InSync s reg val s'.bus sync low sent),
    same ∙ shadow_store-high s.priv reg val low,
  )
  Sends-Settles s reg val (err r s') sync low neg = neg
  Sends-Settles s reg val hang sync low e = e

  shadow_store-room : (p : Priv) (reg : ℕ) (val : List ℕ) → (shadow_store p reg val).cfg ≡ p.cfg
  unfolding shadow_store
  shadow_store-room p reg val = ground arith

  -- If shadow and chip are in sync before a write within the registers 0x05 to 0x22, then its values
  -- are in the shadow and on the chip when it succeeds, whether or not it went to the bus, shadow and
  -- chip are in sync again, and nothing else of the driver's state changes; when it fails its code is
  -- negative; and it always returns.
  pub write-Settles :
      (s : St i) (reg : ℕ) (val : List ℕ)
      → InSync c s
      → 5 ≤ reg
      → reg + length val ≤ 35
      → Settles c (Wrote s.priv reg val) (write reg val s)
  unfolding write
  write-Settles s reg val sync low high = elim (Bool-cases (shadow_equal s.priv reg val)) [
    | inl e ↦ rw e (
      sync,
      ap (λ t. record s.priv { regs = t })
          (sym (shadow_equal-overwrite s.priv reg val sync.sized low high e)),
    )
    | inr e ↦ rw e (
        Sends-Settles s reg val _ sync low (
          write_loop-Sends (length val + 1) reg val
            (record { priv = shadow_store s.priv reg val; bus = s.bus })
            (rw (shadow_store-room s.priv reg val) sync.room) (omega arith)))
  ]
