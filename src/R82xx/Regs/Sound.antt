-- ===== src/R82xx/Regs/Sound.antt =====
-- Commands of rtl-sdr/src/tuner_r82xx.c that keep the shadow in sync with the chip, and how they are
-- put together.
use ebc_sdr_native.Prelude.{
  ℕ, ◌+◌, ◌-◌, ◌≤◌, ◌≡◌, ◌∙◌, Bool, true, false, List, [], ◌∷◌, arith, Bool-cases, inl, inr,
  if◌then◌else◌, get_or, length,
}
use ebc_sdr_native.Prelude.Int.{ℤ, pos, is_neg, ◌==ℤ◌, eq_of_parts}
use ebc_sdr_native.I2c.{I2c, IsChip}
use ebc_sdr_native.R82xx.{Priv, St, Run, ok, err, hang, Cmd, and_then, ◌>>=◌, ◌>>◌}
use ebc_sdr_native.R82xx.Regs.{
  write, write_reg, is_cached, mask_reg8, write_reg_mask, read, gets, modify,
}
use ebc_sdr_native.R82xx.Regs.Sync.{InSync, Settles, Any, Wrote, write-Settles, fault_code_neg}

-- From a state in sync the command returns: with success and in sync again, or with a negative code.
pub record Sound {i : I2c} {A : Type 0} (c : IsChip i) (m : Cmd i A) : Type 0 where
  pub settles : (s : St i) → InSync c s → Settles c Any (m s)

-- the registers of a command are constants, so that their range holds by `refl`
abbrev pub Writable : ℕ → Type 0
Writable reg = is_cached reg ≡ true

pub weaken :
    {i : I2c} {A : Type 0} (c : IsChip i) (P : A → St i → Type 0) (r : Run i A)
    → Settles c P r
    → Settles c Any r
weaken c P (ok a s) (sync, p) = (sync, tt)
weaken c P (err r s) e = e
weaken c P hang e = e

module _ {i : I2c} {c : IsChip i} where
  module _ {A : Type 0} where
    pub pure-Sound : (a : A) → Sound c (ok a)
    pure-Sound a = record { settles = λ s sync. (sync, tt) }

    pub gets-Sound : (f : Priv → A) → Sound {A = A} c (gets f)
    gets-Sound f = record { settles = λ s sync. (sync, tt) }

    -- a `return` of a negative code
    pub err-Sound : (r : ℤ) → is_neg r ≡ true → Sound {A = A} c (err r)
    err-Sound r e = record { settles = λ s sync. e }

    pub if-Sound : {m n : Cmd i A} (b : Bool) → Sound c m → Sound c n → Sound c (if b then m else n)
    if-Sound true p q = p
    if-Sound false p q = q

  module _ {A B : Type 0} where
    and_then-Settles :
        (r : Run i A) (k : A → Cmd i B)
        → Settles c Any r
        → ((a : A) → Sound c (k a))
        → Settles c Any (and_then r k)
    and_then-Settles (ok a s) k (sync, _) next = (next a).settles s sync
    and_then-Settles (err r s) k e next = e
    and_then-Settles hang k e next = e

    pub bind :
        {m : Cmd i A} {k : A → Cmd i B} → Sound c m → ((a : A) → Sound c (k a)) → Sound c (m >>= k)
    bind {m} {k} p next = record {
      settles = λ s sync. and_then-Settles (m s) k (p.settles s sync) next;
    }

  infixr 4 ◌⨟◌
  pub ◌⨟◌ : {A B : Type 0} {m : Cmd i A} {n : Cmd i B} → Sound c m → Sound c n → Sound c (m >> n)
  p ⨟ q = bind p (λ a. q)

  -- a change of fields other than the shadow and the configuration
  pub modify-Sound :
      (f : Priv → Priv)
      → ((p : Priv) → (f p).regs ≡ p.regs)
      → ((p : Priv) → (f p).cfg ≡ p.cfg)
      → Sound c (modify f)
  modify-Sound f regs cfg = record {
    settles = λ s sync. (
      record {
        sized = rw (regs s.priv) sync.sized;
        room = rw (cfg s.priv) sync.room;
        same = λ j h. rw (regs s.priv) (sync.same j h);
      },
      tt,
    );
  }

  pub write-Sound :
      (reg : ℕ) (val : List ℕ) → 5 ≤ reg → reg + length val ≤ 35 → Sound c (write reg val)
  write-Sound reg val low high = record {
    settles = λ s sync.
        weaken c (Wrote c s.priv reg val) (write reg val s)
          (write-Settles c s reg val sync low high);
  }

  pub write_reg-Sound : (reg val : ℕ) → Writable reg → Sound c (write_reg reg val)
  unfolding write_reg
  write_reg-Sound reg val w = record {
    settles = λ s sync.
        weaken c (Wrote c s.priv reg (val ∷ [])) (write reg (val ∷ []) s)
          (write-Settles c s reg (val ∷ []) sync (ground arith) (ground arith));
  }

  pub write_reg_mask-Sound :
      (reg val mask : ℕ) → Writable reg → Sound c (write_reg_mask reg val mask)
  unfolding write_reg_mask
  write_reg_mask-Sound reg val mask w = record {
    settles = λ s sync.
        let v = mask_reg8 (get_or s.priv.regs (reg - 5) 0) val mask in
        rw w (
          weaken c (Wrote c s.priv reg (v ∷ [])) (write reg (v ∷ []) s)
            (write-Settles c s reg (v ∷ []) sync (ground arith) (ground arith)));
  }

  read-Settles : (reg len : ℕ) (s : St i) → InSync c s → Settles c Any (read reg len s)
  unfolding read
  read-Settles reg len s sync =
      let addr : ℕ = s.priv.cfg.i2c_addr in
      let (rc, b) = i.write s.bus addr (reg ∷ []) in
      let rc2 : ℤ = (i.read b addr len).0 in
      elim (Bool-cases (rc ==ℤ pos 1)) [
        | inr e ↦ rw e (fault_code_neg c rc)
        | inl e ↦ rw e (elim (Bool-cases (rc2 ==ℤ pos len)) [
          | inr e2 ↦ rw e2 (fault_code_neg c rc2)
          | inl e2 ↦ rw e2 (
            record {
              sized = sync.sized;
              room = sync.room;
              same = λ j h.
                  c.read_keeps b addr len (5 + j)
                  ∙ c.write_all s.bus addr reg [] (eq_of_parts _ _ (ground arith)) (5 + j)
                  ∙ sync.same j h;
            },
            tt,
          )
        ])
      ]

  pub read-Sound : (reg len : ℕ) → Sound c (read reg len)
  read-Sound reg len = record { settles = read-Settles reg len }
