-- ===== src/R82xx/Init/Setup.antt =====
-- r82xx_init() of rtl-sdr/src/tuner_r82xx.c: the chip is set up from whatever it and the shadow held.
use ebc_sdr_native.Prelude.{
  ℕ, zero, suc, ◌+◌, ◌≤◌, ◌<◌, ◌≡◌, refl, ◌∙◌, ap, arith, true, List, [], ◌∷◌, ◌==◌, if◌then◌else◌,
  length, get_or,
}
use ebc_sdr_native.Prelude.Int.{is_neg}
use ebc_sdr_native.I2c.{I2c, IsChip, burn}
use ebc_sdr_native.R82xx.{St, Run, ok, err, hang, and_then}
use ebc_sdr_native.R82xx.Tables.{r82xx_init_array}
use ebc_sdr_native.R82xx.Regs.{shadow_store, shadow_equal, write_loop}
use ebc_sdr_native.R82xx.Regs.Sync.{InSync, Settles, Any, Sends, write_loop-Sends}
use ebc_sdr_native.R82xx.Init.{reset_shadow, initial_write, ignore_error, configure, init}
use ebc_sdr_native.R82xx.Init.Start.{loaded-Settles}

-- the register file after one more byte
abbrev put : (ℕ → ℕ) → ℕ → ℕ → ℕ → ℕ
put f r y a = if a == r then y else f a

burn-below : (ys : List ℕ) (f : ℕ → ℕ) (r a : ℕ) → a < r → burn f r ys a ≡ f a
burn-below [] f r a h = refl
burn-below (y ∷ ys) f r a h = burn-below ys (put f r y) (r + 1) a (omega arith) ∙ ground arith

burn-at : (ys : List ℕ) (f : ℕ → ℕ) (r j : ℕ) → j < length ys → burn f r ys (r + j) ≡ get_or ys j 0
burn-at [] f r j h = absurd (omega arith)
burn-at (y ∷ ys) f r zero h = burn-below ys (put f r y) (r + 1) (r + 0) (omega arith) ∙ ground arith
burn-at (y ∷ ys) f r (suc j) h =
    let e : r + suc j ≡ r + 1 + j = omega arith in
    ap (burn (put f r y) (r + 1) ys) e ∙ burn-at ys (put f r y) (r + 1) j (omega arith)

-- the command succeeded
abbrev pub IsOk : {i : I2c} {A : Type 0} → Run i A → Type 0
IsOk (ok a s) = Unit {0}
IsOk (err r s) = ⊥
IsOk hang = ⊥

module _ {i : I2c} (c : IsChip i) where
  -- the first write leaves the initial values in the shadow and on the chip
  Loaded : Run i (Unit {0}) → Type 0
  Loaded (ok _ t) = InSync c t × (t.priv.regs ≡ r82xx_init_array)
  Loaded (err r t) = is_neg r ≡ true
  Loaded hang = ⊥

  Sends-Loaded :
      (s : St i) (m : Run i (Unit {0}))
      → 2 ≤ s.priv.cfg.max_i2c_msg_len
      → s.priv.regs ≡ r82xx_init_array
      → Sends c s 0x05 r82xx_init_array m
      → Loaded m
  unfolding Loaded
  Sends-Loaded s (ok _ t) room e (same, sent) = (
    record {
      sized = rw (same, e) refl;
      room = rw same room;
      same = λ j h. rw (same, e) (sent (5 + j) ∙ burn-at r82xx_init_array (c.chip s.bus) 5 j h);
    },
    rw same e,
  )
  Sends-Loaded s (err r t) room e neg = neg
  Sends-Loaded s hang room e never = never

  initial_write-Loaded : (s : St i) → 2 ≤ s.priv.cfg.max_i2c_msg_len → Loaded (initial_write s)
  unfolding initial_write shadow_equal shadow_store
  initial_write-Loaded s room =
      let t : St i = record {
        priv = record (reset_shadow s.priv) { regs = r82xx_init_array };
        bus = s.bus;
      } in
      Sends-Loaded t (write_loop 31 0x05 r82xx_init_array t) room refl
        (write_loop-Sends c 31 0x05 r82xx_init_array t room (omega arith))

  configured :
      (m : Run i (Unit {0}))
      → IsOk m
      → Loaded m
      → Settles c Any (and_then (ignore_error m) λ _. configure)
  unfolding ignore_error Loaded
  configured (ok _ t) h (sync, e) = loaded-Settles c t sync e
  configured (err r t) h e = absurd h
  configured hang h e = absurd h

  -- Whatever the chip and the shadow held before, r82xx_init() returns if its first write succeeds:
  -- with the shadow in sync with the chip, or with a negative code.
  pub init-Settles :
      (s : St i) → 2 ≤ s.priv.cfg.max_i2c_msg_len → IsOk (initial_write s) → Settles c Any (init s)
  unfolding init
  init-Settles s room h = configured (initial_write s) h (initial_write-Loaded s room)
