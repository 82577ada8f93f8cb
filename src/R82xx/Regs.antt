-- ===== src/R82xx/Regs.antt =====
-- The "I2C read/write code and shadow registers logic" of rtl-sdr/src/tuner_r82xx.c. A write goes to
-- the bus only if the shadow differs, and in messages of at most max_i2c_msg_len bytes.
pub mod Overwrite
pub mod Sound
pub mod Sync
use ebc_sdr_native.Prelude.{
  ℕ, zero, suc, ◌+◌, ◌-◌, ◌*◌, ◌/◌, ◌%◌, bit_and, bit_or, Bool, true, false, ◌&&◌, List, [], ◌∷◌,
  ltb, ◌==◌, if◌then◌else◌, length, get_or, take, drop,
}
use ebc_sdr_native.Prelude.Int.{ℤ, pos, negsuc, is_neg, ◌==ℤ◌}
use ebc_sdr_native.I2c.{I2c}
use ebc_sdr_native.R82xx.{Priv, St, Run, ok, err, hang, Cmd, and_then}
use mathlib.Core.List.{map}

abbrev pub reg_shadow_start : ℕ
reg_shadow_start = 5

abbrev pub num_regs : ℕ
num_regs = 30

-- memcpy of `ys` over `xs` from index `r` on, clipped to the end of `xs`
abbrev pub overwrite : List ℕ → ℕ → List ℕ → List ℕ
overwrite [] r ys = []
overwrite (x ∷ xs) zero [] = x ∷ xs
overwrite (x ∷ xs) zero (y ∷ ys) = y ∷ overwrite xs zero ys
overwrite (x ∷ xs) (suc r) ys = x ∷ overwrite xs r ys

-- memcmp(xs, ys, length) == 0
abbrev pub bytes_eq : List ℕ → List ℕ → Bool
bytes_eq [] [] = true
bytes_eq [] (y ∷ ys) = false
bytes_eq (x ∷ xs) [] = false
bytes_eq (x ∷ xs) (y ∷ ys) = x == y && bytes_eq xs ys

-- A register below the shadow loses its leading values. (Past register 0x23 the C code computes a
-- negative length; every call writes at most register 0x22.)
unfoldable pub shadow_store : Priv → ℕ → List ℕ → Priv
shadow_store p reg val =
    if ltb reg reg_shadow_start
    then record p { regs = overwrite p.regs 0 (drop (reg_shadow_start - reg) val) }
    else record p { regs = overwrite p.regs (reg - reg_shadow_start) val }

unfoldable pub shadow_equal : Priv → ℕ → List ℕ → Bool
shadow_equal p reg val =
    if ltb reg reg_shadow_start
    then false
    else if ltb num_regs (reg - reg_shadow_start + length val)
    then false
    else bytes_eq (take (length val) (drop (reg - reg_shadow_start) p.regs)) val

-- the failure code of a transfer that returned `rc` instead of the full length
abbrev pub fault_code : ℤ → ℤ
fault_code rc = if is_neg rc then rc else negsuc 0

abbrev pub msg_size : ℕ → List ℕ → ℕ
msg_size room rest = if ltb room (length rest) then room else length rest

abbrev pub is_empty : List ℕ → Bool
is_empty [] = true
is_empty (_ ∷ _) = false

-- r82xx_read_cache_reg returns -1 for any other register
abbrev pub is_cached : ℕ → Bool
is_cached reg = if ltb reg reg_shadow_start then false else ltb (reg - reg_shadow_start) num_regs

-- (reg & ~mask) | (val & mask) on bytes
unfoldable pub mask_reg8 : ℕ → ℕ → ℕ → ℕ
mask_reg8 reg val mask = bit_or (bit_and reg (255 - mask)) (bit_and val mask)

module _ {i : I2c} where
  abbrev pub gets : {A : Type 0} → (Priv → A) → Cmd i A
  gets f s = ok (f s.priv) s

  abbrev pub modify : (Priv → Priv) → Cmd i (Unit {0})
  modify f s = ok tt (record s { priv = f s.priv })

  -- rtlsdr_i2c_write_fn, which must report `reg` and all bytes of `msg`
  unfoldable pub i2c_send : ℕ → List ℕ → Cmd i (Unit {0})
  i2c_send reg msg s =
      let (rc, b) = i.write s.bus s.priv.cfg.i2c_addr (reg ∷ msg) in
      let s' : St i = record s { bus = b } in
      if rc ==ℤ pos (length msg + 1) then ok tt s' else err (fault_code rc) s'

  -- the do-while loop; each message carries at most max_i2c_msg_len - 1 values
  unfoldable pub write_loop : ℕ → ℕ → List ℕ → Cmd i (Unit {0})
  unfolding i2c_send
  write_loop zero reg rest s = hang
  write_loop (suc fuel) reg rest s =
      let size = msg_size (s.priv.cfg.max_i2c_msg_len - 1) rest in
      and_then (i2c_send reg (take size rest) s) (λ _ s'. elim (is_empty (drop size rest)) [
        | true ↦ ok tt s'
        | false ↦ write_loop fuel (reg + size) (drop size rest) s'
      ])

  -- r82xx_write
  unfoldable pub write : ℕ → List ℕ → Cmd i (Unit {0})
  unfolding shadow_equal shadow_store write_loop
  write reg val s =
      if shadow_equal s.priv reg val
      then ok tt s
      else write_loop (length val + 1) reg val (record s { priv = shadow_store s.priv reg val })

  unfoldable pub write_reg : ℕ → ℕ → Cmd i (Unit {0})
  unfolding write
  write_reg reg val = write reg (val ∷ [])

  -- r82xx_write_reg_mask
  unfoldable pub write_reg_mask : ℕ → ℕ → ℕ → Cmd i (Unit {0})
  unfolding write mask_reg8
  write_reg_mask reg val mask s =
      if is_cached reg
      then write reg (mask_reg8 (get_or s.priv.regs (reg - reg_shadow_start) 0) val mask ∷ []) s
      else err (negsuc 0) s

abbrev lut : List ℕ
lut =
    0x0 ∷ 0x8 ∷ 0x4 ∷ 0xc ∷ 0x2 ∷ 0xa ∷ 0x6 ∷ 0xe ∷ 0x1 ∷ 0x9 ∷ 0x5 ∷ 0xd ∷ 0x3 ∷ 0xb ∷ 0x7 ∷ 0xf
    ∷ []

-- r82xx_bitrev
unfoldable pub bitrev : ℕ → ℕ
bitrev byte = bit_or (get_or lut (bit_and byte 0xf) 0 * 16 % 256) (get_or lut (byte / 16) 0)

module _ {i : I2c} where
  -- r82xx_read
  unfoldable pub read : ℕ → ℕ → Cmd i (List ℕ)
  unfolding bitrev
  read reg len s =
      let (rc, b) = i.write s.bus s.priv.cfg.i2c_addr (reg ∷ []) in
      let s1 : St i = record s { bus = b } in
      if rc ==ℤ pos 1
      then (let (rc2, p, b2) = i.read b s.priv.cfg.i2c_addr len in
          let s2 : St i = record s { bus = b2 } in
          if rc2 ==ℤ pos len then ok (map bitrev p) s2 else err (fault_code rc2) s2)
      else err (fault_code rc) s1
