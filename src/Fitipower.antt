-- ===== src/Fitipower.antt =====
-- What rtl-sdr/src/tuner_fc0012.c and rtl-sdr/src/tuner_fc0013.c have in common: the access to the
-- registers, the settings of the PLL, and the calibration of the VCO.
pub mod Calibrated
pub mod Fc0012
pub mod Fc0013
pub mod Pll
pub mod Programmed
mod Tests
use ebc_sdr_native.Prelude.{
  ℕ, suc, ◌+◌, ◌-◌, ◌*◌, ◌/◌, ◌%◌, bit_and, bit_or, Bool, true, false, not, ◌||◌, Option, none,
  some, List, [], ◌∷◌, ltb, leb, ◌==◌, if◌then◌else◌, get_or,
}
use ebc_sdr_native.Prelude.Int.{ℤ, pos, negsuc, is_neg}
use ebc_sdr_native.I2c.{I2c}

-- FC0012_I2C_ADDR and FC0013_I2C_ADDR
abbrev pub i2c_addr : ℕ
i2c_addr = 0xc6

-- A call that may fail; `none` is a return of -1, the only code of a failure.
abbrev pub Cmd : Type 0 → Type 0 → Type 0
Cmd S A = S → Option A × S

module _ {S : Type 0} where
  abbrev pub pure : {A : Type 0} → A → Cmd S A
  pure a b = (some a, b)

  abbrev pub fail : {A : Type 0} → Cmd S A
  fail b = (none, b)

  -- `if (ret) goto exit;` between two calls
  abbrev pub and_then : {A B : Type 0} → Option A × S → (A → Cmd S B) → Option B × S
  and_then (none, b) k = (none, b)
  and_then (some a, b) k = k a b

  infixl 5 ◌>>=◌ ◌>>◌
  abbrev pub ◌>>=◌ : {A B : Type 0} → Cmd S A → (A → Cmd S B) → Cmd S B
  m >>= k = λ b. and_then (m b) k

  abbrev pub ◌>>◌ : {A B : Type 0} → Cmd S A → Cmd S B → Cmd S B
  m >> n = m >>= λ _. n

module _ (i : I2c) where
  -- only a negative code of the write is a failure
  unfoldable pub writereg : ℕ → ℕ → Cmd i.Bus (Unit {0})
  writereg reg val b =
      let (r, b') = i.write b i2c_addr (reg ∷ val ∷ []) in
      elim (is_neg r) [ true ↦ (none, b') | false ↦ (some tt, b') ]

  -- `data` holds the register's number until a byte is received
  unfoldable pub readreg : ℕ → Cmd i.Bus ℕ
  readreg reg b =
      let (r, b1) = i.write b i2c_addr (reg ∷ []) in
      elim (is_neg r) [
        | true ↦ (none, b1)
        | false ↦
            let (r2, got, b2) = i.read b1 i2c_addr 1 in
            elim (is_neg r2) [ true ↦ (none, b2) | false ↦ (some (get_or got 0 reg), b2) ]
      ]

  -- the values from a register on, up to the first failure
  unfoldable pub write_regs : ℕ → List ℕ → Cmd i.Bus (Unit {0})
  unfolding writereg
  write_regs reg [] = pure tt
  write_regs reg (val ∷ rest) = writereg reg val >>= λ _. write_regs (reg + 1) rest

-- multi, reg[5] and reg[6] as a frequency chooses them
pub record Divider : Type 0 where
  pub multi : ℕ
  pub reg5 : ℕ
  pub reg6 : ℕ

-- The product is one of 32 bits.
abbrev pub vco_freq : ℕ → ℕ → ℕ
vco_freq freq multi = freq * multi % 4294967296

abbrev pub is_high : ℕ → Bool
is_high f_vco = leb 3060000000 f_vco

-- xdiv, where `half` is xtal_freq_div_2
unfoldable pub xdiv_of : ℕ → ℕ → ℕ
xdiv_of f_vco half =
    let q = f_vco / half % 65536 in if leb (half / 2) (f_vco - q * half) then (q + 1) % 65536 else q

-- reg[1] and reg[2]
pub record Cycles : Type 0 where
  pub reg1 : ℕ
  pub reg2 : ℕ

abbrev pub at_most_31 : ℕ → ℕ → Cycles
at_most_31 am pm =
    if ltb 31 pm
    then record { reg1 = (am + 8 * (pm - 31)) % 256; reg2 = 31 }
    else record { reg1 = am; reg2 = pm }

unfoldable pub cycles : ℕ → Cycles
cycles xdiv =
    let pm = xdiv / 8 % 256 in
    let am = (xdiv - 8 * pm) % 256 in
    if ltb am 2 then at_most_31 (am + 8) ((pm + 255) % 256) else at_most_31 am pm

abbrev pub is_valid : Cycles → Bool
is_valid c = not (ltb 15 c.reg1 || ltb c.reg2 0x0b)

-- xin before and after it is made negative
abbrev pub fraction : ℕ → ℕ → ℕ
fraction f_vco half = (f_vco - f_vco / half * half) / 1000 % 65536 * 32768 / (half / 1000) % 65536

unfoldable pub xin_of : ℕ → ℕ → ℕ
xin_of f_vco half =
    let xin = fraction f_vco half in if leb 16384 xin then (xin + 32768) % 65536 else xin

abbrev pub bandwidth_bits : ℕ → ℕ
bandwidth_bits bandwidth =
    if bandwidth == 6000000 then 0x80 else if bandwidth == 7000000 then 0x40 else 0

-- reg[6] as it is first written
abbrev pub speed_reg : Divider → Bool → ℕ → ℕ
speed_reg d high bandwidth =
    let reg6 = if high then bit_or d.reg6 0x08 else d.reg6 in
    bit_or (bit_and (bit_or reg6 0x20) 0x3f) (bandwidth_bits bandwidth)

-- reg[1] to reg[6], and vco_select
pub record Settings : Type 0 where
  pub regs : List ℕ
  pub reg6 : ℕ
  pub vco_select : Bool

-- the settings for a divider
unfoldable pub make : Divider → (freq clock bandwidth : ℕ) → Settings
unfolding xdiv_of cycles xin_of
make d freq clock bandwidth =
    let f_vco = vco_freq freq d.multi in
    let c = cycles (xdiv_of f_vco (clock / 2)) in
    let xin = xin_of f_vco (clock / 2) in
    let reg6 = speed_reg d (is_high f_vco) bandwidth in
    record {
      regs = c.reg1 ∷ c.reg2 ∷ (xin / 256) ∷ (xin % 256) ∷ bit_or d.reg5 0x07 ∷ reg6 ∷ [];
      reg6 = reg6;
      vco_select = is_high f_vco;
    }

-- `none` where there is no valid combination
unfoldable pub settings : Divider → (freq clock bandwidth : ℕ) → Option Settings
unfolding xdiv_of cycles make
settings d freq clock bandwidth =
    if is_valid (cycles (xdiv_of (vco_freq freq d.multi) (clock / 2)))
    then some (make d freq clock bandwidth)
    else none

abbrev pub or_fail : {S A : Type 0} → Option A → Cmd S A
or_fail none = fail
or_fail (some a) = pure a

module _ (i : I2c) where
  -- the other range of the VCO
  unfoldable pub switch_vco : ℕ → Cmd i.Bus (Unit {0})
  unfolding writereg
  switch_vco reg6 = do writereg i 0x06 reg6; writereg i 0x0e 0x80; writereg i 0x0e 0x00

  -- by vco_select, and the control voltage `tmp`
  unfoldable pub choose_vco : Bool → ℕ → ℕ → Cmd i.Bus (Unit {0})
  unfolding switch_vco
  choose_vco true reg6 tmp = if ltb 0x3c tmp then switch_vco (bit_and reg6 0xf7) else pure tt
  choose_vco false reg6 tmp = if ltb tmp 0x02 then switch_vco (bit_or reg6 0x08) else pure tt

  unfoldable pub calibrate : Settings → Cmd i.Bus (Unit {0})
  unfolding writereg readreg choose_vco
  calibrate s = do
    writereg i 0x0e 0x80
    writereg i 0x0e 0x00
    writereg i 0x0e 0x00
    tmp ← readreg i 0x0e
    choose_vco s.vco_select s.reg6 (bit_and tmp 0x3f)

-- the code of a call
abbrev pub code_of : {A B : Type 0} → Option A × B → ℤ × B
code_of (none, b) = (negsuc 0, b)
code_of (some _, b) = (pos 0, b)
