-- ===== src/Fitipower/Pll.antt =====
-- The PLL of rtl-sdr/src/tuner_fc0012.c and rtl-sdr/src/tuner_fc0013.c with a crystal of 28.8 MHz: what
-- the registers stand for, and how near that is to what is asked for.
use ebc_sdr_native.Prelude.{
  ℕ, ◌+◌, ◌-◌, ◌*◌, ◌/◌, ◌%◌, ◌≤◌, ◌<◌, ◌≡◌, refl, [], ◌∷◌, bit_or, arith, true, some, leb,
  if◌then◌else◌, get_or,
}
use ebc_sdr_native.Fitipower.{
  Divider, vco_freq, xdiv_of, Cycles, cycles, is_valid, xin_of, Settings, make, settings, is_high,
  speed_reg,
}

-- the divided value and the fraction, which is a signed number of 16 bits, in parts of half the crystal's
-- frequency by 2^15
abbrev pub parts : ℕ → ℕ → ℕ
parts xdiv xin = if leb 32768 xin then 32768 * xdiv + xin - 65536 else 32768 * xdiv + xin

-- parts of 14.4 MHz / 2^15 make a frequency less than 1440 Hz below `f_vco`, or that itself
pub record Near (f_vco units : ℕ) : Type 0 where
  pub below : units * 14400000 ≤ 32768 * f_vco
  pub close : 32768 * f_vco < units * 14400000 + 32768 * 1440

pub xdiv-Near : (f : ℕ) → f < 4294967296 → Near f (parts (xdiv_of f 14400000) (xin_of f 14400000))
unfolding xdiv_of xin_of
xdiv-Near f h = record { below = ground arith; close = ground arith }

-- the divided value is within the range of the two counters
pub xdiv_bounds :
    (f : ℕ)
    → 1288800000 ≤ f
    → f < 3794400000
    → (90 ≤ xdiv_of f 14400000) × (xdiv_of f 14400000 ≤ 263)
unfolding xdiv_of
xdiv_bounds f h k = ground arith

pub record Counts (xdiv : ℕ) (c : Cycles) : Type 0 where
  pub sum : c.reg1 + 8 * c.reg2 ≡ xdiv
  pub low : 2 ≤ c.reg1
  pub high : c.reg1 ≤ 15
  pub few : 11 ≤ c.reg2
  pub many : c.reg2 ≤ 31

pub cycles-Counts : (xdiv : ℕ) → 90 ≤ xdiv → xdiv ≤ 263 → Counts xdiv (cycles xdiv)
unfolding cycles
cycles-Counts xdiv h k = record {
  sum = ground arith;
  low = ground arith;
  high = ground arith;
  few = ground arith;
  many = ground arith;
}

pub cycles-valid : (xdiv : ℕ) → 90 ≤ xdiv → xdiv ≤ 263 → is_valid (cycles xdiv) ≡ true
unfolding cycles
cycles-valid xdiv h k = ground arith

pub xin_bytes : (f : ℕ) → xin_of f 14400000 / 256 < 256
unfolding xin_of
xin_bytes f = ground arith

abbrev pub reg : Settings → ℕ → ℕ
reg s n = get_or s.regs (n - 1) 0

-- The registers 1 to 4 make this frequency of the VCO, and its range is chosen by it.
pub record Tuned (f_vco : ℕ) (s : Settings) : Type 0 where
  pub few : 11 ≤ reg s 2
  pub many : reg s 2 ≤ 31
  pub low : 2 ≤ reg s 1
  pub high : reg s 1 ≤ 15
  pub near : Near f_vco (parts (reg s 1 + 8 * reg s 2) (reg s 3 * 256 + reg s 4))
  pub range : s.vco_select ≡ leb 3060000000 f_vco

-- what is made of a divider
abbrev pub made : Divider → ℕ → ℕ → Settings
made d freq bandwidth =
    let f_vco = vco_freq freq d.multi in
    let c = cycles (xdiv_of f_vco 14400000) in
    let xin = xin_of f_vco 14400000 in
    record {
      regs =
          c.reg1
          ∷ c.reg2
          ∷ (xin / 256)
          ∷ (xin % 256)
          ∷ bit_or d.reg5 0x07
          ∷ speed_reg d (is_high f_vco) bandwidth
          ∷ [];
      reg6 = speed_reg d (is_high f_vco) bandwidth;
      vco_select = is_high f_vco;
    }

module _ (d : Divider) (freq bandwidth : ℕ) (low : 1288800000 ≤ freq * d.multi)
    (high : freq * d.multi < 3794400000) where
  vco_lem : vco_freq freq d.multi ≡ freq * d.multi
  vco_lem = omega arith

  counts : Counts (xdiv_of (freq * d.multi) 14400000) (cycles (xdiv_of (freq * d.multi) 14400000))
  counts =
      let (a, b) = xdiv_bounds (freq * d.multi) low high in
      cycles-Counts (xdiv_of (freq * d.multi) 14400000) a b

  valid : is_valid (cycles (xdiv_of (vco_freq freq d.multi) 14400000)) ≡ true
  valid =
      let (a, b) = xdiv_bounds (freq * d.multi) low high in
      rw vco_lem (cycles-valid (xdiv_of (freq * d.multi) 14400000) a b)

  pub settings-made : settings d freq 28800000 bandwidth ≡ some (made d freq bandwidth)
  unfolding settings make
  settings-made = rw (valid, settings) refl

  pub made-Tuned : Tuned (freq * d.multi) (made d freq bandwidth)
  made-Tuned =
      let f = freq * d.multi in
      let n = counts in
      let near = xdiv-Near f (omega arith) in
      let whole : xin_of f 14400000 / 256 * 256 + xin_of f 14400000 % 256 ≡ xin_of f 14400000 =
        omega arith in
      rw vco_lem (record {
        few = n.few;
        many = n.many;
        low = n.low;
        high = n.high;
        near = rw (n.sum, whole) near;
        range = refl;
      })
