-- ===== src/Fc2580.antt =====
-- rtl-sdr/src/tuner_fc2580.c. A failed transfer is remembered in the result; the calls after it are
-- made all the same.

pub mod Calls
pub mod Exact
pub mod Makes
pub mod Programmed
mod Tests
use ebc_sdr_native.Prelude.{
  ℕ, zero, suc, ◌+◌, ◌-◌, ◌*◌, ◌/◌, ◌%◌, bit_and, bit_or, Bool, true, false, ◌&&◌, List, [], ◌∷◌,
  ◌++◌, ltb, leb, ◌==◌, if◌then◌else◌, get_or,
}
use ebc_sdr_native.Prelude.Int.{ℤ, pos, negsuc, is_neg}
use ebc_sdr_native.I2c.{I2c}

abbrev pub i2c_addr : ℕ
i2c_addr = 0xac

-- `true` is FC2580_FCI_SUCCESS
abbrev pub Cmd : Type 0 → Type 0
Cmd S = S → Bool × S

module _ {S : Type 0} where
  abbrev pub joined : Bool → Bool × S → Bool × S
  joined r (r', b) = (r && r', b)

  -- `result &= ` the next call
  abbrev pub also : Bool × S → Cmd S → Bool × S
  also (r, b) f = joined r (f b)

  abbrev pub nothing : Cmd S
  nothing b = (true, b)

-- the register and its value
abbrev pub Write : Type 0
Write = ℕ × ℕ

module _ (i : I2c) where
  unfoldable pub i2c_write : ℕ → ℕ → Cmd i.Bus
  i2c_write reg val b =
      let (r, b') = i.write b i2c_addr (reg ∷ val ∷ []) in
      elim (is_neg r) [ true ↦ (false, b') | false ↦ (true, b') ]

  -- the value read, or the old one after a failure
  unfoldable pub i2c_read : ℕ → ℕ → i.Bus → ℕ × Bool × i.Bus
  i2c_read reg old b =
      let (r, b1) = i.write b i2c_addr (reg ∷ []) in
      elim (is_neg r) [
        | true ↦ (old, false, b1)
        | false ↦
            let (r2, got, b2) = i.read b1 i2c_addr 1 in
            elim (is_neg r2) [ true ↦ (old, false, b2) | false ↦ (get_or got 0 reg, true, b2) ]
      ]

  unfoldable pub write_list : List Write → Cmd i.Bus
  unfolding i2c_write
  write_list [] b = (true, b)
  write_list ((reg, val) ∷ rest) b = also (i2c_write reg val b) (write_list rest)

-- the coefficient of the filter for a bandwidth
abbrev pub filter_regs : ℕ → ℕ → List Write
filter_regs filter_bw xtal =
    if filter_bw == 1
    then (0x36, 0x1c)
      ∷ (0x37, 4151 * xtal % 4294967296 / 1000000 % 256)
      ∷ (0x39, 0x00)
      ∷ (0x2e, 0x09)
      ∷ []
    else if filter_bw == 6
    then (0x36, 0x18)
      ∷ (0x37, 4400 * xtal % 4294967296 / 1000000 % 256)
      ∷ (0x39, 0x00)
      ∷ (0x2e, 0x09)
      ∷ []
    else if filter_bw == 7
    then (0x36, 0x18)
      ∷ (0x37, 3910 * xtal % 4294967296 / 1000000 % 256)
      ∷ (0x39, 0x80)
      ∷ (0x2e, 0x09)
      ∷ []
    else if filter_bw == 8
    then (0x36, 0x18)
      ∷ (0x37, 3300 * xtal % 4294967296 / 1000000 % 256)
      ∷ (0x39, 0x80)
      ∷ (0x2e, 0x09)
      ∷ []
    else []

-- fc2580_band_type
pub data Band : Type 0 where
  uhf l_band vhf : Band

unfoldable pub band_of : ℕ → Band
band_of f_lo = if ltb 1000000 f_lo then l_band else if ltb 400000 f_lo then uhf else vhf

abbrev pub multiplier : Band → ℕ
multiplier uhf = 4
multiplier l_band = 2
multiplier vhf = 12

unfoldable pub r_of : ℕ → ℕ → ℕ
r_of f_vco xtal =
    if leb (2 * 76 * xtal % 4294967296) f_vco
    then 1
    else if leb (76 * xtal % 4294967296) f_vco
    then 2
    else 4

-- k_val, with the difference shifted by 16 bits, and the divisor by 4
unfoldable pub k_of : ℕ → ℕ → ℕ → ℕ
k_of f_vco f_comp n =
    let shifted = (f_vco - 2 * f_comp * n) * 65536 % 4294967296 in
    let unit = 2 * f_comp / 16 in
    let k = shifted / unit in if leb (f_comp / 16) (shifted - k * unit) then k + 1 else k

-- the PLL
pub record Pll : Type 0 where
  pub f_vco : ℕ
  pub r : ℕ
  pub n : ℕ
  pub k : ℕ

unfoldable pub pll : ℕ → ℕ → Pll
unfolding band_of r_of k_of
pll f_lo xtal =
    let f_vco = f_lo * multiplier (band_of f_lo) % 4294967296 in
    let r = r_of f_vco xtal in
    let f_comp = xtal / r in
    let n = f_vco / 2 / f_comp in record { f_vco = f_vco; r = r; n = n; k = k_of f_vco f_comp n }

abbrev pub border_freq : ℕ
border_freq = 2600000

-- the band's bits of register 0x02
abbrev pub band_bits : Band → ℕ
band_bits uhf = 0x00
band_bits l_band = 0x40
band_bits vhf = 0x80

abbrev pub data_0x02 : Band → ℕ → ℕ
data_0x02 band f_vco =
    let speed = if leb border_freq f_vco then bit_or 0x0e 0x08 else bit_and 0x0e 0xf7 in
    bit_or (bit_and speed 0x3f) (band_bits band)

abbrev pub r_bits : ℕ → ℕ
r_bits r = if r == 1 then 0x00 else if r == 2 then 0x10 else 0x20

-- the registers of the PLL
abbrev pub pll_regs : Band → Pll → List Write
pll_regs band p =
    (0x02, data_0x02 band p.f_vco)
    ∷ (0x18, (r_bits p.r + p.k / 65536 % 256) % 256)
    ∷ (0x1a, p.k / 256 % 256)
    ∷ (0x1b, p.k % 256)
    ∷ (0x1c, p.n % 256)
    ∷ []

abbrev pub load_cap : Band → ℕ → List Write
load_cap uhf f_lo = (0x2d, if leb f_lo 794000 then 0x9f else 0x8f) ∷ []
load_cap _ f_lo = []
