-- ===== src/Fc2580/Makes.antt =====
-- The registers of the tuner as fc2580_set_freq() of rtl-sdr/src/tuner_fc2580.c leaves them.
use ebc_sdr_native.Prelude.{ℕ, ◌+◌, ◌*◌, ◌/◌, ◌%◌, ◌<◌, ◌≡◌, ◌⊎◌, ◌∙◌, arith, ◌==◌, if◌then◌else◌}
use ebc_sdr_native.I2c.{I2c, IsChip, AllOrNothing}
use ebc_sdr_native.Fc2580.{
  also, write_list, Band, uhf, l_band, vhf, multiplier, band_of, Pll, pll, r_bits, data_0x02,
  pll_regs, load_cap,
}
use ebc_sdr_native.Fc2580.Calls.{set_band, set_freq}
use ebc_sdr_native.Fc2580.Exact.{Exact, made-Exact}
use ebc_sdr_native.Fc2580.Programmed.{Ends, also-Ends, any-Ends, map-Ends, Stored, write_list-Ends}

-- the values of the registers
abbrev pub k_in : (ℕ → ℕ) → ℕ
k_in f = f 0x18 % 16 * 65536 + f 0x1a * 256 + f 0x1b

abbrev pub r_in : (ℕ → ℕ) → ℕ
r_in f = if f 0x18 / 16 == 0 then 1 else if f 0x18 / 16 == 1 then 2 else 4

abbrev pub multiplier_in : (ℕ → ℕ) → ℕ
multiplier_in f = if f 0x02 / 64 == 0 then 4 else if f 0x02 / 64 == 1 then 2 else 12

-- The registers make `f_lo`, in kHz: the VCO runs at that frequency times the multiplier of the band,
-- and it is twice the crystal's frequency divided by R, times N + K / 2^20.
abbrev pub Makes : ℕ → (ℕ → ℕ) → Type 0
Makes f_lo f = 32768 * (f 0x1c * 1048576 + k_in f) ≡ f_lo * multiplier_in f * 1048576 * r_in f

k_kept :
    (r k : ℕ)
    → (r ≡ 1) ⊎ ((r ≡ 2) ⊎ (r ≡ 4))
    → k < 1048576
    → ((r_bits r + k / 65536 % 256) % 256 % 16 * 65536 + k / 256 % 256 * 256 + k % 256 ≡ k)
k_kept r k d h = ground arith

r_kept :
    (r k : ℕ)
    → (r ≡ 1) ⊎ ((r ≡ 2) ⊎ (r ≡ 4))
    → k < 1048576
    → (if (r_bits r + k / 65536 % 256) % 256 / 16 == 0
        then 1
        else if (r_bits r + k / 65536 % 256) % 256 / 16 == 1
        then 2
        else 4)
      ≡ r
r_kept r k d h = ground arith

multiplier_kept :
    (band : Band) (f_vco : ℕ)
    → (if data_0x02 band f_vco / 64 == 0
        then 4
        else if data_0x02 band f_vco / 64 == 1
        then 2
        else 12)
      ≡ multiplier band
multiplier_kept uhf f_vco = ground arith
multiplier_kept l_band f_vco = ground arith
multiplier_kept vhf f_vco = ground arith

-- the five registers of the PLL
record Regs (band : Band) (p : Pll) (f : ℕ → ℕ) : Type 0 where
  band_reg : f 0x02 ≡ data_0x02 band p.f_vco
  r_and_k : f 0x18 ≡ (r_bits p.r + p.k / 65536 % 256) % 256
  k_middle : f 0x1a ≡ p.k / 256 % 256
  k_low : f 0x1b ≡ p.k % 256
  n_reg : f 0x1c ≡ p.n % 256

Regs-Makes :
    (band : Band) (p : Pll) (f_lo : ℕ) (f : ℕ → ℕ)
    → Regs band p f
    → Exact (f_lo * multiplier band) p
    → Makes f_lo f
Regs-Makes band p f_lo f h e =
    let n : p.n % 256 ≡ p.n = omega (arith, e.n_bound) in
    rw
      (
        h.band_reg,
        h.r_and_k,
        h.k_middle,
        h.k_low,
        h.n_reg,
        n,
        k_kept p.r p.k e.divided e.k_bound,
        r_kept p.r p.k e.divided e.k_bound,
        multiplier_kept band p.f_vco,
      )
      e.exact

pll-Exact : (f_lo : ℕ) → f_lo < 4194304 → Exact (f_lo * multiplier (band_of f_lo)) (pll f_lo 16384)
unfolding pll band_of
pll-Exact f_lo h =
    let small : f_lo * multiplier (band_of f_lo) < 8388608 = ground arith in
    let same : f_lo * multiplier (band_of f_lo) % 4294967296 ≡ f_lo * multiplier (band_of f_lo) =
      omega (arith, small) in
    rw same (made-Exact (f_lo * multiplier (band_of f_lo)) small)

module _ {i : I2c} (c : IsChip i) (full : AllOrNothing i) where
  Regs-written :
      (band : Band) (p : Pll) (b b' : i.Bus)
      → Stored c full b (pll_regs band p) b'
      → Regs band p (c.chip b')
  Regs-written kind p b b' h = record {
    band_reg = h 0x02;
    r_and_k = h 0x18;
    k_middle = h 0x1a;
    k_low = h 0x1b;
    n_reg = h 0x1c;
  }

  cap_kept :
      (band : Band) (p : Pll) (f_lo : ℕ) (b b' : i.Bus)
      → Regs band p (c.chip b)
      → Stored c full b (load_cap band f_lo) b'
      → Regs band p (c.chip b')
  cap_kept uhf p f_lo b b' r h = record {
    band_reg = h 0x02 ∙ r.band_reg;
    r_and_k = h 0x18 ∙ r.r_and_k;
    k_middle = h 0x1a ∙ r.k_middle;
    k_low = h 0x1b ∙ r.k_low;
    n_reg = h 0x1c ∙ r.n_reg;
  }
  cap_kept l_band p f_lo b b' r h = record {
    band_reg = h 0x02 ∙ r.band_reg;
    r_and_k = h 0x18 ∙ r.r_and_k;
    k_middle = h 0x1a ∙ r.k_middle;
    k_low = h 0x1b ∙ r.k_low;
    n_reg = h 0x1c ∙ r.n_reg;
  }
  cap_kept vhf p f_lo b b' r h = record {
    band_reg = h 0x02 ∙ r.band_reg;
    r_and_k = h 0x18 ∙ r.r_and_k;
    k_middle = h 0x1a ∙ r.k_middle;
    k_low = h 0x1b ∙ r.k_low;
    n_reg = h 0x1c ∙ r.n_reg;
  }

  -- With its crystal of 16.384 MHz: when fc2580_set_freq() succeeds for a frequency below 4194304 kHz,
  -- the registers of the chip make exactly that frequency.
  pub set_freq-Makes :
      (f_lo : ℕ) (b : i.Bus)
      → f_lo < 4194304
      → Ends (λ b'. Makes f_lo (c.chip b')) (set_freq i f_lo 16384 b)
  unfolding set_freq
  set_freq-Makes f_lo b h =
      let band = band_of f_lo in
      let p = pll f_lo 16384 in
      also-Ends (λ b'. Regs band p (c.chip b')) (λ b'. Makes f_lo (c.chip b'))
        (also (set_band i band f_lo 16384 b) (write_list i (pll_regs band p)))
        (write_list i (load_cap band f_lo))
        (also-Ends (λ _. Unit {0}) (λ b'. Regs band p (c.chip b')) (set_band i band f_lo 16384 b)
          (write_list i (pll_regs band p)) (any-Ends (set_band i band f_lo 16384 b))
          (λ b1 _.
            map-Ends (Stored c full b1 (pll_regs band p)) (λ b'. Regs band p (c.chip b'))
              (write_list i (pll_regs band p) b1) (λ b2 written. Regs-written band p b1 b2 written)
              (write_list-Ends c full (pll_regs band p) b1)))
        (λ b1 regs.
          map-Ends (Stored c full b1 (load_cap band f_lo)) (λ b'. Makes f_lo (c.chip b'))
            (write_list i (load_cap band f_lo) b1)
            (λ b2 written.
              Regs-Makes band p f_lo (c.chip b2) (cap_kept band p f_lo b1 b2 regs written)
                (pll-Exact f_lo h))
            (write_list-Ends c full (load_cap band f_lo) b1))
