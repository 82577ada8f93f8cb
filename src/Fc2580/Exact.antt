-- ===== src/Fc2580/Exact.antt =====
-- The PLL of rtl-sdr/src/tuner_fc2580.c with its crystal of 16.384 MHz.
use ebc_sdr_native.Prelude.{ℕ, ◌+◌, ◌*◌, ◌/◌, ◌<◌, ◌≡◌, ◌⊎◌, arith}
use ebc_sdr_native.Fc2580.{r_of, k_of, Pll}

-- n and k make the frequency of the VCO in kHz, exactly, and fit their registers.
pub record Exact (f_vco : ℕ) (p : Pll) : Type 0 where
  pub divided : (p.r ≡ 1) ⊎ ((p.r ≡ 2) ⊎ (p.r ≡ 4))
  pub exact : 32768 * (p.n * 1048576 + p.k) ≡ f_vco * 1048576 * p.r
  pub n_bound : p.n < 256
  pub k_bound : p.k < 1048576

-- for the quotient of the crystal
pub made-Exact :
    (f : ℕ)
    → f < 8388608
    → let r = r_of f 16384 in
      let n = f / 2 / (16384 / r) in
      Exact f (record { f_vco = f; r = r; n = n; k = k_of f (16384 / r) n })
unfolding r_of k_of
made-Exact f h = record {
  divided = ground arith;
  exact = ground arith;
  n_bound = ground arith;
  k_bound = ground arith;
}
