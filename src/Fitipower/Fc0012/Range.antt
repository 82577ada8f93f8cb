-- ===== src/Fitipower/Fc0012/Range.antt =====
-- Which frequencies fc0012_set_params() of rtl-sdr/src/tuner_fc0012.c takes, and what it makes of them.
use ebc_sdr_native.Prelude.{
  ℕ, ◌*◌, ◌≤◌, ◌<◌, ◌≡◌, arith, Bool, true, false, inl, inr, ◌⊎◌, bit_and, bit_or,
}
use ebc_sdr_native.Fitipower.{Divider, speed_reg}
use ebc_sdr_native.Fitipower.Fc0012.{divider}

-- what the divider of a frequency is
pub record Divides (freq : ℕ) (d : Divider) : Type 0 where
  pub low : 1288800000 ≤ freq * d.multi
  pub high : freq * d.multi < 3794400000

pub divider-Divides : (freq : ℕ) → 13425000 ≤ freq → freq < 948600000 → Divides freq (divider freq)
unfolding divider
divider-Divides freq h k = record { low = ground arith; high = ground arith }

-- register 6 as it is written first, or with the bit of the VCO's range changed
abbrev pub Switched : ℕ → ℕ → Type 0
Switched reg6 v = (v ≡ reg6) ⊎ ((v ≡ bit_and reg6 0xf7) ⊎ (v ≡ bit_or reg6 0x08))

-- the bit of register 6 that the divider sets
pub divider-six :
    (freq bandwidth v : ℕ) (high : Bool)
    → Switched (speed_reg (divider freq) high bandwidth) v
    → bit_and v 0x02 ≡ (divider freq).reg6
unfolding divider
divider-six freq bandwidth v true (inl e) = rw e (ground arith)
divider-six freq bandwidth v true (inr (inl e)) = rw e (ground arith)
divider-six freq bandwidth v true (inr (inr e)) = rw e (ground arith)
divider-six freq bandwidth v false (inl e) = rw e (ground arith)
divider-six freq bandwidth v false (inr (inl e)) = rw e (ground arith)
divider-six freq bandwidth v false (inr (inr e)) = rw e (ground arith)
