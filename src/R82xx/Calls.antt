-- ===== src/R82xx/Calls.antt =====
-- The calls of rtl-sdr/src/tuner_r82xx.c that a tuned device makes, each on a whole state.
use ebc_sdr_native.Prelude.{ℕ, Bool}
use ebc_sdr_native.Prelude.Int.{ℤ}
use ebc_sdr_native.I2c.{I2c, IsChip}
use ebc_sdr_native.R82xx.{St}
use ebc_sdr_native.R82xx.Regs.Sync.{InSync, Settles, Any}
use ebc_sdr_native.R82xx.Bandwidth.{set_bandwidth, set_bandwidth-Sound}
use ebc_sdr_native.R82xx.Freq.{set_freq, set_freq-Sound}
use ebc_sdr_native.R82xx.Gain.{set_gain, set_gain-Sound}
use ebc_sdr_native.R82xx.Init.{standby}
use ebc_sdr_native.R82xx.Init.Start.{standby-Sound}

module _ {i : I2c} (c : IsChip i) where
  -- From every state in sync r82xx_set_freq() returns, for every frequency and whichever model of the
  -- dongle it tunes: with success and the shadow in sync with the chip, or with a negative code.
  pub set_freq-Settles : (freq : ℕ) (s : St i) → InSync c s → Settles c Any (set_freq freq s)
  set_freq-Settles freq = (set_freq-Sound c freq).settles

  -- From every state in sync r82xx_set_gain() returns, in both modes and for every gain: with success
  -- and the shadow in sync with the chip, or with a negative code.
  pub set_gain-Settles :
      (manual : Bool) (gain : ℤ) (s : St i) → InSync c s → Settles c Any (set_gain manual gain s)
  set_gain-Settles manual gain = (set_gain-Sound c manual gain).settles

  -- From every state in sync r82xx_set_bandwidth() returns, for every bandwidth: with success and the
  -- shadow in sync with the chip, or with a negative code.
  pub set_bandwidth-Settles : (bw : ℤ) (s : St i) → InSync c s → Settles c Any (set_bandwidth bw s)
  set_bandwidth-Settles bw = (set_bandwidth-Sound c bw).settles

  -- From every state in sync r82xx_standby() returns: with success and the shadow in sync with the
  -- chip, or with a negative code.
  pub standby-Settles : (s : St i) → InSync c s → Settles c Any (standby s)
  standby-Settles = (standby-Sound c).settles
