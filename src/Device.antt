-- ===== src/Device.antt =====
-- The device of rtl-sdr/src/librtlsdr.c as its control functions see it: struct rtlsdr_dev, the
-- interface of the tuners, and what the functions share. The tuner behind the interface and the
-- correction of a crystal's frequency, which is arithmetic on doubles, are parameters.
pub mod Clock
pub mod Held
pub mod Open
pub mod Probe
pub mod R820t
pub mod Search
pub mod Settings
mod Tests
pub mod Tune
pub mod Tuners
use ebc_sdr_native.Prelude.{
  ℕ, zero, suc, ◌+◌, ◌-◌, ◌*◌, ◌/◌, ◌%◌, bit_and, bit_or, Bool, true, false, not, ◌&&◌, Option,
  none, some, List, ltb, ◌==◌, if◌then◌else◌,
}
use ebc_sdr_native.Prelude.Int.{ℤ, pos, negsuc, ◌==ℤ◌, ltb_ℤ, ◌||ℤ◌}
use ebc_sdr_native.Registers
use ebc_sdr_native.R82xx.{RtlDev}

-- enum rtlsdr_tuner
pub data TunerKind : Type 0 where
  unknown e4000 fc0012 fc0013 fc2580 r820t r828d : TunerKind

-- What a call on the tuner does to the tuner's own state and to the bus.
abbrev pub Op : Registers.Control → Type 0 → Type 0
Op k Chip = Chip → k.Bus → ℤ × Chip × k.Bus

-- set_bw of the interface: `retunes` is that of r820t_set_bw(), which takes the bandwidth and the
-- sample rate to an intermediate frequency and then tunes the device again
pub data SetBw (k : Registers.Control) (Chip : Type 0) : Type 0 where
  plain : (ℤ → Op k Chip) → SetBw k Chip
  retunes : (ℤ → ℕ → Op k Chip) → SetBw k Chip

-- struct rtlsdr_tuner_iface: a null pointer is `none`. `load_clock` stores a frequency into
-- e4k_s.vco.fosc and r82xx_c.xtal.
pub record Tuner (k : Registers.Control) : Type 1 where
  pub Chip : Type 0
  pub load_clock : ℕ → Chip → Chip
  pub init : Option (ℕ → Op k Chip)
  pub exit : Option (Op k Chip)
  pub set_freq : Option (ℕ → Op k Chip)
  pub set_bw : Option (SetBw k Chip)
  pub set_gain : Option (ℤ → Op k Chip)
  pub set_if_gain : Option (ℤ → ℤ → Op k Chip)
  pub set_gain_mode : Option (ℤ → Op k Chip)

-- struct rtlsdr_dev without its streaming fields; `chip` is the state of the tuner
pub record Radio (k : Registers.Control) (t : Tuner k) : Type 0 where
  pub bus : k.Bus
  pub chip : t.Chip
  pub rate : ℕ
  pub rtl_xtal : ℕ
  pub direct_sampling : ℤ
  pub tuner_type : TunerKind
  pub tun_xtal : ℕ
  pub freq : ℕ
  pub bw : ℕ
  pub offs_freq : ℕ
  pub corr : ℤ
  pub gain : ℤ
  pub strings : RtlDev
  pub direct_sampling_mode : ℤ

abbrev pub is_zero : ℤ → Bool
is_zero r = r ==ℤ pos 0

abbrev pub is_rafael : TunerKind → Bool
is_rafael r820t = true
is_rafael r828d = true
is_rafael _ = false

abbrev pub is_r820t : TunerKind → Bool
is_r820t r820t = true
is_r820t _ = false

module _ {k : Registers.Control} {t : Tuner k} where
  abbrev pub demod : Radio k t → ℕ → ℕ → ℕ → ℕ → ℤ × Radio k t
  demod s page addr val len =
      let (r, b) = Registers.demod_write_reg k s.bus page addr val len in (r, record s { bus = b })

  -- an operation of the interface between rtlsdr_set_i2c_repeater(dev, 1) and (dev, 0)
  unfoldable pub repeated : Op k t.Chip → Radio k t → ℤ × Radio k t
  unfolding Registers.set_i2c_repeater
  repeated op s =
      let (r, chip, b) = op s.chip (Registers.set_i2c_repeater k s.bus true) in
      (r, record s { chip = chip; bus = Registers.set_i2c_repeater k b false })

  -- the call if the operation is there, else the code `r`
  unfoldable pub if_present : ℤ → Option (Op k t.Chip) → Radio k t → ℤ × Radio k t
  unfolding repeated
  if_present r none s = (r, s)
  if_present r (some op) s = repeated op s

  -- `r |= ` the result of the second call
  abbrev pub or_then : ℤ × Radio k t → (Radio k t → ℤ × Radio k t) → ℤ × Radio k t
  or_then (r, s) f = let (r', s') = f s in (r ||ℤ r', s')
