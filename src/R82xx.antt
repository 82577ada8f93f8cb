-- ===== src/R82xx.antt =====
-- rtl-sdr/src/tuner_r82xx.c: the driver's state, its commands, and the access to the tuner's
-- registers through their shadow.
pub mod Bandwidth
pub mod Calls
pub mod Freq
pub mod Gain
pub mod Init
pub mod Model
pub mod Mux
pub mod Pll
pub mod Regs
pub mod Tables
mod Tests
pub mod Xtal
use ebc_sdr_native.Prelude.{ℕ, Bool, List}
use ebc_sdr_native.Prelude.Int.{ℤ}
use ebc_sdr_native.I2c.{I2c}

pub data Chip : Type 0 where
  r820t r828d : Chip

pub data XtalCap : Type 0 where
  low_cap_30p low_cap_20p low_cap_10p low_cap_0p high_cap_0p : XtalCap

-- `unset` is the -1 that r82xx_standby() stores
pub data TunerType : Type 0 where
  radio analog_tv digital_tv unset : TunerType

pub data DeliverySystem : Type 0 where
  undefined dvbt dvbt2 isdbt : DeliverySystem

-- struct r82xx_config
pub record Config : Type 0 where
  pub i2c_addr : ℕ
  pub xtal : ℕ
  pub rafael_chip : Chip
  pub max_i2c_msg_len : ℕ
  pub use_predetect : Bool

-- the strings of struct rtlsdr_dev that rtlsdr_check_dongle_model() compares, without their NUL
pub record RtlDev : Type 0 where
  pub manufact : List ℕ
  pub product : List ℕ

-- struct r82xx_priv, without its transfer buffer
pub record Priv : Type 0 where
  pub cfg : Config
  pub regs : List ℕ
  pub xtal_cap_sel : XtalCap
  pub int_freq : ℕ
  pub fil_cal_code : ℕ
  pub input : ℕ
  pub has_lock : Bool
  pub init_done : Bool
  pub delsys : DeliverySystem
  pub tuner_type : TunerType
  pub bw : ℕ
  pub rtl_dev : RtlDev

pub record St (i : I2c) : Type 0 where
  pub priv : Priv
  pub bus : i.Bus

-- `err` is a return with a negative code, `hang` a loop that makes no progress
pub data Run (i : I2c) (A : Type 0) : Type 0 where
  ok : A → St i → Run i A
  err : ℤ → St i → Run i A
  hang : Run i A

abbrev pub Cmd : I2c → Type 0 → Type 0
Cmd i A = St i → Run i A

abbrev pub pure : {i : I2c} {A : Type 0} → A → Cmd i A
pure = ok

module _ {i : I2c} {A B : Type 0} where
  -- `if (rc < 0) return rc;` between two calls
  abbrev pub and_then : Run i A → (A → Cmd i B) → Run i B
  and_then (ok a s) k = k a s
  and_then (err r s) k = err r s
  and_then hang k = hang

  infixl 5 ◌>>=◌ ◌>>◌
  abbrev pub ◌>>=◌ : Cmd i A → (A → Cmd i B) → Cmd i B
  m >>= k = λ s. and_then (m s) k

  abbrev pub ◌>>◌ : Cmd i A → Cmd i B → Cmd i B
  m >> n = m >>= λ _. n
