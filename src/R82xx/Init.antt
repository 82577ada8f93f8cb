-- ===== src/R82xx/Init.antt =====
-- r82xx_sysfreq_sel(), r82xx_set_tv_standard(), r82xx_standby() and r82xx_init() of
-- rtl-sdr/src/tuner_r82xx.c.
pub mod Setup
pub mod Start
use ebc_sdr_native.Prelude.{
  ℕ, zero, suc, ◌+◌, refl, bit_and, bit_or, Bool, true, false, not, ◌&&◌, ◌||◌, List, [], ◌∷◌, ◌==◌,
  if◌then◌else◌, get_or, replicate,
}
use ebc_sdr_native.I2c.{I2c, IsChip}
use ebc_sdr_native.R82xx.{
  TunerType, radio, analog_tv, digital_tv, unset, DeliverySystem, undefined, dvbt, dvbt2, isdbt,
  XtalCap, high_cap_0p, Config, Priv, St, Run, ok, err, hang, Cmd, pure, and_then, ◌>>=◌, ◌>>◌,
}
use ebc_sdr_native.R82xx.Pll.{set_pll, set_pll-Sound}
use ebc_sdr_native.R82xx.Tables.{r82xx_init_array}
use ebc_sdr_native.R82xx.Regs.{num_regs, read, write, write_reg, write_reg_mask, gets, modify}
use ebc_sdr_native.R82xx.Regs.Sound.{
  Sound, pure-Sound, gets-Sound, modify-Sound, if-Sound, bind, ◌⨟◌, read-Sound, write_reg-Sound,
  write_reg_mask-Sound,
}

-- what the switch over delsys sets that is not the same in all its cases
pub record Levels : Type 0 where
  pub mixer_top : ℕ
  pub cp_cur : ℕ
  pub div_buf_cur : ℕ
  pub lna_vth_l : ℕ

abbrev common_levels : Levels
common_levels = record { mixer_top = 0x24; cp_cur = 0x38; div_buf_cur = 0x30; lna_vth_l = 0x53 }

pub levels : DeliverySystem → ℕ → Levels
levels dvbt freq =
    if freq == 506000000 || freq == 666000000 || freq == 818000000
    then record { mixer_top = 0x14; cp_cur = 0x28; div_buf_cur = 0x20; lna_vth_l = 0x53 }
    else common_levels
levels dvbt2 freq = common_levels
levels isdbt freq = record common_levels { lna_vth_l = 0x75 }
levels undefined freq = common_levels

-- the fields that r82xx_init() sets first
pub reset_shadow : Priv → Priv
reset_shadow p = record p { xtal_cap_sel = high_cap_0p; regs = replicate num_regs 0 }

abbrev pub is_analog : TunerType → Bool
is_analog analog_tv = true
is_analog _ = false

abbrev pub lna_top : ℕ
lna_top = 0xe5

abbrev pub lna_discharge : ℕ
lna_discharge = 14

module _ {i : I2c} where
  -- the writes up to "Set LNA"
  pub set_levels : Levels → Cmd i (Unit {0})
  set_levels l = do
    predetect ← gets (λ p. p.cfg.use_predetect)
    if predetect then write_reg_mask 0x06 0x40 0x40 else pure tt
    write_reg_mask 0x1d lna_top 0xc7
    write_reg_mask 0x1c l.mixer_top 0xf8
    write_reg 0x0d l.lna_vth_l
    write_reg 0x0e 0x75
    modify (λ p. record p { input = 0x00 })
    write_reg_mask 0x05 0x00 0x60
    write_reg_mask 0x06 0x00 0x08
    write_reg_mask 0x11 l.cp_cur 0x38
    write_reg_mask 0x17 l.div_buf_cur 0x30
    write_reg_mask 0x0a 0x40 0x60

  -- the writes from "Set LNA" on
  pub set_lna : TunerType → ℕ → Cmd i (Unit {0})
  set_lna type mixer_top =
      if not (is_analog type)
      then (do
        write_reg_mask 0x1d 0 0x38
        write_reg_mask 0x1c 0 0x04
        write_reg_mask 0x06 0 0x40
        write_reg_mask 0x1a 0x30 0x30
        write_reg_mask 0x1d 0x18 0x38
        write_reg_mask 0x1c mixer_top 0x04
        write_reg_mask 0x1e lna_discharge 0x1f
        write_reg_mask 0x1a 0x20 0x30)
      else (do
        write_reg_mask 0x06 0 0x40
        write_reg_mask 0x1d lna_top 0x38
        write_reg_mask 0x1c mixer_top 0x04
        write_reg_mask 0x1e lna_discharge 0x1f
        write_reg_mask 0x1a 0x00 0x30
        write_reg_mask 0x10 0x00 0x04)

  pub sysfreq_sel : ℕ → TunerType → DeliverySystem → Cmd i (Unit {0})
  unfolding levels set_levels set_lna
  sysfreq_sel freq type delsys = do
    set_levels (levels delsys freq)
    set_lna type (levels delsys freq).mixer_top

  -- one calibration after its set_pll(); the code it leaves in priv
  pub read_calibration : Cmd i ℕ
  read_calibration = do
    write_reg_mask 0x0b 0x10 0x10
    write_reg_mask 0x0b 0x00 0x10
    write_reg_mask 0x0f 0x00 0x04
    status ← read 0x00 5
    modify (λ p. record p { fil_cal_code = bit_and (get_or status 4 0) 0x0f })
    gets (λ p. p.fil_cal_code)

  -- the loop over `i`, with the rounds that are left; false for the return without a lock
  pub calibrate : ℕ → Cmd i Bool
  unfolding set_pll read_calibration
  calibrate zero = pure true
  calibrate (suc n) = do
    write_reg_mask 0x0b 0x6b 0x60
    write_reg_mask 0x0f 0x04 0x04
    write_reg_mask 0x10 0x00 0x03
    set_pll 56000000
    has_lock ← gets (λ p. p.has_lock)
    if has_lock
        then (do
          fil_cal_code ← read_calibration
          if not (fil_cal_code == 0) && not (fil_cal_code == 0x0f) then pure true else calibrate n)
        else pure false

  -- the writes after the calibration
  pub finish_standard : ℕ → TunerType → DeliverySystem → Cmd i (Unit {0})
  finish_standard bw type delsys = do
    modify (λ p. record p { fil_cal_code = if p.fil_cal_code == 0x0f then 0 else p.fil_cal_code })
    fil_cal_code ← gets (λ p. p.fil_cal_code)
    write_reg_mask 0x0a (bit_or 0x10 fil_cal_code) 0x1f
    write_reg_mask 0x0b 0x6b 0xef
    write_reg_mask 0x07 0x00 0x80
    write_reg_mask 0x06 0x10 0x30
    write_reg_mask 0x1e 0x60 0x60
    write_reg_mask 0x05 0x01 0x80
    write_reg_mask 0x1f 0x00 0x80
    write_reg_mask 0x0f 0x00 0x80
    write_reg_mask 0x19 0x60 0x60
    modify (λ p. record p { delsys = delsys; tuner_type = type; bw = bw })

  -- all that follows the copy of the initial values into the shadow
  pub calibrate_standard : ℕ → TunerType → DeliverySystem → Cmd i (Unit {0})
  unfolding calibrate finish_standard
  calibrate_standard bw type delsys = do
    write_reg_mask 0x0c 0x00 0x0f
    write_reg_mask 0x13 49 0x3f
    if not (is_analog type) then write_reg_mask 0x1d 0x00 0x38 else pure tt
    modify (λ p. record p { int_freq = 3570000 })
    go_on ← calibrate 2
    if go_on then finish_standard bw type delsys else pure tt

  pub set_tv_standard : ℕ → TunerType → DeliverySystem → Cmd i (Unit {0})
  unfolding calibrate_standard
  set_tv_standard bw type delsys =
      modify (λ p. record p { regs = r82xx_init_array }) >> calibrate_standard bw type delsys

  -- r82xx_init() sets init_done whatever r82xx_sysfreq_sel() returned
  pub mark_done : Run i (Unit {0}) → Run i (Unit {0})
  mark_done (ok a s) = ok a (record s { priv = record s.priv { init_done = true } })
  mark_done (err r s) = err r (record s { priv = record s.priv { init_done = true } })
  mark_done hang = hang

  -- the code of the first write is overwritten by that of r82xx_set_tv_standard()
  pub ignore_error : Run i (Unit {0}) → Run i (Unit {0})
  ignore_error (ok a s) = ok a s
  ignore_error (err r s) = ok tt s
  ignore_error hang = hang

  -- r82xx_init() after its first write
  pub configure : Cmd i (Unit {0})
  unfolding set_tv_standard sysfreq_sel mark_done
  configure =
      set_tv_standard 3 digital_tv undefined >>= λ _ s. mark_done (sysfreq_sel 0 digital_tv dvbt s)

  -- r82xx_init() up to its first write
  unfoldable pub initial_write : Cmd i (Unit {0})
  unfolding reset_shadow write
  initial_write s = write 0x05 r82xx_init_array (record s { priv = reset_shadow s.priv })

  unfoldable pub init : Cmd i (Unit {0})
  unfolding initial_write ignore_error configure
  init s = and_then (ignore_error (initial_write s)) λ _. configure

  -- r82xx_standby() resets the type whatever the last write returned
  pub forget_type : Run i (Unit {0}) → Run i (Unit {0})
  forget_type (ok a s) = ok a (record s { priv = record s.priv { tuner_type = unset } })
  forget_type (err r s) = err r (record s { priv = record s.priv { tuner_type = unset } })
  forget_type hang = hang

  -- the writes of r82xx_standby()
  pub power_down : Cmd i (Unit {0})
  unfolding forget_type
  power_down = do
    write_reg 0x06 0xb1
    write_reg 0x05 0xa0
    write_reg 0x07 0x3a
    write_reg 0x08 0x40
    write_reg 0x09 0xc0
    write_reg 0x0a 0x36
    write_reg 0x0c 0x35
    write_reg 0x0f 0x68
    write_reg 0x11 0x03
    write_reg 0x17 0xf4
    λ s. forget_type (write_reg 0x19 0x0c s)

  pub standby : Cmd i (Unit {0})
  unfolding power_down
  standby = do init_done ← gets (λ p. p.init_done); if not init_done then pure tt else power_down
