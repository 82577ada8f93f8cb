-- ===== src/R82xx/Init/Start.antt =====
-- r82xx_init() and r82xx_standby() of rtl-sdr/src/tuner_r82xx.c: the chip is set up from whatever it
-- held.
use ebc_sdr_native.Prelude.{
  ℕ, zero, suc, ◌≡◌, refl, ◌∙◌, ap, true, false, not, ◌==◌, if◌then◌else◌, get_or, bit_and, bit_or,
}
use ebc_sdr_native.I2c.{I2c, IsChip}
use ebc_sdr_native.R82xx.{
  TunerType, digital_tv, DeliverySystem, undefined, dvbt, St, Run, ok, err, hang, Cmd,
}
use ebc_sdr_native.R82xx.Pll.{set_pll-Sound}
use ebc_sdr_native.R82xx.Tables.{r82xx_init_array}
use ebc_sdr_native.R82xx.Regs.{write_reg}
use ebc_sdr_native.R82xx.Regs.Sync.{InSync, Settles, Any}
use ebc_sdr_native.R82xx.Regs.Sound.{
  Sound, pure-Sound, gets-Sound, modify-Sound, if-Sound, bind, ◌⨟◌, read-Sound, write_reg-Sound,
  write_reg_mask-Sound,
}
use ebc_sdr_native.R82xx.Init.{
  Levels, levels, is_analog, set_levels, set_lna, sysfreq_sel, read_calibration, calibrate,
  finish_standard, calibrate_standard, set_tv_standard, mark_done, configure, forget_type,
  power_down, standby,
}

module _ {i : I2c} (c : IsChip i) where
  set_levels-Sound : (l : Levels) → Sound {i = i} c (set_levels l)
  unfolding set_levels
  set_levels-Sound l = bind (gets-Sound (λ p. p.cfg.use_predetect)) λ predetect.
      if-Sound predetect (write_reg_mask-Sound 0x06 0x40 0x40 refl) (pure-Sound tt)
      ⨟ write_reg_mask-Sound 0x1d 0xe5 0xc7 refl
      ⨟ write_reg_mask-Sound 0x1c l.mixer_top 0xf8 refl
      ⨟ write_reg-Sound 0x0d l.lna_vth_l refl
      ⨟ write_reg-Sound 0x0e 0x75 refl
      ⨟ modify-Sound (λ p. record p { input = 0x00 }) (λ p. refl) (λ p. refl)
      ⨟ write_reg_mask-Sound 0x05 0x00 0x60 refl
      ⨟ write_reg_mask-Sound 0x06 0x00 0x08 refl
      ⨟ write_reg_mask-Sound 0x11 l.cp_cur 0x38 refl
      ⨟ write_reg_mask-Sound 0x17 l.div_buf_cur 0x30 refl
      ⨟ write_reg_mask-Sound 0x0a 0x40 0x60 refl

  set_lna-Sound : (type : TunerType) (mixer_top : ℕ) → Sound {i = i} c (set_lna type mixer_top)
  unfolding set_lna
  set_lna-Sound type mixer_top =
      if-Sound (not (is_analog type))
        (write_reg_mask-Sound 0x1d 0 0x38 refl
          ⨟ write_reg_mask-Sound 0x1c 0 0x04 refl
          ⨟ write_reg_mask-Sound 0x06 0 0x40 refl
          ⨟ write_reg_mask-Sound 0x1a 0x30 0x30 refl
          ⨟ write_reg_mask-Sound 0x1d 0x18 0x38 refl
          ⨟ write_reg_mask-Sound 0x1c mixer_top 0x04 refl
          ⨟ write_reg_mask-Sound 0x1e 14 0x1f refl
          ⨟ write_reg_mask-Sound 0x1a 0x20 0x30 refl)
        (write_reg_mask-Sound 0x06 0 0x40 refl
          ⨟ write_reg_mask-Sound 0x1d 0xe5 0x38 refl
          ⨟ write_reg_mask-Sound 0x1c mixer_top 0x04 refl
          ⨟ write_reg_mask-Sound 0x1e 14 0x1f refl
          ⨟ write_reg_mask-Sound 0x1a 0x00 0x30 refl
          ⨟ write_reg_mask-Sound 0x10 0x00 0x04 refl)

  sysfreq_sel-Sound :
      (freq : ℕ) (type : TunerType) (delsys : DeliverySystem)
      → Sound {i = i} c (sysfreq_sel freq type delsys)
  unfolding sysfreq_sel
  sysfreq_sel-Sound freq type delsys =
      set_levels-Sound (levels delsys freq) ⨟ set_lna-Sound type (levels delsys freq).mixer_top

  read_calibration-Sound : Sound {i = i} c read_calibration
  unfolding read_calibration
  read_calibration-Sound =
      write_reg_mask-Sound 0x0b 0x10 0x10 refl
      ⨟ write_reg_mask-Sound 0x0b 0x00 0x10 refl
      ⨟ write_reg_mask-Sound 0x0f 0x00 0x04 refl
      ⨟ bind (read-Sound 0x00 5) λ status.
        modify-Sound (λ p. record p { fil_cal_code = bit_and (get_or status 4 0) 0x0f }) (λ p. refl)
          (λ p. refl)
        ⨟ gets-Sound (λ p. p.fil_cal_code)

  calibrate-Sound : (n : ℕ) → Sound {i = i} c (calibrate n)
  unfolding calibrate
  calibrate-Sound zero = pure-Sound true
  calibrate-Sound (suc n) =
      let again = calibrate-Sound n in
      write_reg_mask-Sound 0x0b 0x6b 0x60 refl
      ⨟ write_reg_mask-Sound 0x0f 0x04 0x04 refl
      ⨟ write_reg_mask-Sound 0x10 0x00 0x03 refl
      ⨟ set_pll-Sound c 56000000
      ⨟ bind (gets-Sound (λ p. p.has_lock)) λ has_lock.
        if-Sound has_lock (bind read_calibration-Sound λ code. if-Sound _ (pure-Sound true) again)
          (pure-Sound false)

  finish_standard-Sound :
      (bw : ℕ) (type : TunerType) (delsys : DeliverySystem)
      → Sound {i = i} c (finish_standard bw type delsys)
  unfolding finish_standard
  finish_standard-Sound bw type delsys =
      modify-Sound
        (λ p. record p { fil_cal_code = if p.fil_cal_code == 0x0f then 0 else p.fil_cal_code })
        (λ p. refl) (λ p. refl)
      ⨟ bind (gets-Sound (λ p. p.fil_cal_code)) λ code.
        write_reg_mask-Sound 0x0a (bit_or 0x10 code) 0x1f refl
        ⨟ write_reg_mask-Sound 0x0b 0x6b 0xef refl
        ⨟ write_reg_mask-Sound 0x07 0x00 0x80 refl
        ⨟ write_reg_mask-Sound 0x06 0x10 0x30 refl
        ⨟ write_reg_mask-Sound 0x1e 0x60 0x60 refl
        ⨟ write_reg_mask-Sound 0x05 0x01 0x80 refl
        ⨟ write_reg_mask-Sound 0x1f 0x00 0x80 refl
        ⨟ write_reg_mask-Sound 0x0f 0x00 0x80 refl
        ⨟ write_reg_mask-Sound 0x19 0x60 0x60 refl
        ⨟ modify-Sound (λ p. record p { delsys = delsys; tuner_type = type; bw = bw }) (λ p. refl)
            (λ p. refl)

  calibrate_standard-Sound :
      (bw : ℕ) (type : TunerType) (delsys : DeliverySystem)
      → Sound {i = i} c (calibrate_standard bw type delsys)
  unfolding calibrate_standard
  calibrate_standard-Sound bw type delsys =
      write_reg_mask-Sound 0x0c 0x00 0x0f refl
      ⨟ write_reg_mask-Sound 0x13 49 0x3f refl
      ⨟ if-Sound (not (is_analog type)) (write_reg_mask-Sound 0x1d 0x00 0x38 refl) (pure-Sound tt)
      ⨟ modify-Sound (λ p. record p { int_freq = 3570000 }) (λ p. refl) (λ p. refl)
      ⨟ bind (calibrate-Sound 2)
          λ go_on. if-Sound go_on (finish_standard-Sound bw type delsys) (pure-Sound tt)

  mark_done-Settles : (r : Run i (Unit {0})) → Settles c Any r → Settles c Any (mark_done r)
  unfolding mark_done
  mark_done-Settles (ok _ s) (sync, _) =
      (record { sized = sync.sized; room = sync.room; same = sync.same }, tt)
  mark_done-Settles (err r s) e = e
  mark_done-Settles hang e = e

  mark_done-Sound :
      (m : Cmd i (Unit {0})) → Sound {i = i} c m → Sound {i = i} c (λ s. mark_done (m s))
  mark_done-Sound m p = record { settles = λ s sync. mark_done-Settles (m s) (p.settles s sync) }

  pub loaded-Settles :
      (s : St i) → InSync c s → s.priv.regs ≡ r82xx_init_array → Settles c Any (configure s)
  unfolding configure set_tv_standard
  loaded-Settles s sync e =
      (calibrate_standard-Sound 3 digital_tv undefined
          ⨟ mark_done-Sound (sysfreq_sel 0 digital_tv dvbt)
              (sysfreq_sel-Sound 0 digital_tv dvbt)).settles
        (record { priv = record s.priv { regs = r82xx_init_array }; bus = s.bus })
        (record {
          sized = refl;
          room = sync.room;
          same = λ j h. sync.same j h ∙ ap (λ t. get_or t j 0) e;
        })

  forget_type-Settles : (r : Run i (Unit {0})) → Settles c Any r → Settles c Any (forget_type r)
  unfolding forget_type
  forget_type-Settles (ok _ s) (sync, _) =
      (record { sized = sync.sized; room = sync.room; same = sync.same }, tt)
  forget_type-Settles (err r s) e = e
  forget_type-Settles hang e = e

  forget_type-Sound :
      (m : Cmd i (Unit {0})) → Sound {i = i} c m → Sound {i = i} c (λ s. forget_type (m s))
  forget_type-Sound m p = record {
    settles = λ s sync. forget_type-Settles (m s) (p.settles s sync);
  }

  power_down-Sound : Sound {i = i} c power_down
  unfolding power_down
  power_down-Sound =
      write_reg-Sound 0x06 0xb1 refl
      ⨟ write_reg-Sound 0x05 0xa0 refl
      ⨟ write_reg-Sound 0x07 0x3a refl
      ⨟ write_reg-Sound 0x08 0x40 refl
      ⨟ write_reg-Sound 0x09 0xc0 refl
      ⨟ write_reg-Sound 0x0a 0x36 refl
      ⨟ write_reg-Sound 0x0c 0x35 refl
      ⨟ write_reg-Sound 0x0f 0x68 refl
      ⨟ write_reg-Sound 0x11 0x03 refl
      ⨟ write_reg-Sound 0x17 0xf4 refl
      ⨟ forget_type-Sound (write_reg 0x19 0x0c) (write_reg-Sound 0x19 0x0c refl)

  -- From every state in sync r82xx_standby() returns: in sync, or with a negative code.
  pub standby-Sound : Sound {i = i} c standby
  unfolding standby
  standby-Sound =
      bind (gets-Sound (λ p. p.init_done))
        λ init_done. if-Sound (not init_done) (pure-Sound tt) power_down-Sound
