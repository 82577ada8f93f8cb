-- ===== src/R82xx/Freq.antt =====
-- r82xx_set_freq() of rtl-sdr/src/tuner_r82xx.c, with the antenna inputs of the RTL-SDR Blog V4 and
-- V4L and of the other R828D sticks.
use ebc_sdr_native.Prelude.{
  ℕ, ◌+◌, ◌%◌, ◌^◌, refl, Bool, not, ◌&&◌, ◌||◌, ltb, leb, ◌==◌, if◌then◌else◌, Bool-cases, inl,
  inr, ◌∙◌,
}
use ebc_sdr_native.Prelude.Int.{is_neg}
use ebc_sdr_native.I2c.{I2c, IsChip}
use ebc_sdr_native.R82xx.{Priv, St, ok, err, Cmd, pure, ◌>>=◌, ◌>>◌}
use ebc_sdr_native.R82xx.Model.{is_v4, is_v4l}
use ebc_sdr_native.R82xx.Mux.{set_mux, set_mux-Sound}
use ebc_sdr_native.R82xx.Pll.{is_r828d, set_pll, set_pll-Sound}
use ebc_sdr_native.R82xx.Regs.{write_reg_mask, gets, modify}
use ebc_sdr_native.R82xx.Regs.Sync.{InSync, Settles, Any}
use ebc_sdr_native.R82xx.Regs.Sound.{
  Sound, pure-Sound, gets-Sound, modify-Sound, if-Sound, bind, ◌⨟◌, write_reg_mask-Sound,
}

abbrev pub hf : ℕ
hf = 1

abbrev pub vhf : ℕ
vhf = 2

abbrev pub uhf : ℕ
uhf = 3

pub upconvert_freq : Priv → ℕ → ℕ
unfolding is_v4 is_v4l
upconvert_freq p freq =
    if is_v4 p.rtl_dev || is_v4l p.rtl_dev
    then (if ltb freq 28800000 then freq + 28800000 else freq)
    else freq

-- as a uint32_t
pub lo_freq : Priv → ℕ → ℕ
unfolding upconvert_freq
lo_freq p freq = (upconvert_freq p freq + p.int_freq) % 2 ^ 32

-- the notch filters of the V4 are off within their bands
pub v4_open_d : ℕ → ℕ
v4_open_d freq =
    if leb freq 2200000
      || (leb 85000000 freq && leb freq 112000000)
      || (leb 172000000 freq && leb freq 242000000)
    then 0x00
    else 0x08

pub v4_band : ℕ → ℕ
v4_band freq =
    if leb freq 28800000 then hf else if ltb 28800000 freq && ltb freq 250000000 then vhf else uhf

pub v4l_band : ℕ → ℕ
v4l_band freq = if leb freq 28800000 then hf else uhf

pub air_cable1_in : ℕ → ℕ
air_cable1_in freq = if ltb 345000000 freq then 0x00 else 0x60

module _ {i : I2c} where
  -- rtlsdr_set_bias_tee_gpio() and the test of its code
  pub bias_tee : ℕ → Bool → Cmd i (Unit {0})
  bias_tee gpio on s =
      let (rc, b) = i.set_bias_tee_gpio s.bus gpio on in
      let s' : St i = record s { bus = b } in if is_neg rc then err rc s' else ok tt s'

  pub bypass_filter : ℕ → Cmd i (Unit {0})
  bypass_filter band =
      if band == hf
      then (do write_reg_mask 0x1a 0x40 0xc3; write_reg_mask 0x1b 0x00 0xff)
      else pure tt

  pub switch_v4 : ℕ → Cmd i (Unit {0})
  unfolding bias_tee
  switch_v4 band = do
    modify (λ p. record p { input = band })
    write_reg_mask 0x06 (if band == hf then 0x08 else 0x00) 0x08
    bias_tee 5 (not (band == hf))
    write_reg_mask 0x05 (if band == vhf then 0x40 else 0x00) 0x40
    write_reg_mask 0x05 (if band == uhf then 0x00 else 0x20) 0x20

  pub switch_v4l : ℕ → Cmd i (Unit {0})
  unfolding bias_tee
  switch_v4l band = do
    modify (λ p. record p { input = band })
    write_reg_mask 0x05 (if band == hf then 0x40 else 0x00) 0x40
    bias_tee 5 (not (band == hf))

  pub switch_air : ℕ → Cmd i (Unit {0})
  switch_air cable = do modify (λ p. record p { input = cable }); write_reg_mask 0x05 cable 0x60

  -- what follows the test of has_lock
  pub set_input : ℕ → Priv → Cmd i (Unit {0})
  unfolding is_v4 is_v4l v4_open_d v4_band v4l_band air_cable1_in bypass_filter switch_v4 switch_v4l
      switch_air
  set_input freq p =
      if is_v4 p.rtl_dev
      then (do
        write_reg_mask 0x17 (v4_open_d freq) 0x08
        bypass_filter (v4_band freq)
        if v4_band freq == p.input then pure tt else switch_v4 (v4_band freq))
      else if is_v4l p.rtl_dev
      then (do
        bypass_filter (v4l_band freq)
        if v4l_band freq == p.input then pure tt else switch_v4l (v4l_band freq))
      else if is_r828d p.cfg.rafael_chip && not (air_cable1_in freq == p.input)
      then switch_air (air_cable1_in freq)
      else pure tt

  -- Without a lock it returns early, with the 0 of r82xx_set_pll().
  pub set_freq : ℕ → Cmd i (Unit {0})
  unfolding lo_freq set_mux set_pll set_input
  set_freq freq = do
    p ← gets (λ p. p)
    set_mux (lo_freq p freq)
    set_pll (lo_freq p freq)
    q ← gets (λ p. p)
    if q.has_lock then set_input freq q else pure tt

module _ {i : I2c} (c : IsChip i) where
  bias_tee-Settles :
      (gpio : ℕ) (on : Bool) (s : St i) → InSync c s → Settles c Any (bias_tee gpio on s)
  unfolding bias_tee
  bias_tee-Settles gpio on s sync =
      elim (Bool-cases (is_neg (i.set_bias_tee_gpio s.bus gpio on).0)) [
        | inl e ↦ rw e e
        | inr e ↦ rw e (
          record {
            sized = sync.sized;
            room = sync.room;
            same = λ j h. c.gpio_keeps s.bus gpio on (5 + j) ∙ sync.same j h;
          },
          tt,
        )
      ]

  bias_tee-Sound : (gpio : ℕ) (on : Bool) → Sound {i = i} c (bias_tee gpio on)
  bias_tee-Sound gpio on = record { settles = bias_tee-Settles gpio on }

  bypass_filter-Sound : (band : ℕ) → Sound {i = i} c (bypass_filter band)
  unfolding bypass_filter
  bypass_filter-Sound band =
      if-Sound (band == hf)
        (write_reg_mask-Sound 0x1a 0x40 0xc3 refl ⨟ write_reg_mask-Sound 0x1b 0x00 0xff refl)
        (pure-Sound tt)

  input-Sound : (band : ℕ) → Sound {i = i} c (modify (λ p. record p { input = band }))
  input-Sound band = modify-Sound (λ p. record p { input = band }) (λ p. refl) (λ p. refl)

  switch_v4-Sound : (band : ℕ) → Sound {i = i} c (switch_v4 band)
  unfolding switch_v4
  switch_v4-Sound band =
      input-Sound band
      ⨟ write_reg_mask-Sound 0x06 _ 0x08 refl
      ⨟ bias_tee-Sound 5 _
      ⨟ write_reg_mask-Sound 0x05 _ 0x40 refl
      ⨟ write_reg_mask-Sound 0x05 _ 0x20 refl

  switch_v4l-Sound : (band : ℕ) → Sound {i = i} c (switch_v4l band)
  unfolding switch_v4l
  switch_v4l-Sound band =
      input-Sound band ⨟ write_reg_mask-Sound 0x05 _ 0x40 refl ⨟ bias_tee-Sound 5 _

  switch_air-Sound : (cable : ℕ) → Sound {i = i} c (switch_air cable)
  unfolding switch_air
  switch_air-Sound cable = input-Sound cable ⨟ write_reg_mask-Sound 0x05 cable 0x60 refl

  set_input-Sound : (freq : ℕ) (p : Priv) → Sound {i = i} c (set_input freq p)
  unfolding set_input
  set_input-Sound freq p =
      if-Sound (is_v4 p.rtl_dev)
        (write_reg_mask-Sound 0x17 (v4_open_d freq) 0x08 refl
          ⨟ bypass_filter-Sound (v4_band freq)
          ⨟ if-Sound _ (pure-Sound tt) (switch_v4-Sound (v4_band freq)))
        (if-Sound (is_v4l p.rtl_dev)
          (bypass_filter-Sound (v4l_band freq)
            ⨟ if-Sound _ (pure-Sound tt) (switch_v4l-Sound (v4l_band freq)))
          (if-Sound _ (switch_air-Sound (air_cable1_in freq)) (pure-Sound tt)))

  -- From every state in sync r82xx_set_freq() returns: in sync, or with a negative code, whichever
  -- model of the dongle it tunes and wherever a transfer fails.
  pub set_freq-Sound : (freq : ℕ) → Sound {i = i} c (set_freq freq)
  unfolding set_freq
  set_freq-Sound freq = bind (gets-Sound (λ p. p)) λ p.
      set_mux-Sound c (lo_freq p freq)
      ⨟ set_pll-Sound c (lo_freq p freq)
      ⨟ bind (gets-Sound (λ p. p)) λ q. if-Sound q.has_lock (set_input-Sound freq q) (pure-Sound tt)
