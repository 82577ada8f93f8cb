-- ===== src/R82xx/Pll.antt =====
-- r82xx_set_pll() of rtl-sdr/src/tuner_r82xx.c. The numbers that it programs are functions of their
-- own; Pll/Tuning is about them.
pub mod Tuning
use ebc_sdr_native.Prelude.{
  ℕ, zero, suc, ◌+◌, ◌-◌, ◌*◌, ◌/◌, ◌%◌, ◌^◌, refl, arith, bit_and, Bool, true, false, not, ◌&&◌,
  ◌||◌, List, [], ◌∷◌, ltb, leb, ◌==◌, if◌then◌else◌, get_or, take, drop,
}
use ebc_sdr_native.Prelude.Int.{negsuc}
use ebc_sdr_native.I2c.{I2c, IsChip}
use ebc_sdr_native.R82xx.{
  Chip, r828d, Config, RtlDev, Priv, St, Run, ok, err, Cmd, pure, and_then, ◌>>=◌, ◌>>◌,
}
use ebc_sdr_native.R82xx.Model.{is_v4, is_v4l}
use ebc_sdr_native.R82xx.Regs.{mask_reg8, read, write, write_reg_mask, gets, modify}
use ebc_sdr_native.R82xx.Regs.Sound.{
  Sound, pure-Sound, err-Sound, gets-Sound, modify-Sound, if-Sound, bind, ◌⨟◌, read-Sound,
  write-Sound, write_reg_mask-Sound,
}

abbrev pub vco_min : ℕ
vco_min = 1770000

abbrev pub vco_max : ℕ
vco_max = vco_min * 2

-- mix_div and the number of halvings of it until div_buf is at most 2
pub record Divider : Type 0 where
  pub mix_div : ℕ
  pub div_num : ℕ

-- the inner loop, `while (div_buf > 2)`; 8 rounds are enough for a byte
pub halvings : ℕ → ℕ → ℕ
halvings zero div_buf = 0
halvings (suc fuel) div_buf =
    let rest = halvings fuel (div_buf / 2) in if ltb 2 div_buf then rest + 1 else 0

-- `while (mix_div <= 64)`; mix_div doubles from 2, so 7 rounds are enough
pub find_divider : ℕ → ℕ → ℕ → Divider
unfolding halvings
find_divider zero freq_khz mix_div = record { mix_div = mix_div; div_num = 0 }
find_divider (suc fuel) freq_khz mix_div =
    let next = find_divider fuel freq_khz (mix_div * 2) in
    if leb mix_div 64
    then (if leb vco_min (freq_khz * mix_div) && ltb (freq_khz * mix_div) vco_max
        then record { mix_div = mix_div; div_num = halvings 8 mix_div }
        else next)
    else record { mix_div = mix_div; div_num = 0 }

-- (freq + 500) / 1000 in 32 bits
pub to_khz : ℕ → ℕ
to_khz freq = (freq + 500) % 2 ^ 32 / 1000

unfoldable pub divider : ℕ → Divider
unfolding find_divider to_khz
divider freq = find_divider 7 (to_khz freq) 2

-- vco_freq / (2 * pll_ref) as a fraction of 65536, rounded; 2 * pll_ref is a 32-bit product
unfoldable pub vco_div : ℕ → ℕ → ℕ
vco_div pll_ref vco_freq = (pll_ref + 65536 * vco_freq) / (2 * pll_ref % 2 ^ 32)

-- nint is a uint8_t
unfoldable pub nint_of : ℕ → ℕ
nint_of div = div / 65536 % 2 ^ 32 % 256

pub sdm_of : ℕ → ℕ
sdm_of div = div % 65536

-- the uint8_t (nint - 13) / 4, the division rounding towards 0
pub ni_of : ℕ → ℕ
ni_of nint = if leb 13 nint then (nint - 13) / 4 else (256 - (13 - nint) / 4) % 256

pub si_of : ℕ → ℕ
si_of nint = (nint + 2048 - 4 * ni_of nint - 13) % 256

-- div_num one down or up by the fine tuning of the VCO, as a uint8_t
pub tuned_div_num : ℕ → ℕ → ℕ → ℕ
tuned_div_num div_num fine ref =
    if ltb ref fine
    then (div_num + 255) % 256
    else if ltb fine ref
    then (div_num + 1) % 256
    else div_num

-- registers 0x10 to 0x16 as they are written in one batch
pub pll_regs : List ℕ → ℕ → ℕ → ℕ → List ℕ
unfolding mask_reg8 ni_of si_of
pll_regs regs div_num nint sdm =
    mask_reg8 (mask_reg8 (get_or regs 0 0) 0 0x10) (div_num * 32 % 256) 0xe0
    ∷ get_or regs 1 0
    ∷ mask_reg8 (get_or regs 2 0) (if sdm == 0 then 0x08 else 0x00) 0x08
    ∷ get_or regs 3 0
    ∷ ((ni_of nint + si_of nint * 64) % 256)
    ∷ bit_and sdm 0xff
    ∷ (sdm / 256)
    ∷ []

abbrev pub is_r828d : Chip → Bool
is_r828d r828d = true
is_r828d _ = false

pub vco_power_ref : Priv → ℕ
unfolding is_v4 is_v4l
vco_power_ref p = if is_r828d p.cfg.rafael_chip || is_v4 p.rtl_dev || is_v4l p.rtl_dev then 1 else 2

-- bit 6 of the third status byte
pub locked : List ℕ → Bool
locked bytes = not (bit_and (get_or bytes 2 0) 0x40 == 0)

module _ {i : I2c} where
  -- the loop `for (i = 0; i < 2; i++)`, with the last status read
  pub lock_status : Cmd i (List ℕ)
  unfolding locked
  lock_status = do
    first ← read 0x00 3
    if locked first then pure first else (do write_reg_mask 0x12 0x60 0xe0; read 0x00 3)

  pub report_lock : Bool → Cmd i (Unit {0})
  report_lock locks =
      if locks
      then (do modify (λ p. record p { has_lock = true }); write_reg_mask 0x1a 0x08 0x08)
      else modify (λ p. record p { has_lock = false })

  pub program_pll : ℕ → ℕ → ℕ → Cmd i (Unit {0})
  unfolding pll_regs lock_status report_lock locked
  program_pll div_num nint sdm = do
    regs ← gets (λ p. take 7 (drop 11 p.regs))
    write 0x10 (pll_regs regs div_num nint sdm)
    status ← lock_status
    report_lock (locked status)

  unfoldable pub set_pll : ℕ → Cmd i (Unit {0})
  unfolding divider vco_div nint_of sdm_of tuned_div_num vco_power_ref program_pll
  set_pll freq = do
    write_reg_mask 0x1a 0x00 0x0c
    write_reg_mask 0x12 0x80 0xe0
    status ← read 0x00 5
    p ← gets (λ p. p)
    let ref = vco_power_ref p
    let d = divider freq
    let fine = bit_and (get_or status 4 0) 0x30 / 16
    let div = vco_div p.cfg.xtal (freq * d.mix_div)
    if ltb (128 / ref - 1) (nint_of div)
        then err (negsuc 0)
        else program_pll (tuned_div_num d.div_num fine ref) (nint_of div) (sdm_of div)

module _ {i : I2c} (c : IsChip i) where
  lock_status-Sound : Sound {i = i} c lock_status
  unfolding lock_status
  lock_status-Sound = bind (read-Sound 0x00 3) λ first.
      if-Sound (locked first) (pure-Sound first)
        (write_reg_mask-Sound 0x12 0x60 0xe0 refl ⨟ read-Sound 0x00 3)

  report_lock-Sound : (locks : Bool) → Sound {i = i} c (report_lock locks)
  unfolding report_lock
  report_lock-Sound locks =
      if-Sound locks
        (modify-Sound (λ p. record p { has_lock = true }) (λ p. refl) (λ p. refl)
          ⨟ write_reg_mask-Sound 0x1a 0x08 0x08 refl)
        (modify-Sound (λ p. record p { has_lock = false }) (λ p. refl) (λ p. refl))

  program_pll-Sound : (div_num nint sdm : ℕ) → Sound {i = i} c (program_pll div_num nint sdm)
  unfolding program_pll
  program_pll-Sound div_num nint sdm = bind (gets-Sound (λ p. take 7 (drop 11 p.regs))) λ regs.
      write-Sound 0x10 (pll_regs regs div_num nint sdm) (omega arith) (omega arith)
      ⨟ bind lock_status-Sound λ status. report_lock-Sound (locked status)

  -- From a state in sync r82xx_set_pll() returns: in sync, or with a negative code, which is -1 if
  -- the divider does not fit.
  pub set_pll-Sound : (freq : ℕ) → Sound {i = i} c (set_pll freq)
  unfolding set_pll
  set_pll-Sound freq =
      write_reg_mask-Sound 0x1a 0x00 0x0c refl
      ⨟ write_reg_mask-Sound 0x12 0x80 0xe0 refl
      ⨟ bind (read-Sound 0x00 5) λ status.
        bind (gets-Sound (λ p. p))
          λ p. if-Sound _ (err-Sound (negsuc 0) refl) (program_pll-Sound _ _ _)
