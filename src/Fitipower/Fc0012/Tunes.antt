-- ===== src/Fitipower/Fc0012/Tunes.antt =====
-- The tuner as fc0012_set_params() of rtl-sdr/src/tuner_fc0012.c leaves it, with a crystal of 28.8 MHz.
use ebc_sdr_native.Prelude.{ℕ, ◌+◌, ◌*◌, ◌≤◌, ◌<◌, ◌≡◌, bit_and, bit_or, some}
use ebc_sdr_native.I2c.{I2c, IsChip, AllOrNothing}
use ebc_sdr_native.Fitipower.{make, settings}
use ebc_sdr_native.Fitipower.Pll.{Near, parts, settings-made, made-Tuned}
use ebc_sdr_native.Fitipower.Programmed.{Ends, map-Ends, Programmed}
use ebc_sdr_native.Fitipower.Calibrated.{fc0012_set_params-Sets}
use ebc_sdr_native.Fitipower.Fc0012.{divider, set_params}
use ebc_sdr_native.Fitipower.Fc0012.Range.{Divides, divider-Divides, divider-six}

-- The registers of a chip hold the bits of the divider that the driver has for this frequency, and
-- counters that make the VCO run at the frequency times that divider.
pub record Makes (freq : ℕ) (f : ℕ → ℕ) : Type 0 where
  pub near : Near (freq * (divider freq).multi) (parts (f 1 + 8 * f 2) (f 3 * 256 + f 4))
  pub slow : 1288800000 ≤ freq * (divider freq).multi
  pub fast : freq * (divider freq).multi < 3794400000
  pub five : f 5 ≡ bit_or (divider freq).reg5 0x07
  pub six : bit_and (f 6) 0x02 ≡ (divider freq).reg6

module _ {i : I2c} (c : IsChip i) where
  made-Makes :
      (freq bandwidth : ℕ) (b : i.Bus)
      → Divides freq (divider freq)
      → Programmed c (make (divider freq) freq 28800000 bandwidth) b
      → Makes freq (c.chip b)
  unfolding make
  made-Makes freq bandwidth b d programmed =
      let s = make (divider freq) freq 28800000 bandwidth in
      let h = programmed.holds in
      record {
        near =
            rw (h.one, h.two, h.three, h.four)
              (made-Tuned (divider freq) freq bandwidth d.low d.high).near;
        slow = d.low;
        fast = d.high;
        five = h.five;
        six = divider-six freq bandwidth (c.chip b 6) s.vco_select programmed.six;
      }

  -- With a crystal of 28.8 MHz no frequency from 13.425 MHz to just below 948.6 MHz is refused: there are
  -- settings for it. When fc0012_set_params() succeeds for it, with a bus that sends all bytes of a write
  -- or fails, the registers of the chip hold the bits that the driver has for the output divider of the
  -- frequency, and make the VCO run, between 1288.8 and 3794.4 MHz, at the frequency times that divider,
  -- or less than 1440 Hz below.
  pub set_params-Makes :
      (full : AllOrNothing i) (freq bandwidth : ℕ) (b : i.Bus)
      → 13425000 ≤ freq
      → freq < 948600000
      → (settings (divider freq) freq 28800000 bandwidth
          ≡ some (make (divider freq) freq 28800000 bandwidth))
        × Ends (λ _ b'. Makes freq (c.chip b')) (set_params i 28800000 freq bandwidth b)
  unfolding make
  set_params-Makes full freq bandwidth b h k =
      let d = divider-Divides freq h k in
      (
        settings-made (divider freq) freq bandwidth d.low d.high,
        map-Ends (set_params i 28800000 freq bandwidth b)
            (λ _ b' q. made-Makes freq bandwidth b' d q.1)
            (fc0012_set_params-Sets c full 28800000 freq bandwidth b),
      )
