-- ===== src/Device/Clock.antt =====
-- rtlsdr_get_xtal_freq(), rtlsdr_set_if_freq() and rtlsdr_set_sample_freq_correction() of
-- rtl-sdr/src/librtlsdr.c. A quotient of doubles, cut to an integer, is that of the integers while the
-- dividend is below 2^53: for frequencies below 2^31 Hz. `apply_ppm` is APPLY_PPM_CORR, cut to a
-- uint32_t.
use ebc_sdr_native.Prelude.{ℕ, suc, ◌+◌, ◌-◌, ◌*◌, ◌/◌, ◌%◌, ◌<◌, ◌≡◌, arith}
use ebc_sdr_native.Prelude.Int.{ℤ, pos, negsuc}
use ebc_sdr_native.Registers
use ebc_sdr_native.Device.{Tuner, Radio, demod, or_then}

-- -q as an int32_t and an int16_t, by its bits
abbrev pub minus32 : ℕ → ℕ
minus32 q = (4294967296 - q % 4294967296) % 4294967296

abbrev pub minus16 : ℕ → ℕ
minus16 q = (65536 - q % 65536) % 65536

-- the quotient of the intermediate frequency, and the bytes of what is stored for it
abbrev pub if_quotient : ℕ → ℕ → ℕ
if_quotient freq xtal = freq * 4194304 / xtal

abbrev pub if_byte2 : ℕ → ℕ
if_byte2 q = minus32 q / 65536 % 64

abbrev pub if_byte1 : ℕ → ℕ
if_byte1 q = minus32 q / 256 % 256

abbrev pub if_byte0 : ℕ → ℕ
if_byte0 q = minus32 q % 256

-- (int16_t)(ppm * (-1) * TWO_POW(24) / 1000000), by its bits
abbrev pub correction : ℤ → ℕ
correction (pos n) = minus16 (n * 16777216 / 1000000)
correction (negsuc n) = suc n * 16777216 / 1000000 % 65536

module _ {k : Registers.Control} {t : Tuner k} (apply_ppm : ℕ → ℤ → ℕ) where
  abbrev pub rtl_clock : Radio k t → ℕ
  rtl_clock s = apply_ppm s.rtl_xtal s.corr

  abbrev pub tuner_clock : Radio k t → ℕ
  tuner_clock s = apply_ppm s.tun_xtal s.corr

  unfoldable pub set_if_freq : ℕ → Radio k t → ℤ × Radio k t
  set_if_freq freq s =
      let q = if_quotient freq (rtl_clock s) in
      or_then (or_then (demod s 1 0x19 (if_byte2 q) 1) (λ s. demod s 1 0x1a (if_byte1 q) 1))
        (λ s. demod s 1 0x1b (if_byte0 q) 1)

unfoldable pub set_sample_freq_correction :
    {k : Registers.Control} {t : Tuner k} → ℤ → Radio k t → ℤ × Radio k t
set_sample_freq_correction ppm s =
    or_then (demod s 1 0x3f (correction ppm % 256) 1)
      (λ s. demod s 1 0x3e (correction ppm / 256 % 64) 1)

-- The three registers fit their widths, and together they are the negative of the quotient on 22 bits.
pub if_bytes_sum :
    (q : ℕ)
    → (if_byte2 q < 64)
      × ((if_byte1 q < 256)
          × ((if_byte0 q < 256)
              × ((if_byte2 q * 65536 + if_byte1 q * 256 + if_byte0 q + q) % 4194304 ≡ 0)))
if_bytes_sum q = (omega arith, (omega arith, (omega arith, omega arith)))
