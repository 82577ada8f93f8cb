-- ===== src/Registers/Baseband.antt =====
-- rtlsdr_init_baseband() and rtlsdr_deinit_baseband() of rtl-sdr/src/librtlsdr.c: fixed sequences of
-- register writes, whose codes are ignored.
use ebc_sdr_native.Prelude.{ℕ, zero, suc, ◌+◌, true, false, Option, none, some, List, [], ◌∷◌}
use ebc_sdr_native.Prelude.Int.{ℤ, pos}
use ebc_sdr_native.Fir.{set_fir}
use ebc_sdr_native.Registers.{
  Control, usbb, sysb, usb_sysctl, usb_epa_ctl, usb_epa_maxpkt, demod_ctl, demod_ctl_1, write_reg,
  demod_write_reg, set_i2c_repeater,
}

-- a call of rtlsdr_write_reg() or of rtlsdr_demod_write_reg() with its arguments
pub data Write : Type 0 where
  reg : (block addr val len : ℕ) → Write
  demod : (page addr val len : ℕ) → Write

-- USB, power on, reset, spectrum inversion
abbrev before_shift : List Write
before_shift =
    Write.reg usbb usb_sysctl 0x09 1
    ∷ Write.reg usbb usb_epa_maxpkt 0x0002 2
    ∷ Write.reg usbb usb_epa_ctl 0x1002 2
    ∷ Write.reg sysb demod_ctl_1 0x22 1
    ∷ Write.reg sysb demod_ctl 0xe8 1
    ∷ Write.demod 1 0x01 0x14 1
    ∷ Write.demod 1 0x01 0x10 1
    ∷ Write.demod 1 0x15 0x00 1
    ∷ Write.demod 1 0x16 0x0000 2
    ∷ []

-- the loop over the DDC shift and IF frequency registers, from 0x16 on
abbrev clear_shift : ℕ → ℕ → List Write
clear_shift zero addr = []
clear_shift (suc n) addr = Write.demod 1 addr 0x00 1 ∷ clear_shift n (addr + 1)

-- SDR mode, state register, AGC, PID filter, datapath, zero IF, clock output
abbrev after_fir : List Write
after_fir =
    Write.demod 0 0x19 0x05 1
    ∷ Write.demod 1 0x93 0xf0 1
    ∷ Write.demod 1 0x94 0x0f 1
    ∷ Write.demod 1 0x11 0x00 1
    ∷ Write.demod 1 0x04 0x00 1
    ∷ Write.demod 0 0x61 0x60 1
    ∷ Write.demod 0 0x06 0x80 1
    ∷ Write.demod 1 0xb1 0x1b 1
    ∷ Write.demod 0 0x0d 0x83 1
    ∷ []

module _ (k : Control) where
  abbrev do_write : Write → k.Bus → k.Bus
  do_write (Write.reg block addr val len) b = (write_reg k b block addr val len).1
  do_write (Write.demod page addr val len) b = (demod_write_reg k b page addr val len).1

  abbrev do_writes : List Write → k.Bus → k.Bus
  do_writes [] b = b
  do_writes (w ∷ ws) b = do_writes ws (do_write w b)

  unfoldable pub init_baseband : List ℤ → k.Bus → k.Bus
  unfolding set_fir
  init_baseband fir b =
      let b1 = do_writes (clear_shift 6 0x16) (do_writes before_shift b) in
      do_writes after_fir (set_fir (demod_write_reg k) fir b1).1

  -- `exit` is that of the tuner
  unfoldable pub deinit_baseband : Option (k.Bus → ℤ × k.Bus) → k.Bus → ℤ × k.Bus
  unfolding set_i2c_repeater
  deinit_baseband none b = (pos 0, (write_reg k b sysb demod_ctl 0x20 1).1)
  deinit_baseband (some exit) b =
      let (r, b1) = exit (set_i2c_repeater k b true) in
      (r, (write_reg k (set_i2c_repeater k b1 false) sysb demod_ctl 0x20 1).1)
