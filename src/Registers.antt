-- ===== src/Registers.antt =====
-- The register access of rtl-sdr/src/librtlsdr.c: the control transfers of libusb, which are a
-- parameter, and on them the reads and writes of the USB, system and demodulator registers, the
-- GPIO pins, the bias tee and the I2C bus behind it.
pub mod Baseband
pub mod Gpio
pub mod Tests
pub mod Tuner
use ebc_sdr_native.Prelude.{
  ℕ, ◌+◌, ◌-◌, ◌*◌, ◌/◌, ◌%◌, ◌^◌, bit_and, bit_or, Bool, true, false, ◌&&◌, ◌||◌, List, [], ◌∷◌,
  ◌==◌, if◌then◌else◌, length, get_or, take,
}
use ebc_sdr_native.Prelude.Int.{ℤ, pos, negsuc, ◌==ℤ◌}

-- libusb_control_transfer() in both directions: the value, the index, and the bytes or their number.
-- `junk` is what a buffer of two bytes on the stack holds before it is filled.
pub record Control : Type 1 where
  pub Bus : Type 0
  pub send : Bus → ℕ → ℕ → List ℕ → ℤ × Bus
  pub receive : Bus → ℕ → ℕ → ℕ → ℤ × List ℕ × Bus
  pub junk : Bus → ℕ × ℕ

-- enum blocks
abbrev pub usbb : ℕ
usbb = 1

abbrev pub sysb : ℕ
sysb = 2

abbrev pub iicb : ℕ
iicb = 6

-- enum usb_reg
abbrev pub usb_sysctl : ℕ
usb_sysctl = 0x2000

abbrev pub usb_epa_ctl : ℕ
usb_epa_ctl = 0x2148

abbrev pub usb_epa_maxpkt : ℕ
usb_epa_maxpkt = 0x2158

-- enum sys_reg
abbrev pub demod_ctl : ℕ
demod_ctl = 0x3000

abbrev pub gpo : ℕ
gpo = 0x3001

abbrev pub gpoe : ℕ
gpoe = 0x3003

abbrev pub gpd : ℕ
gpd = 0x3004

abbrev pub demod_ctl_1 : ℕ
demod_ctl_1 = 0x300b

-- data[0] and data[1] of a register write, cut to its length (1 or 2)
abbrev pub reg_bytes : ℕ → ℕ → List ℕ
reg_bytes val len = take len ((if len == 1 then val % 256 else val / 256 % 256) ∷ val % 256 ∷ [])

-- (data[1] << 8) | data[0], where a byte that was not received is what the stack held
abbrev pub reg_value : ℕ × ℕ → List ℕ → ℕ
reg_value junk got = bit_or (get_or got 1 junk.1 % 256 * 256) (get_or got 0 junk.0 % 256)

module _ (k : Control) where
  abbrev pub read_array : k.Bus → ℕ → ℕ → ℕ → ℤ × List ℕ × k.Bus
  read_array b block addr len = k.receive b addr (block * 256) len

  abbrev pub write_array : k.Bus → ℕ → ℕ → List ℕ → ℤ × k.Bus
  write_array b block addr bytes = k.send b addr (bit_or (block * 256) 0x10) bytes

  abbrev pub i2c_write_reg : k.Bus → ℕ → ℕ → ℕ → ℤ × k.Bus
  i2c_write_reg b i2c_addr reg val = write_array b iicb i2c_addr (reg ∷ val ∷ [])

  abbrev pub i2c_read_reg : k.Bus → ℕ → ℕ → ℕ × k.Bus
  i2c_read_reg b i2c_addr reg =
      let (_, got, b') = read_array (write_array b iicb i2c_addr (reg ∷ [])).1 iicb i2c_addr 1 in
      (get_or got 0 0, b')

  -- rtlsdr_i2c_write() and rtlsdr_i2c_write_fn(): the length is cut to a uint8_t
  abbrev pub i2c_write : k.Bus → ℕ → List ℕ → ℤ × k.Bus
  i2c_write b i2c_addr bytes = write_array b iicb i2c_addr (take (length bytes % 256) bytes)

  -- rtlsdr_i2c_read() and rtlsdr_i2c_read_fn()
  abbrev pub i2c_read : k.Bus → ℕ → ℕ → ℤ × List ℕ × k.Bus
  i2c_read b i2c_addr len = read_array b iicb i2c_addr (len % 256)

  abbrev pub read_reg : k.Bus → ℕ → ℕ → ℕ → ℕ × k.Bus
  read_reg b block addr len =
      let (_, got, b') = k.receive b addr (block * 256) len in (reg_value (k.junk b) got, b')

  abbrev pub write_reg : k.Bus → ℕ → ℕ → ℕ → ℕ → ℤ × k.Bus
  write_reg b block addr val len = k.send b addr (bit_or (block * 256) 0x10) (reg_bytes val len)

  abbrev pub demod_read_reg : k.Bus → ℕ → ℕ → ℕ → ℕ × k.Bus
  demod_read_reg b page addr len =
      let (_, got, b') = k.receive b (bit_or (addr * 256 % 65536) 0x20) page len in
      (reg_value (k.junk b) got, b')

  -- each write is followed by a read of register 1 of page 10, whose value is dropped
  abbrev pub demod_write_reg : k.Bus → ℕ → ℕ → ℕ → ℕ → ℤ × k.Bus
  demod_write_reg b page addr val len =
      let (r, b1) =
        k.send b (bit_or (addr * 256 % 65536) 0x20) (bit_or 0x10 page) (reg_bytes val len) in
      let b2 = (demod_read_reg b1 0x0a 0x01 1).1 in
      if r ==ℤ pos len then (pos 0, b2) else (negsuc 0, b2)

  -- r & ~gpio on an int: ~gpio has all bits above the low byte
  unfoldable pub set_gpio_bit : k.Bus → ℕ → Bool → k.Bus
  set_gpio_bit b gpio val =
      let bit = 2 ^ gpio % 256 in
      let (r, b1) = read_reg b sysb gpo 1 in
      (write_reg b1 sysb gpo (if val then bit_or r bit else bit_and r (65535 - bit)) 1).1

  unfoldable pub set_gpio_output : k.Bus → ℕ → k.Bus
  set_gpio_output b gpio =
      let bit = 2 ^ gpio % 256 in
      let (r, b1) = read_reg b sysb gpd 1 in
      let b2 = (write_reg b1 sysb gpd (bit_and r (65535 - bit)) 1).1 in
      let (r2, b3) = read_reg b2 sysb gpoe 1 in (write_reg b3 sysb gpoe (bit_or r2 bit) 1).1

  unfoldable pub set_i2c_repeater : k.Bus → Bool → k.Bus
  set_i2c_repeater b on = (demod_write_reg b 1 0x01 (if on then 0x18 else 0x10) 1).1

  -- `force_bt` is that field of the device
  unfoldable pub set_bias_tee_gpio : Bool → k.Bus → ℕ → Bool → ℤ × k.Bus
  unfolding set_gpio_bit set_gpio_output
  set_bias_tee_gpio force_bt b gpio on =
      (pos 0, set_gpio_bit (set_gpio_output b gpio) gpio (gpio == 0 && force_bt || on))

  unfoldable pub set_bias_tee : Bool → k.Bus → Bool → ℤ × k.Bus
  unfolding set_bias_tee_gpio
  set_bias_tee force_bt b on = set_bias_tee_gpio force_bt b 0 on

  unfoldable pub set_testmode : k.Bus → Bool → ℤ × k.Bus
  set_testmode b on = demod_write_reg b 0 0x19 (if on then 0x03 else 0x05) 1

  unfoldable pub set_agc_mode : k.Bus → Bool → ℤ × k.Bus
  set_agc_mode b on = demod_write_reg b 0 0x19 (if on then 0x25 else 0x05) 1

  -- rtlsdr_reset_buffer()
  unfoldable pub reset_buffer : k.Bus → ℤ × k.Bus
  reset_buffer b =
      let b1 = (write_reg b usbb usb_epa_ctl 0x1002 2).1 in
      (pos 0, (write_reg b1 usbb usb_epa_ctl 0x0000 2).1)
