-- ===== src/Lib.antt =====
-- The RTL-SDR driver library for Android: rtl-sdr/ is the librtlsdr of osmocom with changes,
-- libusb-andro/ the libusb it runs on, and android/ the bridge that the app calls. Modelled are the
-- asynchronous streaming, the register access, the control functions, the EEPROM access and the FIR
-- coefficients of rtl-sdr/src/librtlsdr.c, the five tuner drivers
-- rtl-sdr/src/tuner_*.c and the bridge android/librtlsdr_andro.c.
--
-- Streaming. A run of rtlsdr_read_async() allocates and submits transfers, waits for libusb events in
-- a loop, and when the run is cancelled or the device is lost cancels the transfers, drains what is
-- still in flight, frees the buffers and says how it ended. libusb calls _libusb_callback() for each
-- transfer that is done, from within a wait; the callback hands the samples to the application and
-- submits the transfer again. An application cancels by rtlsdr_cancel_async(), from its callback.
--   Usb: libusb as a parameter `Host`: its context, submission, cancellation, a wait for events, which
--     then reaps completions one by one, and the release of a transfer, which faults on one in flight.
--     `IsLibusb` is what libusb documents: how each call changes the number of transfers in flight.
--     A wait also says whether rtlsdr_cancel_async() was called meanwhile, from another thread.
--   Stream: struct rtlsdr_dev (`Dev`), the callback (`libusb_callback`), a wait with its callbacks
--     (`handle_events`), _rtlsdr_alloc_async_buffers() and _rtlsdr_free_async_buffers().
--   Stream/ReadAsync: rtlsdr_read_async() itself: `start` up to the event loop, `event_loop`, `drain`
--     and `finish`. The result is a fault, a return, or a run that still streams when the passes of the
--     event loop are used up; that number is an argument, as a healthy run has no end. The drain has
--     the 100 passes of the source.
--   Stream/Accounting, Stream/WindDown, Stream/Lost, Stream/ReadAsync/...: the proofs.
--
-- Tuner. Each public call changes registers through a shadow copy, which saves transfers and which
-- masked writes read. Commands work on the driver's state and the bus; `ok` is a return with 0 or more,
-- `err` a return with a negative code, `hang` a loop that makes no progress.
--   I2c: rtlsdr_i2c_write_fn(), rtlsdr_i2c_read_fn() and rtlsdr_set_bias_tee_gpio() as parameters; they
--     are thin layers over USB control transfers. `IsChip` has the register file behind them.
--   R82xx: struct r82xx_priv, and how commands are put together. R82xx/Tables: the constant tables.
--   R82xx/Regs: shadow_store(), shadow_equal(), r82xx_write() and the calls that are made of it,
--     r82xx_read(). The loop of r82xx_write() has one round more than there are bytes.
--   R82xx/Mux, R82xx/Pll, R82xx/Gain, R82xx/Bandwidth, R82xx/Freq, R82xx/Init: r82xx_set_mux(),
--     r82xx_set_pll(), r82xx_set_gain(), r82xx_set_bandwidth(), r82xx_set_freq(), and r82xx_init(),
--     r82xx_standby() with what they call. The loops of r82xx_set_pll() over the divider have 7 and 8
--     rounds, enough for a byte that doubles or halves. R82xx/Xtal: r82xx_xtal_check(), which nothing
--     calls. R82xx/Model: rtlsdr_check_dongle_model().
--   R82xx/Regs/Sync, R82xx/Regs/Sound and the modules below the others: the proofs; R82xx/Calls has
--     them for the public calls.
--
-- E4000, without a shadow: each masked write reads its register first.
--   E4k: e4k_compute_pll_params(), closest_arr_idx() and choose_rf_filter() of
--     rtl-sdr/src/tuner_e4k.c, and their proofs in E4k/Closest and E4k/Accuracy.
--   E4k/Regs: struct e4k_state (`E4kState`), e4k_reg_read() to e4k_field_read(); `IsE4k` in
--     E4k/Regs/Masked has the registers of a chip whose reads succeed.
--   E4k/Filters, E4k/Gains, E4k/Setup: the filters and the tuning, the gains, and DC offset, standby and
--     initialisation, each with the e4000_ functions of librtlsdr.c that call them.
--
-- FC0012, FC0013 and FC2580, without state of their own: a failure is -1, or a result that is false.
--   Fitipower: what rtl-sdr/src/tuner_fc0012.c and rtl-sdr/src/tuner_fc0013.c have in common, which is
--     the same text in both: registers, PLL, calibration. Fitipower/Fc0012, Fitipower/Fc0013: the rest.
--     Fitipower/Pll, Fitipower/Programmed, Fitipower/Calibrated and the modules below the two chips: the
--     PLL at 28.8 MHz, and what a successful call leaves in the chip.
--   Fc2580: registers and PLL of rtl-sdr/src/tuner_fc2580.c; Fc2580/Calls: filter, bands and calls, the
--     loop of the filter with its 5 rounds. Fc2580/Exact, Fc2580/Programmed, Fc2580/Makes: the proofs.
--     `AllOrNothing` of I2c: no write of up to 255 bytes is cut short with a code that is not negative.
--
-- Device. The control functions write the registers of the demodulator and call the tuner through an
-- interface of function pointers. They are over libusb_control_transfer().
--   Registers: that call as a parameter `Control`, with what an uninitialised buffer holds, and on it
--     rtlsdr_read_reg(), rtlsdr_write_reg(), rtlsdr_demod_write_reg(), the I2C calls, the GPIO pins and
--     the bias tee. Registers/Gpio has the system registers behind it (`IsSystem`), Registers/Tuner the
--     tuner's registers (`IsTuner`); there the I2C calls take the place that I2c leaves open.
--     Registers/Baseband: rtlsdr_init_baseband(), rtlsdr_deinit_baseband().
--   Device: the control fields of struct rtlsdr_dev (`Radio`) and struct rtlsdr_tuner_iface (`Tuner`),
--     a parameter, whose operations may be missing. A frequency that is corrected by the ppm is a
--     parameter too (`apply_ppm`), as it is arithmetic on doubles.
--   Device/Clock, Device/Tune, Device/Settings: the clocks and the intermediate frequency; the center
--     frequency and direct sampling; sample rate, bandwidth, gains, offset tuning, correction and
--     crystals. rtlsdr_set_center_freq() and _rtlsdr_set_direct_sampling() call each other; the calls
--     are counted.
--   Device/Tuners, Device/R820t: tuners[] of librtlsdr.c, the drivers behind that interface on
--     the I2C calls of Registers. Device/R820t/Requests: a sequence of calls on an R820T or R828D;
--     Device/R820t/Steady and Tuned have the proofs of their parts. Device/Tuners/Made and Makes:
--     what rtlsdr_set_center_freq() leaves in the other tuners but the E4000.
--   Device/Search: find_known_device() and the loops over the devices of libusb. Device/Search/Strings:
--     rtlsdr_get_device_usb_strings() and rtlsdr_get_usb_strings(), over what libusb answers
--     (`StringHost`), with the log of the calls that open and release.
--   Device/Open: rtlsdr_open() and rtlsdr_close() over libusb as a parameter (`Libusb`), with the list of
--     what is held; to release what is not held is a fault. Device/Probe, Device/Held: the search for
--     the tuner and its first settings, and what else rtlsdr_open() and rtlsdr_open2() share.
--     Device/Open/Released, Device/Open/RoundTrip: the proofs.
--   Convenience: nearest_gain() of rtl-sdr/src/convenience/convenience.c and the lists of gains;
--     Convenience/Calls: set_gain_by_perc() and the calls that set a mode of the device.
--     Convenience/Search: verbose_device_search(), over strtol() and over what
--     rtlsdr_get_device_usb_strings() leaves in the buffer of the serial.
--
-- Bridge, android/librtlsdr_andro.c.
--   Bridge: rtlsdr_cancel_async_save() and the wait of rtlsdr_close(); what other threads do to the
--     device in a millisecond is a parameter, and the loops have the 1000 and 2000 rounds of the source.
--   Bridge/Open: rtlsdr_open2() over libusb as a parameter, with the same list of what is held.
--
-- EEPROM and FIR.
--   Eeprom: get_string_descriptor(), where a read outside of the image is `none`; its loop has 128
--     rounds, as it advances by 2 in 256 bytes. Eeprom/Store: rtlsdr_read_eeprom() and
--     rtlsdr_write_eeprom() over the transfers of Registers; `IsEeprom` has the cells of the chip behind
--     them.
--   Fir: rtlsdr_set_fir(), with rtlsdr_demod_write_reg() as a parameter.
--
-- Prelude: names that all share, Boolean tests, C integers, lists and the bits of a number.
-- Stream/ReadAsync/Tests, R82xx/Tests, E4k/Tests, E4k/Chip, Eeprom/Tests, Fir/Tests, Registers/Tests,
-- Device/Tests, Device/Open/Tests, Device/R820t/Tests, Device/Tuners/Tests, Fitipower/Tests,
-- Fc2580/Tests, Convenience/Tests and Bridge/Tests run the code on concrete hosts and buses.
--
-- Not modelled: messages, delays, a null device, and, except in rtlsdr_open() and rtlsdr_open2(), a
-- failed malloc(); the transfer buffer of struct r82xx_priv; the rest of convenience.c; and
-- libusb-andro/, a copy of another library.
pub mod Prelude
pub mod Bridge
pub mod Convenience
pub mod Device
pub mod E4k
pub mod Eeprom
pub mod Fc2580
pub mod Fir
pub mod Fitipower
pub mod I2c
pub mod R82xx
pub mod Registers
pub mod Usb
pub mod Stream
