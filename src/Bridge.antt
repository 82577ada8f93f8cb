-- ===== src/Bridge.antt =====
-- The end of a run as the bridge android/librtlsdr_andro.c and rtlsdr_close() of
-- rtl-sdr/src/librtlsdr.c wait for it. What the other threads do to the device in the millisecond of a
-- usleep(1000) is a parameter, `pass`.
pub mod Open
pub mod Waiting
pub mod Tests
use ebc_sdr_native.Prelude.{ℕ, zero, suc, Bool, true, false, not, ◌&&◌, ◌||◌, if◌then◌else◌}
use ebc_sdr_native.Prelude.Int.{ℤ, pos}
use ebc_sdr_native.Usb.{Host}
use ebc_sdr_native.Stream.{Dev, AsyncStatus, is_inactive, is_running, cancel_async}

abbrev pub my_timeout : ℕ
my_timeout = 1000

-- wait_ms of rtlsdr_close()
abbrev pub close_timeout : ℕ
close_timeout = 2000

module _ {h : Host} (pass : Dev h → Dev h) where
  abbrev pub is_over : Dev h → Bool
  is_over d = is_inactive d.async_status || d.dev_lost

  -- the loop of rtlsdr_cancel_async_save() with `n` rounds to go: the rounds it takes, and the device
  unfoldable pub cancel_wait : ℕ → Dev h → ℕ × Dev h
  cancel_wait zero d = (0, d)
  cancel_wait (suc n) d = elim (is_over (pass d)) [
    | true ↦ (1, pass d)
    | false ↦ let (rounds, d') = cancel_wait n (pass d) in (suc rounds, d')
  ]

  -- the code, the rounds and the device
  unfoldable pub cancel_async_save : Dev h → ℤ × ℕ × Dev h
  unfolding cancel_async cancel_wait
  cancel_async_save d = elim (is_running d.async_status && not d.dev_lost) [
    | true ↦
        let (r, d1) = cancel_async h d in
        let (rounds, d2) = cancel_wait my_timeout d1 in (r, rounds, d2)
    | false ↦ (pos 0, 0, d)
  ]

  -- the loop of rtlsdr_close(), which tests before it sleeps
  unfoldable pub close_loop : ℕ → Dev h → ℕ × Dev h
  close_loop zero d = (0, d)
  close_loop (suc n) d = elim (is_inactive d.async_status) [
    | true ↦ (0, d)
    | false ↦ let (rounds, d') = close_loop n (pass d) in (suc rounds, d')
  ]

  -- rtlsdr_close() up to the end of its wait: a run that still streams is cancelled, and then the
  -- thread in libusb is woken by `interrupt`
  unfoldable pub close_wait : (Dev h → Dev h) → Dev h → ℕ × Dev h
  unfolding cancel_async close_loop
  close_wait interrupt d =
      let d1 = if is_running d.async_status then (cancel_async h d).1 else d in
      close_loop close_timeout (interrupt d1)

unfoldable pub cancel_async_save_fast : {h : Host} → Dev h → ℤ × Dev h
unfolding cancel_async
cancel_async_save_fast d =
    if is_running d.async_status && not d.dev_lost then cancel_async _ d else (pos 0, d)

abbrev pub is_dev_lost : {h : Host} → Dev h → Bool
is_dev_lost d = d.dev_lost
