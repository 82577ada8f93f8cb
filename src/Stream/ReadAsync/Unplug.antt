-- ===== src/Stream/ReadAsync/Unplug.antt =====
-- The event loop of rtlsdr_read_async() in rtl-sdr/src/librtlsdr.c ends when the device is lost.
use ebc_sdr_native.Prelude.{ℕ, zero, suc, ◌+◌, ◌≡◌, refl, true, false, arith, Bool-cases, inl, inr}
use ebc_sdr_native.Prelude.Int.{is_neg}
use ebc_sdr_native.Usb.{Completion, no_wait, one_second, Host}
use ebc_sdr_native.Stream.{
  inactive, is_inactive, is_canceling, is_interrupted, Dev, is_no_device, handle_events,
}
use ebc_sdr_native.Stream.Lost.{
  Hands, awake, Lost, handle_events-Lost, handle_events-active, handle_events-no_device,
}
use ebc_sdr_native.Stream.ReadAsync.{
  Loop, cancel_one, cancel_all, check_lost, cancel_branch, round, event_loop,
}

module _ (h : Host) where
  cancel_one-Lost : (i : ℕ) (s : Loop h) → Lost h s.dev → Lost h (cancel_one h i s).dev
  unfolding cancel_one
  cancel_one-Lost i s l =
      ground (arith, handle_events-Lost h no_wait (record s.dev { ctx = (h.cancel s.dev.ctx i).1 }))

  cancel_all-Lost : (k i : ℕ) (s : Loop h) → Lost h s.dev → Lost h (cancel_all h k i s).dev
  unfolding cancel_all
  cancel_all-Lost zero i s l = l
  cancel_all-Lost (suc k) i s l =
      cancel_all-Lost k (i + 1) (cancel_one h i s) (cancel_one-Lost i s l)

  cancel_branch-leaves : (s : Loop h) → Lost h s.dev → (cancel_branch h s).0 ≡ true
  unfolding cancel_branch
  cancel_branch-leaves s l =
      ground (arith, cancel_all-Lost s.dev.xfer_buf_num 0 (record s { next_status = inactive }) l)

  check_lost-canceling :
      (d : Dev h)
      → Lost h d
      → is_inactive d.async_status ≡ false
      → (is_canceling (check_lost h d).async_status ≡ true) × Lost h (check_lost h d)
  unfolding check_lost
  check_lost-canceling d l e = ground arith

  handle_events-rc :
      (s : Loop h) → (handle_events h one_second s.dev).0 ≡ (h.events s.dev.ctx one_second).0.rc
  unfolding handle_events
  handle_events-rc s = refl

  round-leaves :
      (s : Loop h)
      → is_neg (handle_events h one_second s.dev).0 ≡ false
      → Lost h (handle_events h one_second s.dev).1
      → is_inactive s.dev.async_status ≡ false
      → (round h s).0 ≡ true
  unfolding round
  round-leaves s ok l e =
      let d : Dev h = (handle_events h one_second s.dev).1 in
      let (c, l') = check_lost-canceling d l (handle_events-active h one_second s.dev e) in
      let s2 : Loop h = record s {
        dev = check_lost h d;
        r = (handle_events h one_second s.dev).0;
      } in
      rw (ok, c) (cancel_branch-leaves s2 l')

  round-fails :
      (s : Loop h)
      → is_neg (handle_events h one_second s.dev).0 ≡ true
      → is_interrupted (handle_events h one_second s.dev).0 ≡ false
      → (round h s).0 ≡ true
  unfolding round
  round-fails s bad e = rw (bad, e) refl

  -- If one of the transfers that the wait of a pass hands over, the first or a later one, says that
  -- the device is gone, then the event loop has been left after that pass, whatever else happens in
  -- it, unless that wait returns LIBUSB_ERROR_INTERRUPTED.
  pub event_loop-unplugged :
      (fuel : ℕ) (s : Loop h) (t : Completion)
      → is_interrupted (h.events s.dev.ctx one_second).0.rc ≡ false
      → Hands h t (h.events s.dev.ctx one_second).0.count (awake h one_second s.dev)
      → is_no_device t.status ≡ true
      → (event_loop h (suc fuel) s).0 ≡ true
  unfolding event_loop
  event_loop-unplugged fuel s t whole hands gone =
      elim (Bool-cases (is_inactive s.dev.async_status)) [
        | inl idle ↦ rw (idle, event_loop)
        | inr active ↦
            let l = handle_events-no_device h one_second s.dev t hands gone in
            let left : (round h s).0 ≡ true =
              elim (Bool-cases (is_neg (handle_events h one_second s.dev).0)) [
                | inl bad ↦ round-fails s bad (rw handle_events-rc whole)
                | inr ok ↦ round-leaves s ok l active
              ] in
            rw (active, event_loop, left)
      ]
