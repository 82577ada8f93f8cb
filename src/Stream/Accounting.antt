-- ===== src/Stream/Accounting.antt =====
-- The in-flight counter `xfer_outstanding` of rtl-sdr/src/librtlsdr.c against the number of transfers
-- that libusb has in flight, through the callback, the waits and rtlsdr_read_async().
use ebc_sdr_native.Prelude.{ℕ, zero, suc, ◌+◌, ◌≡◌, refl, Option, none, some, List, arith}
use ebc_sdr_native.Prelude.Int.{pos, pos_part, neg_part, ◌-ℤ◌, -ℤ_parts}
use ebc_sdr_native.Usb.{TransferStatus, completed, cancelled, Completion, Wait, Host, IsLibusb}
use ebc_sdr_native.Stream.{
  Dev, cancel_async, resubmit, call_back, transfer_failed, dispatch, libusb_callback, reap_each,
  handle_events,
}

module _ (h : Host) (u : IsLibusb h) (stale : ℕ) where
  -- As integers, `flying = xfer_outstanding + stale`: the counter is right but for the transfers
  -- that an earlier run left in flight.
  abbrev pub Balanced : Dev h → Type 0
  Balanced d = u.flying d.ctx + neg_part d.xfer_outstanding ≡ pos_part d.xfer_outstanding + stale

  pub cancel_async-Balanced : (d : Dev h) → Balanced d → Balanced (cancel_async h d).1
  unfolding cancel_async
  cancel_async-Balanced d b = ground arith

  pub resubmit-Balanced : (i : ℕ) (d : Dev h) → Balanced d → Balanced (resubmit h i d)
  unfolding resubmit
  resubmit-Balanced i d b =
      ground (arith, u.submit_ok d.ctx i, u.submit_error d.ctx i, u.submit_zero d.ctx i)

  pub call_back-Balanced : (p : List ℕ) (d : Dev h) → Balanced d → Balanced (call_back h p d)
  unfolding call_back
  call_back-Balanced p d b = ground arith

  pub transfer_failed-Balanced :
      (st : TransferStatus) (d : Dev h) → Balanced d → Balanced (transfer_failed h st d)
  unfolding transfer_failed
  transfer_failed-Balanced st d b = ground arith

  pub dispatch-Balanced :
      (st : TransferStatus) (i : ℕ) (p : List ℕ) (d : Dev h)
      → Balanced d
      → Balanced (dispatch h st i p d)
  unfolding dispatch
  dispatch-Balanced completed i p d b =
      resubmit-Balanced i (call_back h p d) (call_back-Balanced p d b)
  dispatch-Balanced cancelled i p d b = b
  dispatch-Balanced st i p d b = transfer_failed-Balanced st d b

  -- a reaped transfer has left libusb before its callback runs
  libusb_callback-Balanced :
      (t : Completion) (d : Dev h)
      → suc (u.flying d.ctx) + neg_part d.xfer_outstanding ≡ pos_part d.xfer_outstanding + stale
      → Balanced (libusb_callback h t d)
  unfolding libusb_callback
  libusb_callback-Balanced t d b =
      dispatch-Balanced t.status t.slot t.payload
        (record d { xfer_outstanding = d.xfer_outstanding -ℤ pos 1 })
        (omega (arith, -ℤ_parts d.xfer_outstanding (pos 1)))

  pub reap_each-Balanced : (n : ℕ) (d : Dev h) → Balanced d → Balanced (reap_each h n d)
  unfolding reap_each
  reap_each-Balanced zero d b = b
  reap_each-Balanced (suc n) d b = go (h.reap d.ctx).0 refl (reap_each-Balanced n)
    where
      go :
          (t : Option Completion)
          → (h.reap d.ctx).0 ≡ t
          → ((d' : Dev h) → Balanced d' → Balanced (reap_each h n d'))
          → Balanced (reap_each h (suc n) d)
      go none e ih = rw (e, reap_each) (omega (arith, u.reap_none d.ctx e))
      go (some t) e ih =
          rw (e, reap_each)
            (ih _ (libusb_callback-Balanced t _ (omega (arith, u.reap_some d.ctx e))))

  pub handle_events-Balanced :
      (w : Wait) (d : Dev h) → Balanced d → Balanced (handle_events h w d).1
  unfolding handle_events
  handle_events-Balanced w d b =
      reap_each-Balanced (h.events d.ctx w).0.count _ (ground (arith, u.events_flying d.ctx w))
