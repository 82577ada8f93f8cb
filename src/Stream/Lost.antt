-- ===== src/Stream/Lost.antt =====
-- What the callback of rtl-sdr/src/librtlsdr.c does once the device is lost, and what a wait never
-- undoes.
use ebc_sdr_native.Prelude.{ℕ, suc, ◌≡◌, true, false, Option, some, List, arith, if◌then◌else◌}
use ebc_sdr_native.Usb.{TransferStatus, completed, cancelled, Completion, Wait, Host}
use ebc_sdr_native.Stream.{
  Dev, is_inactive, is_no_device, cancel_async, dispatch, libusb_callback, set_status, reap_each,
  handle_events,
}
use ebc_sdr_native.Stream.WindDown.{reap_each_inv, handle_events_inv}

module _ (h : Host) where
  abbrev pub Lost : Dev h → Type 0
  Lost d = d.dev_lost ≡ true

  dispatch-Lost :
      (st : TransferStatus) (i : ℕ) (p : List ℕ) (d : Dev h) → Lost d → Lost (dispatch h st i p d)
  unfolding dispatch
  dispatch-Lost completed i p d l = ground arith
  dispatch-Lost cancelled i p d l = l
  dispatch-Lost st i p d l = ground arith

  libusb_callback-Lost :
      (t : Completion) (x : Option (List TransferStatus)) (d : Dev h)
      → Lost d
      → Lost (libusb_callback h t (record d { xfer = x }))
  unfolding libusb_callback
  libusb_callback-Lost t x d l = dispatch-Lost t.status t.slot t.payload _ l

  cancel_async-Lost : (d : Dev h) → Lost d → Lost (cancel_async h d).1
  unfolding cancel_async
  cancel_async-Lost d l = ground arith

  -- nothing in a wait clears `dev_lost`
  pub handle_events-Lost : (w : Wait) (d : Dev h) → Lost d → Lost (handle_events h w d).1
  handle_events-Lost = handle_events_inv h Lost (λ c d l. l) libusb_callback-Lost cancel_async-Lost

  dispatch-active :
      (st : TransferStatus) (i : ℕ) (p : List ℕ) (d : Dev h)
      → is_inactive d.async_status ≡ false
      → is_inactive (dispatch h st i p d).async_status ≡ false
  unfolding dispatch
  dispatch-active completed i p d e = ground arith
  dispatch-active cancelled i p d e = e
  dispatch-active st i p d e = ground arith

  libusb_callback-active :
      (t : Completion) (x : Option (List TransferStatus)) (d : Dev h)
      → is_inactive d.async_status ≡ false
      → is_inactive (libusb_callback h t (record d { xfer = x })).async_status ≡ false
  unfolding libusb_callback
  libusb_callback-active t x d e = dispatch-active t.status t.slot t.payload _ e

  cancel_async-active :
      (d : Dev h)
      → is_inactive d.async_status ≡ false
      → is_inactive (cancel_async h d).1.async_status ≡ false
  unfolding cancel_async
  cancel_async-active d e = ground arith

  -- nothing in a wait sets INACTIVE
  pub handle_events-active :
      (w : Wait) (d : Dev h)
      → is_inactive d.async_status ≡ false
      → is_inactive (handle_events h w d).1.async_status ≡ false
  handle_events-active =
      handle_events_inv h (λ d. is_inactive d.async_status ≡ false) (λ c d e. e)
        libusb_callback-active cancel_async-active

  dispatch-no_device :
      (st : TransferStatus) (i : ℕ) (p : List ℕ) (d : Dev h)
      → is_no_device st ≡ true
      → Lost (dispatch h st i p d)
  unfolding dispatch
  dispatch-no_device completed i p d e = cc
  dispatch-no_device cancelled i p d e = cc
  dispatch-no_device st i p d e = ground arith

  -- among the transfers that `n` reaps hand over, first or after the callbacks of others, is `t`
  pub data Hands (t : Completion) : ℕ → Dev h → Type 0 where
    first : {n : ℕ} {d : Dev h} → (h.reap d.ctx).0 ≡ some t → Hands t (suc n) d
    later :
        {n : ℕ} {d : Dev h} {t' : Completion}
        → (h.reap d.ctx).0 ≡ some t'
        → Hands t n (
            libusb_callback h t'
              (record d { ctx = (h.reap d.ctx).1; xfer = set_status h t' d.xfer }))
        → Hands t (suc n) d

  reap_each-no_device :
      {t : Completion} {n : ℕ} {d : Dev h}
      → Hands t n d
      → is_no_device t.status ≡ true
      → Lost (reap_each h n d)
  unfolding reap_each libusb_callback
  reap_each-no_device {t = t} {n = suc n} {d = d} (first e) gone =
      rw (e, reap_each)
        (reap_each_inv h Lost (λ c d l. l) libusb_callback-Lost cancel_async-Lost n _
          (dispatch-no_device t.status t.slot t.payload _ gone))
  reap_each-no_device (later e m) gone = rw (e, reap_each) (reap_each-no_device m gone)

  -- the device when the transfers of a wait are reaped: another thread may have cancelled
  abbrev pub awake : Wait → Dev h → Dev h
  awake w d =
      let d' : Dev h = record d { ctx = (h.events d.ctx w).1 } in
      if (h.events d.ctx w).0.cancel then (cancel_async h d').1 else d'

  -- a wait that hands over a transfer of an unplugged device leaves the device lost
  pub handle_events-no_device :
      (w : Wait) (d : Dev h) (t : Completion)
      → Hands t (h.events d.ctx w).0.count (awake w d)
      → is_no_device t.status ≡ true
      → Lost (handle_events h w d).1
  unfolding handle_events
  handle_events-no_device w d t m gone = reap_each-no_device m gone
