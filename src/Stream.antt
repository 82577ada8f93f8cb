-- ===== src/Stream.antt =====
-- The streaming core of rtl-sdr/src/librtlsdr.c: rtlsdr_read_async(), its transfer callback, the
-- drain before the buffers are released, and rtlsdr_cancel_async().
pub mod Accounting
pub mod Lost
pub mod ReadAsync
pub mod WindDown
use ebc_sdr_native.Prelude.{
  ℕ, zero, suc, ◌+◌, ◌*◌, ◌%◌, Bool, true, false, not, ◌&&◌, ◌||◌, Option, none, some, List, ltb,
  leb, ◌==◌, if◌then◌else◌, get_elem?, set, replicate,
}
use ebc_sdr_native.Prelude.Int.{ℤ, pos, negsuc, ◌+ℤ◌, ◌-ℤ◌, is_neg, ◌==ℤ◌}
use ebc_sdr_native.Usb.{
  TransferStatus, completed, error, cancelled, no_device, Completion, Batch, Wait, one_second,
  ten_ms, no_wait, Host,
}

pub data AsyncStatus : Type 0 where
  inactive canceling running : AsyncStatus

abbrev pub is_inactive : AsyncStatus → Bool
is_inactive inactive = true
is_inactive _ = false

abbrev pub is_canceling : AsyncStatus → Bool
is_canceling canceling = true
is_canceling _ = false

abbrev pub is_running : AsyncStatus → Bool
is_running running = true
is_running _ = false

abbrev pub is_error : TransferStatus → Bool
is_error error = true
is_error _ = false

abbrev pub is_no_device : TransferStatus → Bool
is_no_device no_device = true
is_no_device _ = false

-- the fields of struct rtlsdr_dev that streaming uses; `xfer` holds each transfer's `status`
pub record Dev (h : Host) : Type 0 where
  pub ctx : h.Ctx
  pub app : h.App
  pub xfer_buf_num : ℕ
  pub xfer_buf_len : ℕ
  pub xfer : Option (List TransferStatus)
  pub xfer_buf : Bool
  pub async_status : AsyncStatus
  pub async_cancel : Bool
  pub xfer_outstanding : ℤ
  pub dev_lost : Bool
  pub xfer_errors : ℕ

abbrev pub default_buf_number : ℕ
default_buf_number = 15

abbrev pub default_buf_length : ℕ
default_buf_length = 16 * 32 * 512

-- LIBUSB_ERROR_INTERRUPTED is -10
abbrev pub is_interrupted : ℤ → Bool
is_interrupted r = r ==ℤ negsuc 9

module _ (h : Host) where
  unfoldable pub cancel_async : Dev h → ℤ × Dev h
  cancel_async d =
      if is_running d.async_status
      then (pos 0, record d { async_status = canceling; async_cancel = true })
      else (negsuc 1, d)

  -- the resubmission in the branch of a completed transfer
  pub resubmit : ℕ → Dev h → Dev h
  unfolding cancel_async ◌+ℤ◌
  resubmit i d =
      if is_running d.async_status
      then (let (rc, c) = h.submit d.ctx i in
          let d' : Dev h = record d { ctx = c } in
          if rc ==ℤ pos 0
          then record d' { xfer_outstanding = d'.xfer_outstanding +ℤ pos 1 }
          else (cancel_async (record d' { dev_lost = true })).1)
      else d

  -- dev->cb(...), which may itself call rtlsdr_cancel_async()
  pub call_back : List ℕ → Dev h → Dev h
  unfolding cancel_async
  call_back payload d =
      let (stop, a) = h.deliver d.app payload in
      let d' : Dev h = record d { app = a } in if stop then (cancel_async d').1 else d'

  -- the branch of a status that is neither completed nor cancelled
  pub transfer_failed : TransferStatus → Dev h → Dev h
  transfer_failed st d =
      let errors = if is_error st then d.xfer_errors + 1 else d.xfer_errors in
      let d' : Dev h = record d { xfer_errors = errors } in
      if leb d.xfer_buf_num errors || is_no_device st
      then record d' { dev_lost = true; async_status = canceling }
      else d'

  -- _libusb_callback, behind its first line
  pub dispatch : TransferStatus → ℕ → List ℕ → Dev h → Dev h
  unfolding resubmit call_back transfer_failed
  dispatch completed i payload d = record (resubmit i (call_back payload d)) { xfer_errors = 0 }
  dispatch cancelled i payload d = d
  dispatch st i payload d = transfer_failed st d

  pub libusb_callback : Completion → Dev h → Dev h
  unfolding dispatch ◌-ℤ◌
  libusb_callback t d =
      dispatch t.status t.slot t.payload
        (record d { xfer_outstanding = d.xfer_outstanding -ℤ pos 1 })

  -- libusb stores the status in the transfer before it calls back
  abbrev set_status : Completion → Option (List TransferStatus) → Option (List TransferStatus)
  set_status t none = none
  set_status t (some xs) = some (set xs t.slot t.status)

  -- the transfers that one wait reaps, each with its callback
  pub reap_each : ℕ → Dev h → Dev h
  unfolding libusb_callback
  reap_each zero d = d
  reap_each (suc n) d =
      let (t, c) = h.reap d.ctx in
      let d' : Dev h = record d { ctx = c } in
      elim t [
        | none ↦ d'
        | some t ↦ reap_each n (libusb_callback t (record d' { xfer = set_status t d.xfer }))
      ]

  -- libusb_handle_events_timeout_completed
  pub handle_events : Wait → Dev h → ℤ × Dev h
  unfolding reap_each cancel_async
  handle_events w d =
      let (b, c) = h.events d.ctx w in
      let d' : Dev h = record d { ctx = c } in
      (b.rc, reap_each b.count (if b.cancel then (cancel_async d').1 else d'))

  pub alloc_async_buffers : Dev h → ℤ × Dev h
  alloc_async_buffers d =
      let d' : Dev h = elim d.xfer [
        | none ↦ record d { xfer = some (replicate d.xfer_buf_num completed) }
        | some _ ↦ d
      ] in
      if d'.xfer_buf then (negsuc 1, d') else (pos 0, record d' { xfer_buf = true })

  -- libusb_free_transfer on the transfers from `i` on
  pub free_each : ℕ → ℕ → h.Ctx → Option h.Ctx
  free_each zero i c = some c
  free_each (suc k) i c = elim (h.free_transfer c i) [
    | none ↦ none
    | some c' ↦ free_each k (i + 1) c'
  ]

  -- `none` is a fault: a transfer in flight is freed
  pub free_async_buffers : Dev h → Option (ℤ × Dev h)
  unfolding free_each
  free_async_buffers d =
      if d.xfer_outstanding ==ℤ pos 0
      then elim d.xfer [
        | none ↦ some (pos 0, record d { xfer_buf = false })
        | some _ ↦ elim (free_each d.xfer_buf_num 0 d.ctx) [
          | none ↦ none
          | some c ↦ some (pos 0, record d { ctx = c; xfer = none; xfer_buf = false })
        ]
      ]
      else some (negsuc 1, record d { xfer = none; xfer_buf = false })
