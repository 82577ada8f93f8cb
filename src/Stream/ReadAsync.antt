-- ===== src/Stream/ReadAsync.antt =====
-- rtlsdr_read_async() of rtl-sdr/src/librtlsdr.c: the submission of the transfers, the event loop,
-- the bounded drain and the release of the buffers.
pub mod Loops
pub mod Drain
pub mod Safety
mod Tests
pub mod Unplug
use ebc_sdr_native.Prelude.{
  ℕ, zero, suc, ◌+◌, ◌%◌, Bool, true, false, not, ◌&&◌, ◌||◌, Option, none, some, ltb, ◌==◌,
  if◌then◌else◌, get_elem?,
}
use ebc_sdr_native.Prelude.Int.{ℤ, pos, negsuc, ◌+ℤ◌, is_neg, ◌==ℤ◌}
use ebc_sdr_native.Usb.{TransferStatus, cancelled, one_second, ten_ms, no_wait, Host}
use ebc_sdr_native.Stream.{
  AsyncStatus, inactive, canceling, running, is_inactive, is_canceling, is_running, Dev,
  default_buf_number, default_buf_length, is_interrupted, handle_events, alloc_async_buffers,
  free_async_buffers,
}

-- the local variables `r` and `next_status` of the event loop, with the device
pub record Loop (h : Host) : Type 0 where
  pub dev : Dev h
  pub r : ℤ
  pub next_status : AsyncStatus

-- how a call of rtlsdr_read_async() stands: it has freed a transfer in flight, it is still in its
-- event loop, or it has returned
pub data Outcome (h : Host) : Type 0 where
  fault : Outcome h
  streaming : Dev h → Outcome h
  returned : ℤ → Dev h → Outcome h

abbrev pub to_cancel : Option TransferStatus → Bool
to_cancel none = false
to_cancel (some cancelled) = false
to_cancel (some _) = true

abbrev pub is_null {ℓ} : {A : Type ℓ} → Option A → Bool
is_null none = true
is_null (some _) = false

abbrev pub drain_tries : ℕ
drain_tries = 100

module _ (h : Host) where
  -- dev->xfer[i]->status; `none` past the end of the array
  abbrev pub status_of : Dev h → ℕ → Option TransferStatus
  status_of d i = elim d.xfer [ none ↦ none | some xs ↦ get_elem? xs i ]

  pub init_run : ℕ → ℕ → Dev h → Dev h
  init_run buf_num buf_len d = record d {
    async_status = running;
    async_cancel = false;
    xfer_outstanding = pos 0;
    xfer_buf_num = if ltb 0 buf_num then buf_num else default_buf_number;
    xfer_buf_len = if ltb 0 buf_len && (buf_len % 512 == 0) then buf_len else default_buf_length;
  }

  -- one pass of the submission loop; `true` if it breaks
  pub submit_one : ℕ → Loop h → Bool × Loop h
  unfolding ◌+ℤ◌
  submit_one i s =
      let (rc, c) = h.submit s.dev.ctx i in
      let d : Dev h = record s.dev { ctx = c } in
      if is_neg rc
      then (true, record s { dev = record d { async_status = canceling }; r = rc })
      else (
        false,
        record s { dev = record d { xfer_outstanding = d.xfer_outstanding +ℤ pos 1 }; r = rc },
      )

  pub submit_all : ℕ → ℕ → Loop h → Loop h
  unfolding submit_one
  submit_all zero i s = s
  submit_all (suc k) i s =
      let (stop, s') = submit_one i s in elim stop [ true ↦ s' | false ↦ submit_all k (i + 1) s' ]

  -- the body of the cancel loop for transfer `i`
  pub cancel_one : ℕ → Loop h → Loop h
  unfolding handle_events
  cancel_one i s =
      if to_cancel (status_of s.dev i)
      then (let (rc, c) = h.cancel s.dev.ctx i in
          let (_, d) = handle_events h no_wait (record s.dev { ctx = c }) in
          if is_neg rc
          then record s { dev = d; r = rc }
          else record { dev = d; r = rc; next_status = canceling })
      else s

  pub cancel_all : ℕ → ℕ → Loop h → Loop h
  unfolding cancel_one
  cancel_all zero i s = s
  cancel_all (suc k) i s = cancel_all k (i + 1) (cancel_one i s)

  -- "device was lost due to transfer errors"
  pub check_lost : Dev h → Dev h
  check_lost d =
      if d.dev_lost && is_running d.async_status then record d { async_status = canceling } else d

  -- the branch of the loop for RTLSDR_CANCELING; `true` if it breaks
  pub cancel_branch : Loop h → Bool × Loop h
  unfolding cancel_all handle_events
  cancel_branch s =
      let s0 : Loop h = record s { next_status = inactive } in
      if is_null s.dev.xfer
      then (true, s0)
      else (let s1 = cancel_all s.dev.xfer_buf_num 0 s0 in
          if s1.dev.dev_lost || is_inactive s1.next_status
          then (true, record s1 { dev = (handle_events h no_wait s1.dev).1 })
          else (false, s1))

  -- one pass of the event loop; `true` if it leaves
  pub round : Loop h → Bool × Loop h
  unfolding handle_events check_lost cancel_branch
  round s =
      let (rc, d) = handle_events h one_second s.dev in
      let s1 : Loop h = record s { dev = d; r = rc } in
      if is_neg rc
      then (not (is_interrupted rc), s1)
      else (let s2 : Loop h = record s1 { dev = check_lost d } in
          if is_canceling s2.dev.async_status then cancel_branch s2 else (false, s2))

  -- the loop for at most `fuel` passes; `true` if it has been left
  pub event_loop : ℕ → Loop h → Bool × Loop h
  unfolding round
  event_loop zero s = (is_inactive s.dev.async_status, s)
  event_loop (suc fuel) s = elim (is_inactive s.dev.async_status) [
    | true ↦ (true, s)
    | false ↦
        let (leave, s') = round s in elim leave [ true ↦ (true, s') | false ↦ event_loop fuel s' ]
  ]

  -- the cancel loop of the drain, which handles no events
  pub drain_cancel_one : ℕ → Dev h → Dev h
  drain_cancel_one i d =
      if to_cancel (status_of d i) then record d { ctx = (h.cancel d.ctx i).1 } else d

  pub drain_cancel : ℕ → ℕ → Dev h → Dev h
  unfolding drain_cancel_one
  drain_cancel zero i d = d
  drain_cancel (suc k) i d = drain_cancel k (i + 1) (drain_cancel_one i d)

  pub drain_pass : Dev h → ℤ × Dev h
  unfolding drain_cancel handle_events
  drain_pass d = handle_events h ten_ms (drain_cancel d.xfer_buf_num 0 d)

  pub drain : ℕ → Dev h → Dev h
  unfolding drain_pass
  drain zero d = d
  drain (suc tries) d =
      let (rc, d') = drain_pass d in
      elim (is_null d.xfer || (d.xfer_outstanding ==ℤ pos 0)) [
        | true ↦ d
        | false ↦ elim (is_neg rc && not (is_interrupted rc)) [ true ↦ d' | false ↦ drain tries d' ]
      ]

  -- the last lines, from what _rtlsdr_free_async_buffers() did
  pub conclude : ℤ → AsyncStatus → Option (ℤ × Dev h) → Outcome h
  conclude r next none = fault
  conclude r next (some (_, d)) = returned r (record d { async_status = next })

  -- what follows the event loop
  pub finish : Loop h → Outcome h
  unfolding drain free_async_buffers conclude
  finish s =
      let d = drain drain_tries s.dev in
      let next = if d.xfer_outstanding ==ℤ pos 0 then inactive else s.next_status in
      conclude s.r next (free_async_buffers h d)

  -- what precedes the event loop
  pub start : ℕ → ℕ → Dev h → Loop h
  unfolding init_run alloc_async_buffers submit_all
  start buf_num buf_len d =
      let (_, d') = alloc_async_buffers h (init_run buf_num buf_len d) in
      submit_all d'.xfer_buf_num 0 (record { dev = d'; r = pos 0; next_status = inactive })

  -- rtlsdr_read_async, with at most `fuel` passes of the event loop
  pub read_async : ℕ → ℕ → ℕ → Dev h → Outcome h
  unfolding start event_loop finish
  read_async fuel buf_num buf_len d =
      if is_inactive d.async_status
      then (let (left, s) = event_loop fuel (start buf_num buf_len d) in
          if left then finish s else streaming s.dev)
      else returned (negsuc 1) d
