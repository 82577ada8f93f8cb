-- ===== src/Stream/ReadAsync/Safety.antt =====
-- rtlsdr_read_async() of rtl-sdr/src/librtlsdr.c never frees a transfer that libusb has in flight,
-- and what it leaves behind when it returns.
use ebc_sdr_native.Prelude.{
  ℕ, zero, suc, ◌+◌, ◌≡◌, refl, true, false, Option, none, some, List, arith, Bool-cases, inl, inr,
}
use ebc_sdr_native.Prelude.Int.{ℤ, pos, ◌==ℤ◌}
use ebc_sdr_native.Usb.{TransferStatus, no_wait, one_second, ten_ms, Host, IsLibusb}
use ebc_sdr_native.Stream.{
  AsyncStatus, inactive, Dev, handle_events, alloc_async_buffers, free_each, free_async_buffers,
}
use ebc_sdr_native.Stream.Accounting.{Balanced, handle_events-Balanced}
use ebc_sdr_native.Stream.ReadAsync.Loops.{event_loop_inv, drain_cancel_inv, drain_inv}
use ebc_sdr_native.Stream.ReadAsync.{
  Loop, Outcome, fault, streaming, returned, init_run, submit_one, submit_all, cancel_one,
  cancel_all, check_lost, cancel_branch, round, event_loop, drain_cancel_one, drain_pass, drain,
  drain_tries, conclude, finish, start, read_async,
}

module _ (h : Host) (u : IsLibusb h) (stale : ℕ) where
  submit_one-Balanced :
      (i : ℕ) (s : Loop h) → Balanced h u stale s.dev → Balanced h u stale (submit_one h i s).1.dev
  unfolding submit_one
  submit_one-Balanced i s b =
      ground (arith, u.submit_ok s.dev.ctx i, u.submit_error s.dev.ctx i, u.submit_zero s.dev.ctx i)

  submit_all-Balanced :
      (k i : ℕ) (s : Loop h)
      → Balanced h u stale s.dev
      → Balanced h u stale (submit_all h k i s).dev
  unfolding submit_all
  submit_all-Balanced zero i s b = b
  submit_all-Balanced (suc k) i s b =
      ground (arith, submit_one-Balanced i s, submit_all-Balanced k (i + 1) (submit_one h i s).1)

  cancel_one-Balanced :
      (i : ℕ) (s : Loop h) → Balanced h u stale s.dev → Balanced h u stale (cancel_one h i s).dev
  unfolding cancel_one
  cancel_one-Balanced i s b = ground (
    arith,
    u.cancel_flying s.dev.ctx i,
    handle_events-Balanced h u stale no_wait (record s.dev { ctx = (h.cancel s.dev.ctx i).1 }),
  )

  cancel_all-Balanced :
      (k i : ℕ) (s : Loop h)
      → Balanced h u stale s.dev
      → Balanced h u stale (cancel_all h k i s).dev
  unfolding cancel_all
  cancel_all-Balanced zero i s b = b
  cancel_all-Balanced (suc k) i s b =
      cancel_all-Balanced k (i + 1) (cancel_one h i s) (cancel_one-Balanced i s b)

  check_lost-Balanced : (d : Dev h) → Balanced h u stale d → Balanced h u stale (check_lost h d)
  unfolding check_lost
  check_lost-Balanced d b = ground arith

  cancel_branch-Balanced :
      (s : Loop h) → Balanced h u stale s.dev → Balanced h u stale (cancel_branch h s).1.dev
  unfolding cancel_branch
  cancel_branch-Balanced s b =
      let s0 : Loop h = record s { next_status = inactive } in
      let s1 : Loop h = cancel_all h s.dev.xfer_buf_num 0 s0 in
      let b1 = cancel_all-Balanced s.dev.xfer_buf_num 0 s0 b in
      ground (arith, b1, handle_events-Balanced h u stale no_wait s1.dev b1)

  pub round-Balanced :
      (s : Loop h) → Balanced h u stale s.dev → Balanced h u stale (round h s).1.dev
  unfolding round
  round-Balanced s b =
      let d : Dev h = (handle_events h one_second s.dev).1 in
      let b1 = handle_events-Balanced h u stale one_second s.dev b in
      let s2 : Loop h = record s {
        dev = check_lost h d;
        r = (handle_events h one_second s.dev).0;
      } in
      let b2 = check_lost-Balanced d b1 in ground (arith, b1, b2, cancel_branch-Balanced s2 b2)

  drain_cancel_one-Balanced :
      (i : ℕ) (d : Dev h) → Balanced h u stale d → Balanced h u stale (drain_cancel_one h i d)
  unfolding drain_cancel_one
  drain_cancel_one-Balanced i d b = ground (arith, u.cancel_flying d.ctx i)

  pub drain_pass-Balanced :
      (d : Dev h) → Balanced h u stale d → Balanced h u stale (drain_pass h d).1
  unfolding drain_pass
  drain_pass-Balanced d b =
      handle_events-Balanced h u stale ten_ms _
        (drain_cancel_inv h (Balanced h u stale) drain_cancel_one-Balanced d.xfer_buf_num 0 d b)

module _ (h : Host) (u : IsLibusb h) where
  -- nothing of this run is in flight, so all that flies is stale
  alloc-Balanced :
      (buf_num buf_len : ℕ) (d : Dev h)
      → Balanced h u (u.flying d.ctx) (alloc_async_buffers h (init_run h buf_num buf_len d)).1
  unfolding alloc_async_buffers init_run
  alloc-Balanced buf_num buf_len d = ground arith

  start-Balanced :
      (buf_num buf_len : ℕ) (d : Dev h)
      → Balanced h u (u.flying d.ctx) (start h buf_num buf_len d).dev
  unfolding start
  start-Balanced buf_num buf_len d =
      let d' : Dev h = (alloc_async_buffers h (init_run h buf_num buf_len d)).1 in
      submit_all-Balanced h u (u.flying d.ctx) d'.xfer_buf_num 0
        (record { dev = d'; r = pos 0; next_status = inactive }) (alloc-Balanced buf_num buf_len d)

  -- the loop and the drain keep the balance that the start establishes
  pub event_loop-Balanced :
      (fuel buf_num buf_len : ℕ) (d : Dev h)
      → Balanced h u (u.flying d.ctx) (event_loop h fuel (start h buf_num buf_len d)).1.dev
  event_loop-Balanced fuel buf_num buf_len d =
      event_loop_inv h (λ s. Balanced h u (u.flying d.ctx) s.dev)
        (round-Balanced h u (u.flying d.ctx)) fuel (start h buf_num buf_len d)
        (start-Balanced buf_num buf_len d)

  pub drain-Balanced :
      (stale tries : ℕ) (d : Dev h) → Balanced h u stale d → Balanced h u stale (drain h tries d)
  drain-Balanced stale = drain_inv h (Balanced h u stale) (drain_pass-Balanced h u stale)

  free_each-idle :
      (k i : ℕ) (c : h.Ctx)
      → u.flying c ≡ 0
      → (c' : h.Ctx) × (free_each h k i c ≡ some c') × (u.flying c' ≡ 0)
  unfolding free_each
  free_each-idle zero i c e = (c, refl, e)
  free_each-idle (suc k) i c e =
      let (c1, ok, e1) = u.free_idle c i e in rw (ok, free_each) (free_each-idle k (i + 1) c1 e1)

  -- What a run that has nothing stale leaves: no pointer to a transfer or buffer, and either the
  -- device idle with nothing in flight, or the count of what was leaked.
  abbrev pub Settled : Dev h → Type 0
  Settled d =
      (d.xfer ≡ none)
      × (d.xfer_buf ≡ false)
      × (pos (u.flying d.ctx) ≡ d.xfer_outstanding)
      × ((u.flying d.ctx ≡ 0) → d.async_status ≡ inactive)

  abbrev pub Safe : Outcome h → Type 0
  Safe fault = ⊥
  Safe (streaming d) = pos (u.flying d.ctx) ≡ d.xfer_outstanding
  Safe (returned r d) = Settled d

  abbrev pub Freed : Dev h → Option (ℤ × Dev h) → Type 0
  Freed d none = ⊥
  Freed d (some (_, d')) =
      (d'.xfer ≡ none)
      × (d'.xfer_buf ≡ false)
      × (pos (u.flying d'.ctx) ≡ d'.xfer_outstanding)
      × (d'.xfer_outstanding ≡ d.xfer_outstanding)

  released :
      (d : Dev h) (x : Option (List TransferStatus)) (c : h.Ctx)
      → Balanced h u 0 d
      → (d.xfer_outstanding ==ℤ pos 0) ≡ true
      → d.xfer ≡ x
      → free_each h d.xfer_buf_num 0 d.ctx ≡ some c
      → u.flying c ≡ 0
      → Freed d (free_async_buffers h d)
  unfolding free_async_buffers
  released d none c b zero_count null freed idle = rw (zero_count, null) (ground arith)
  released d (some x) c b zero_count held freed idle = rw (zero_count, held, freed) (ground arith)

  leaked :
      (d : Dev h)
      → Balanced h u 0 d
      → (d.xfer_outstanding ==ℤ pos 0) ≡ false
      → Freed d (free_async_buffers h d)
  unfolding free_async_buffers
  leaked d b busy = rw busy (ground arith)

  pub free_async_buffers-Freed : (d : Dev h) → Balanced h u 0 d → Freed d (free_async_buffers h d)
  free_async_buffers-Freed d b = elim (Bool-cases (d.xfer_outstanding ==ℤ pos 0)) [
    | inl e ↦
        let idle : u.flying d.ctx ≡ 0 = ground arith in
        let (c, ok, idle') = free_each-idle d.xfer_buf_num 0 d.ctx idle in
        released d d.xfer c b e refl ok idle'
    | inr e ↦ leaked d b e
  ]

  conclude-Safe :
      (r : ℤ) (next : AsyncStatus) (d : Dev h) (o : Option (ℤ × Dev h))
      → Freed d o
      → (d.xfer_outstanding ≡ pos 0 → next ≡ inactive)
      → Safe (conclude h r next o)
  unfolding conclude
  conclude-Safe r next d none f stop = f
  conclude-Safe r next d (some (_, d')) f stop = (f.0, f.1, f.2, λ e. stop (ground arith))

  finish-Safe : (s : Loop h) → Balanced h u 0 s.dev → Safe (finish h s)
  unfolding finish
  finish-Safe s b =
      let d : Dev h = drain h drain_tries s.dev in
      conclude-Safe s.r _ d (free_async_buffers h d)
        (free_async_buffers-Freed d (drain-Balanced 0 drain_tries s.dev b)) (λ e. rw e)

  -- If nothing is in flight and the status is INACTIVE when rtlsdr_read_async() starts, the run never
  -- frees a transfer in flight, however many passes the event loop makes and however libusb and the
  -- callback answer: while it streams, the counter is the number of transfers in flight; when it
  -- returns, no pointer to transfers or buffers is left, the counter still is that number, and the
  -- status is INACTIVE if it is 0.
  pub read_async-Safe :
      (fuel buf_num buf_len : ℕ) (d : Dev h)
      → u.flying d.ctx ≡ 0
      → d.async_status ≡ inactive
      → Safe (read_async h fuel buf_num buf_len d)
  unfolding read_async
  read_async-Safe fuel buf_num buf_len d none_flying idle =
      let b = rw none_flying at (event_loop-Balanced fuel buf_num buf_len d) in
      rw (idle, read_async)
        (elim (Bool-cases (event_loop h fuel (start h buf_num buf_len d)).0) [
          | inl left ↦ rw left (finish-Safe (event_loop h fuel (start h buf_num buf_len d)).1 b)
          | inr more ↦ rw more (ground arith)
        ])
