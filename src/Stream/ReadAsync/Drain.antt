-- ===== src/Stream/ReadAsync/Drain.antt =====
-- The drain of rtlsdr_read_async() in rtl-sdr/src/librtlsdr.c empties libusb's in-flight list within
-- its 100 passes when libusb reaps cancelled transfers, so that nothing is leaked.
use ebc_sdr_native.Prelude.{
  ℕ, zero, suc, ◌+◌, ◌<◌, ◌≡◌, refl, true, false, Option, none, some, List, arith, Bool-cases, inl,
  inr,
}
use ebc_sdr_native.Prelude.Int.{ℤ, pos, ◌≤ℤ◌, ◌==ℤ◌, is_neg, -ℤ_parts}
use ebc_sdr_native.Usb.{TransferStatus, completed, cancelled, Completion, ten_ms, Host, IsLibusb}
use ebc_sdr_native.Stream.{
  Dev, inactive, is_running, cancel_async, libusb_callback, dispatch, set_status, reap_each,
  handle_events, free_each, free_async_buffers,
}
use ebc_sdr_native.Stream.Accounting.{Balanced}
use ebc_sdr_native.Stream.WindDown.{
  WindingDown, dispatch-WindingDown, libusb_callback-WindingDown, cancel_async-WindingDown,
  cancel_async-ctx, reap_each_inv,
}
use ebc_sdr_native.Stream.ReadAsync.{
  Loop, Outcome, returned, drain_cancel_one, drain_cancel, drain_pass, drain, drain_tries, conclude,
  finish, is_null,
}
use ebc_sdr_native.Stream.ReadAsync.Loops.{drain_cancel_inv, drain_inv}
use ebc_sdr_native.Stream.ReadAsync.Safety.{drain_pass-Balanced, drain-Balanced}

-- libusb reaps at least one transfer in a 10 ms wait while some are in flight, and the wait does not
-- fail.
pub record IsPrompt (h : Host) (u : IsLibusb h) : Type 0 where
  pub wait_succeeds : (c : h.Ctx) → is_neg (h.events c ten_ms).0.rc ≡ false
  pub wait_reaps : (c : h.Ctx) → 0 < u.flying c → (n : ℕ) × ((h.events c ten_ms).0.count ≡ suc n)
  pub reap_succeeds : (c : h.Ctx) → 0 < u.flying c → (t : Completion) × ((h.reap c).0 ≡ some t)

module _ (h : Host) where
  abbrev Held : Dev h → Type 0
  Held d = is_null d.xfer ≡ false

  dispatch-xfer :
      (st : TransferStatus) (i : ℕ) (p : List ℕ) (d : Dev h) → (dispatch h st i p d).xfer ≡ d.xfer
  unfolding dispatch
  dispatch-xfer completed i p d = ground arith
  dispatch-xfer cancelled i p d = refl
  dispatch-xfer st i p d = ground arith

  libusb_callback-xfer : (t : Completion) (d : Dev h) → (libusb_callback h t d).xfer ≡ d.xfer
  unfolding libusb_callback
  libusb_callback-xfer t d = dispatch-xfer t.status t.slot t.payload _

  set_status-null :
      (t : Completion) (x : Option (List TransferStatus)) → is_null (set_status h t x) ≡ is_null x
  set_status-null t none = refl
  set_status-null t (some _) = refl

  reap_each-Held : (n : ℕ) (d : Dev h) → Held d → Held (reap_each h n d)
  unfolding reap_each
  reap_each-Held zero d e = e
  reap_each-Held (suc n) d e = go (h.reap d.ctx).0 refl (reap_each-Held n)
    where
      go :
          (t : Option Completion)
          → (h.reap d.ctx).0 ≡ t
          → ((d' : Dev h) → Held d' → Held (reap_each h n d'))
          → Held (reap_each h (suc n) d)
      go none eq ih = rw (eq, reap_each) e
      go (some t) eq ih =
          rw (eq, reap_each) (ih _ (rw (libusb_callback-xfer, set_status-null t d.xfer) e))

  cancel_async-xfer : (d : Dev h) → (cancel_async h d).1.xfer ≡ d.xfer
  unfolding cancel_async
  cancel_async-xfer d = ground arith

  -- what a wait of the drain needs and keeps, with the count `o` of transfers in flight
  abbrev Draining : ℤ → Dev h → Type 0
  Draining o d = WindingDown h o d × Held d

  -- one reaped transfer lowers the count
  reap_each-WindingDown :
      (n m : ℕ) (d : Dev h) (t : Completion)
      → (h.reap d.ctx).0 ≡ some t
      → WindingDown h (pos (suc m)) d
      → WindingDown h (pos m) (reap_each h (suc n) d)
  unfolding reap_each libusb_callback
  reap_each-WindingDown n m d t first w =
      rw (first, reap_each)
        (reap_each_inv h (WindingDown h (pos m)) (λ c d w. w)
          (libusb_callback-WindingDown h (pos m)) (cancel_async-WindingDown h (pos m)) n _
          (dispatch-WindingDown h t.status t.slot t.payload (pos m) _
            (w.0, omega (arith, -ℤ_parts d.xfer_outstanding (pos 1)))))

  handle_events-Draining :
      (n m : ℕ) (d : Dev h) (t : Completion)
      → (h.events d.ctx ten_ms).0.count ≡ suc n
      → (h.reap (h.events d.ctx ten_ms).1).0 ≡ some t
      → Draining (pos (suc m)) d
      → Draining (pos m) (handle_events h ten_ms d).1
  unfolding handle_events
  handle_events-Draining n m d t more first (w, held) =
      let d' : Dev h = record d { ctx = (h.events d.ctx ten_ms).1 } in
      rw more (elim (Bool-cases (h.events d.ctx ten_ms).0.cancel) [
        | inl e ↦ rw e (
          reap_each-WindingDown n m (cancel_async h d').1 t (rw (cancel_async-ctx h d') first)
              (cancel_async-WindingDown h (pos (suc m)) d' w),
          reap_each-Held (suc n) (cancel_async h d').1 (rw (cancel_async-xfer d') held),
        )
        | inr e ↦ rw e (reap_each-WindingDown n m d' t first w, reap_each-Held (suc n) d' held)
      ])

  -- the cancellations of a pass do not touch these fields
  drain_cancel_one-Draining :
      (o : ℤ) (i : ℕ) (d : Dev h) → Draining o d → Draining o (drain_cancel_one h i d)
  unfolding drain_cancel_one
  drain_cancel_one-Draining o i d p = ground arith

  handle_events-Held : (d : Dev h) → Held d → Held (handle_events h ten_ms d).1
  unfolding handle_events
  handle_events-Held d e =
      let d' : Dev h = record d { ctx = (h.events d.ctx ten_ms).1 } in
      elim (Bool-cases (h.events d.ctx ten_ms).0.cancel) [
        | inl c ↦ rw c (reap_each-Held _ (cancel_async h d').1 (rw (cancel_async-xfer d') e))
        | inr c ↦ rw c (reap_each-Held _ d' e)
      ]

  drain_cancel_one-Held : (i : ℕ) (d : Dev h) → Held d → Held (drain_cancel_one h i d)
  unfolding drain_cancel_one
  drain_cancel_one-Held i d e = ground arith

  drain_pass-Held : (d : Dev h) → Held d → Held (drain_pass h d).1
  unfolding drain_pass
  drain_pass-Held d e =
      handle_events-Held _ (drain_cancel_inv h Held drain_cancel_one-Held d.xfer_buf_num 0 d e)

  drain-Held : (tries : ℕ) (d : Dev h) → Held d → Held (drain h tries d)
  drain-Held = drain_inv h Held drain_pass-Held

module _ (h : Host) (u : IsLibusb h) (prompt : IsPrompt h u) where
  drain_cancel-flying :
      (o : ℕ) (k i : ℕ) (d : Dev h) → u.flying d.ctx ≡ o → u.flying (drain_cancel h k i d).ctx ≡ o
  drain_cancel-flying o = drain_cancel_inv h (λ d. u.flying d.ctx ≡ o) one
    where
      one : (i : ℕ) (d : Dev h) → u.flying d.ctx ≡ o → u.flying (drain_cancel_one h i d).ctx ≡ o
      one i d e = unfold drain_cancel_one in ground (arith, u.cancel_flying d.ctx i)

  drain_pass-Draining :
      (m : ℕ) (d : Dev h)
      → 0 < u.flying d.ctx
      → Draining h (pos (suc m)) d
      → Draining h (pos m) (drain_pass h d).1
  unfolding drain_pass
  drain_pass-Draining m d some_fly p =
      let d' : Dev h = drain_cancel h d.xfer_buf_num 0 d in
      let p' =
        drain_cancel_inv h (Draining h (pos (suc m))) (drain_cancel_one-Draining h (pos (suc m)))
          d.xfer_buf_num 0 d p in
      let f = drain_cancel-flying (u.flying d.ctx) d.xfer_buf_num 0 d refl in
      let (n, more) = prompt.wait_reaps d'.ctx (rw f some_fly) in
      let (t, first) =
        prompt.reap_succeeds (h.events d'.ctx ten_ms).1
          (rw (u.events_flying d'.ctx ten_ms, f) some_fly) in
      handle_events-Draining h n m d' t more first p'

  drain_pass-rc : (d : Dev h) → is_neg (drain_pass h d).0 ≡ false
  unfolding drain_pass handle_events
  drain_pass-rc d = prompt.wait_succeeds _

  -- With a prompt libusb, a run that is not RUNNING and has at most as many transfers in flight as
  -- the drain has passes left ends the drain with none in flight.
  drain-empties :
      (tries : ℕ) (d : Dev h)
      → Balanced h u 0 d
      → Draining h (pos tries) d
      → (drain h tries d).xfer_outstanding ≡ pos 0
  unfolding drain
  drain-empties zero d b p = ground arith
  drain-empties (suc tries) d b (w, held) = elim (Bool-cases (d.xfer_outstanding ==ℤ pos 0)) [
    | inl done ↦ rw (held, done, drain) (ground arith)
    | inr busy ↦
        rw (held, busy, drain, drain_pass-rc d)
          (drain-empties tries (drain_pass h d).1 (drain_pass-Balanced h u 0 d b)
            (drain_pass-Draining tries d (ground arith) (w, held)))
  ]

  -- `k` transfers from `i` on are handed to libusb_free_transfer(), in order and each once, and nothing
  -- else changes libusb's state
  pub data Released : ℕ → ℕ → h.Ctx → h.Ctx → Type 0 where
    done : {i : ℕ} {c : h.Ctx} → Released 0 i c c
    one :
        {k i : ℕ} {c c1 c2 : h.Ctx}
        → h.free_transfer c i ≡ some c1
        → Released k (i + 1) c1 c2
        → Released (suc k) i c c2

  free_each-Released :
      (k i : ℕ) (c : h.Ctx)
      → u.flying c ≡ 0
      → (c' : h.Ctx) × (free_each h k i c ≡ some c') × Released k i c c' × (u.flying c' ≡ 0)
  unfolding free_each
  free_each-Released zero i c e = (c, refl, done, e)
  free_each-Released (suc k) i c e =
      let (c1, ok, e1) = u.free_idle c i e in
      let (c2, oks, r, e2) = free_each-Released k (i + 1) c1 e1 in
      (c2, rw (ok, free_each) oks, one ok r, e2)

  -- returned with the loop's code, INACTIVE, with nothing in flight and no pointer left; since the
  -- drain ended, each transfer has been freed
  abbrev pub Clean : Loop h → Outcome h → Type 0
  Clean s (returned r d) =
      (r ≡ s.r)
      × (d.async_status ≡ inactive)
      × (u.flying d.ctx ≡ 0)
      × Released (drain h drain_tries s.dev).xfer_buf_num 0 (drain h drain_tries s.dev).ctx d.ctx
      × (d.xfer ≡ none)
      × (d.xfer_buf ≡ false)
  Clean s _ = ⊥

  freed :
      (d : Dev h) (x : Option (List TransferStatus)) (c : h.Ctx)
      → (d.xfer_outstanding ==ℤ pos 0) ≡ true
      → d.xfer ≡ x
      → is_null x ≡ false
      → free_each h d.xfer_buf_num 0 d.ctx ≡ some c
      → free_async_buffers h d ≡ some (pos 0, record d { ctx = c; xfer = none; xfer_buf = false })
  unfolding free_async_buffers
  freed d none c idle x held ok = cc
  freed d (some y) c idle x held ok = rw (idle, x, ok) refl

  -- If the event loop has been left by a run that is not RUNNING, with its transfers allocated and at
  -- most 100 of them in flight, each counted, and if libusb is prompt, so that a wait of 10 ms does
  -- not fail and hands over a transfer while some are in flight, then rtlsdr_read_async() returns the
  -- loop's code, INACTIVE and with nothing in flight; after the drain it hands each of its transfers
  -- to libusb_free_transfer(), and no pointer to transfers or buffers is left.
  pub finish-Clean :
      (s : Loop h)
      → Balanced h u 0 s.dev
      → is_running s.dev.async_status ≡ false
      → is_null s.dev.xfer ≡ false
      → s.dev.xfer_outstanding ≤ℤ pos 100
      → Clean s (finish h s)
  unfolding finish conclude
  finish-Clean s b stopped held few =
      let d : Dev h = drain h drain_tries s.dev in
      let empty = drain-empties drain_tries s.dev b ((stopped, few), held) in
      let idle : u.flying d.ctx ≡ 0 =
        ground (arith, empty, drain-Balanced h u 0 drain_tries s.dev b) in
      let (c, ok, all, none_fly) = free_each-Released d.xfer_buf_num 0 d.ctx idle in
      rw (freed d d.xfer c (rw empty refl) refl (drain-Held h drain_tries s.dev held) ok, empty)
        (refl, refl, none_fly, all, refl, refl)
