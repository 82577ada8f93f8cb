-- ===== src/Stream/WindDown.antt =====
-- What the callback of rtl-sdr/src/librtlsdr.c does once a run is winding down: it puts no transfer
-- back in flight.
use ebc_sdr_native.Prelude.{
  ℕ, zero, suc, ◌≡◌, refl, sym, ap, ◌∙◌, false, Option, none, some, List, arith, Bool-cases, inl,
  inr,
}
use ebc_sdr_native.Prelude.Int.{ℤ, pos, ◌-ℤ◌, ◌≤ℤ◌, -ℤ_parts, eq_of_parts}
use ebc_sdr_native.Usb.{TransferStatus, completed, cancelled, Completion, Wait, Host}
use ebc_sdr_native.Stream.{
  Dev, is_running, cancel_async, dispatch, libusb_callback, set_status, reap_each, handle_events,
}

minus_zero : (o : ℤ) → o -ℤ pos 0 ≡ o
minus_zero o = eq_of_parts _ _ (omega (arith, -ℤ_parts o (pos 0)))

minus_one : (o : ℤ) (k : ℕ) → o -ℤ pos 1 -ℤ pos k ≡ o -ℤ pos (suc k)
minus_one o k =
    eq_of_parts _ _
      (omega (arith, -ℤ_parts o (pos 1), -ℤ_parts (o -ℤ pos 1) (pos k), -ℤ_parts o (pos (suc k))))

module _ (h : Host) where
  -- what a wait keeps: a property that no callback and no cancellation breaks
  module _ {ℓ} (P : Dev h → Type ℓ)
      (keep_ctx : (c : h.Ctx) (d : Dev h) → P d → P (record d { ctx = c }))
      (keep_callback : (t : Completion) (x : Option (List TransferStatus)) (d : Dev h)
        → P d
        → P (libusb_callback h t (record d { xfer = x })))
      (keep_cancel : (d : Dev h) → P d → P (cancel_async h d).1) where
    pub reap_each_inv : (n : ℕ) (d : Dev h) → P d → P (reap_each h n d)
    unfolding reap_each
    reap_each_inv zero d p = p
    reap_each_inv (suc n) d p = go (h.reap d.ctx).0 refl (reap_each_inv n)
      where
        go :
            (t : Option Completion)
            → (h.reap d.ctx).0 ≡ t
            → ((d' : Dev h) → P d' → P (reap_each h n d'))
            → P (reap_each h (suc n) d)
        go none e ih = rw (e, reap_each) (keep_ctx (h.reap d.ctx).1 d p)
        go (some t) e ih =
            rw (e, reap_each)
              (ih _ (
                keep_callback t (set_status h t d.xfer) (record d { ctx = (h.reap d.ctx).1 })
                  (keep_ctx (h.reap d.ctx).1 d p)))

    pub handle_events_inv : (w : Wait) (d : Dev h) → P d → P (handle_events h w d).1
    unfolding handle_events
    handle_events_inv w d p =
        let c : h.Ctx = (h.events d.ctx w).1 in
        let q = keep_ctx c d p in
        elim (Bool-cases (h.events d.ctx w).0.cancel) [
          | inl e ↦ rw e (reap_each_inv _ _ (keep_cancel (record d { ctx = c }) q))
          | inr e ↦ rw e (reap_each_inv _ _ q)
        ]

  -- the run is not RUNNING, and at most `o` transfers are in flight
  abbrev pub WindingDown : ℤ → Dev h → Type 0
  WindingDown o d = (is_running d.async_status ≡ false) × (d.xfer_outstanding ≤ℤ o)

  pub dispatch-WindingDown :
      (st : TransferStatus) (i : ℕ) (p : List ℕ) (o : ℤ) (d : Dev h)
      → WindingDown o d
      → WindingDown o (dispatch h st i p d)
  unfolding dispatch
  dispatch-WindingDown completed i p o d w = ground arith
  dispatch-WindingDown cancelled i p o d w = w
  dispatch-WindingDown st i p o d w = ground arith

  pub libusb_callback-WindingDown :
      (o : ℤ) (t : Completion) (x : Option (List TransferStatus)) (d : Dev h)
      → WindingDown o d
      → WindingDown o (libusb_callback h t (record d { xfer = x }))
  unfolding libusb_callback
  libusb_callback-WindingDown o t x d w =
      dispatch-WindingDown t.status t.slot t.payload o
        (record d { xfer = x; xfer_outstanding = d.xfer_outstanding -ℤ pos 1 })
        (w.0, omega (arith, -ℤ_parts d.xfer_outstanding (pos 1)))

  pub cancel_async-WindingDown :
      (o : ℤ) (d : Dev h) → WindingDown o d → WindingDown o (cancel_async h d).1
  unfolding cancel_async
  cancel_async-WindingDown o d w = ground arith

  dispatch-quiet :
      (st : TransferStatus) (i : ℕ) (p : List ℕ) (d : Dev h)
      → is_running d.async_status ≡ false
      → ((dispatch h st i p d).ctx ≡ d.ctx)
        × ((dispatch h st i p d).xfer_outstanding ≡ d.xfer_outstanding)
  unfolding dispatch
  dispatch-quiet completed i p d e = ground arith
  dispatch-quiet cancelled i p d e = (refl, refl)
  dispatch-quiet st i p d e = ground arith

  libusb_callback-quiet :
      (t : Completion) (d : Dev h)
      → is_running d.async_status ≡ false
      → ((libusb_callback h t d).ctx ≡ d.ctx)
        × ((libusb_callback h t d).xfer_outstanding ≡ d.xfer_outstanding -ℤ pos 1)
  unfolding libusb_callback
  libusb_callback-quiet t d e =
      dispatch-quiet t.status t.slot t.payload
        (record d { xfer_outstanding = d.xfer_outstanding -ℤ pos 1 }) e

  -- what at most `n` reaps and nothing else make of libusb's state, and how many transfers they hand
  -- over
  unfoldable pub reaps : ℕ → h.Ctx → ℕ × h.Ctx
  reaps zero c = (0, c)
  reaps (suc n) c = elim (h.reap c).0 [
    | none ↦ (0, (h.reap c).1)
    | some _ ↦ (suc (reaps n (h.reap c).1).0, (reaps n (h.reap c).1).1)
  ]

  -- the run is not RUNNING, libusb is as `r` leaves it, and each transfer of `r` is counted off `o`
  pub record Reaped (r : ℕ × h.Ctx) (o : ℤ) (d : Dev h) : Type 0 where
    pub stopped : is_running d.async_status ≡ false
    pub nothing_else : d.ctx ≡ r.1
    pub counted : d.xfer_outstanding ≡ o -ℤ pos r.0

  one_more :
      (n : ℕ) (c c1 : h.Ctx) (o o1 : ℤ) (d : Dev h)
      → c1 ≡ c
      → o1 ≡ o -ℤ pos 1
      → Reaped (reaps n c1) o1 d
      → Reaped (suc (reaps n c).0, (reaps n c).1) o d
  one_more n c c1 o o1 d same less r = record {
    stopped = r.stopped;
    nothing_else = r.nothing_else ∙ ap (λ c. (reaps n c).1) same;
    counted =
        r.counted
        ∙ ap (λ c. o1 -ℤ pos (reaps n c).0) same
        ∙ ap (λ o. o -ℤ pos (reaps n c).0) less
        ∙ minus_one o (reaps n c).0;
  }

  reap_each-Reaped :
      (n : ℕ) (d : Dev h)
      → is_running d.async_status ≡ false
      → Reaped (reaps n d.ctx) d.xfer_outstanding (reap_each h n d)
  unfolding reap_each reaps
  reap_each-Reaped zero d e = record {
    stopped = e;
    nothing_else = refl;
    counted = sym (minus_zero d.xfer_outstanding);
  }
  reap_each-Reaped (suc n) d e = go (h.reap d.ctx).0 refl (reap_each-Reaped n)
    where
      go :
          (t : Option Completion)
          → (h.reap d.ctx).0 ≡ t
          → ((d' : Dev h)
              → is_running d'.async_status ≡ false
              → Reaped (reaps n d'.ctx) d'.xfer_outstanding (reap_each h n d'))
          → Reaped (reaps (suc n) d.ctx) d.xfer_outstanding (reap_each h (suc n) d)
      go none eq ih =
          rw (eq, reap_each, reaps)
            (record {
              stopped = e;
              nothing_else = refl;
              counted = sym (minus_zero d.xfer_outstanding);
            })
      go (some t) eq ih =
          let d1 : Dev h = record d { ctx = (h.reap d.ctx).1; xfer = set_status h t d.xfer } in
          let (same, less) = libusb_callback-quiet t d1 e in
          rw (eq, reap_each, reaps)
            (one_more n _ _ d.xfer_outstanding _ _ same less (
              ih (libusb_callback h t d1)
                (libusb_callback-WindingDown d1.xfer_outstanding t d1.xfer d1 (e, omega arith)).0))

  pub cancel_async-ctx : (d : Dev h) → (cancel_async h d).1.ctx ≡ d.ctx
  unfolding cancel_async
  cancel_async-ctx d = ground arith

  cancel_async-counter : (d : Dev h) → (cancel_async h d).1.xfer_outstanding ≡ d.xfer_outstanding
  unfolding cancel_async
  cancel_async-counter d = ground arith

  -- In a wait that begins with the run not RUNNING, nothing puts it back to RUNNING; libusb ends up
  -- as the wait and its reaps alone leave it, so that no callback has put a transfer back in flight;
  -- and the counter falls by one for each transfer that is reaped. This is so whatever completes, and
  -- whatever the sample callback and other threads cancel.
  pub handle_events-WindingDown :
      (w : Wait) (d : Dev h)
      → is_running d.async_status ≡ false
      → Reaped
          (reaps (h.events d.ctx w).0.count (h.events d.ctx w).1)
          d.xfer_outstanding
          (handle_events h w d).1
  unfolding handle_events
  handle_events-WindingDown w d e =
      let d' : Dev h = record d { ctx = (h.events d.ctx w).1 } in
      let n = (h.events d.ctx w).0.count in
      elim (Bool-cases (h.events d.ctx w).0.cancel) [
        | inl c ↦ rw c (
            rw (cancel_async-ctx d', cancel_async-counter d') at
              (reap_each-Reaped n (cancel_async h d').1
                (cancel_async-WindingDown d.xfer_outstanding d' (e, omega arith)).0))
        | inr c ↦ rw c (reap_each-Reaped n d' e)
      ]
