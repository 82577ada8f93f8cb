-- ===== src/Bridge/Waiting.antt =====
-- How long rtlsdr_cancel_async_save() of android/librtlsdr_andro.c and rtlsdr_close() of
-- rtl-sdr/src/librtlsdr.c wait, and with what.
use ebc_sdr_native.Prelude.{
  ℕ, zero, suc, ◌≤◌, ◌≡◌, ◌⊎◌, inl, inr, refl, ap, arith, Bool, true, false, not, ◌&&◌,
  if◌then◌else◌, Bool-cases,
}
use ebc_sdr_native.Prelude.Int.{pos}
use ebc_sdr_native.Usb.{Host}
use ebc_sdr_native.Stream.{Dev, is_inactive, is_running, cancel_async}
use ebc_sdr_native.Bridge.{
  my_timeout, is_over, cancel_wait, cancel_async_save, close_loop, close_wait,
}

module _ {h : Host} (pass : Dev h → Dev h) where
  -- the device after `n` milliseconds
  abbrev pub passes : ℕ → Dev h → Dev h
  passes zero d = d
  passes (suc n) d = passes n (pass d)

  -- what a wait of at most `n` rounds comes to: it has let `rounds` of them pass, and if that is not all
  -- of them it has seen the end
  pub record Waited (over : Dev h → Bool) (n : ℕ) (d : Dev h) (result : ℕ × Dev h) : Type 0 where
    pub bounded : result.0 ≤ n
    pub passed : result.1 ≡ passes result.0 d
    pub ended : (result.0 ≡ n) ⊎ (over result.1 ≡ true)

  pub cancel_wait-Waited : (n : ℕ) (d : Dev h) → Waited (is_over pass) n d (cancel_wait pass n d)
  unfolding cancel_wait
  cancel_wait-Waited zero d = record { bounded = omega arith; passed = refl; ended = inl refl }
  cancel_wait-Waited (suc n) d = elim (Bool-cases (is_over pass (pass d))) [
    | inl e ↦ rw (e, cancel_wait) (record { bounded = omega arith; passed = refl; ended = inr e })
    | inr e ↦
        let w = cancel_wait-Waited n (pass d) in
        rw (e, cancel_wait)
          (record {
            bounded = omega (arith, w.bounded);
            passed = w.passed;
            ended = elim w.ended [ inl q ↦ inl (ap suc q) | inr q ↦ inr q ];
          })
  ]

  pub close_loop-Waited :
      (n : ℕ) (d : Dev h) → Waited (λ d. is_inactive d.async_status) n d (close_loop pass n d)
  unfolding close_loop
  close_loop-Waited zero d = record { bounded = omega arith; passed = refl; ended = inl refl }
  close_loop-Waited (suc n) d = elim (Bool-cases (is_inactive d.async_status)) [
    | inl e ↦ rw (e, close_loop) (record { bounded = omega arith; passed = refl; ended = inr e })
    | inr e ↦
        let w = close_loop-Waited n (pass d) in
        rw (e, close_loop)
          (record {
            bounded = omega (arith, w.bounded);
            passed = w.passed;
            ended = elim w.ended [ inl q ↦ inl (ap suc q) | inr q ↦ inr q ];
          })
  ]

  -- a run that ends within the rounds is seen to end
  cancel_wait_over :
      (n m : ℕ) (d : Dev h)
      → suc m ≤ n
      → is_over pass (passes (suc m) d) ≡ true
      → ((cancel_wait pass n d).0 ≤ suc m) × (is_over pass (cancel_wait pass n d).1 ≡ true)
  unfolding cancel_wait
  cancel_wait_over zero m d h e = absurd (omega arith)
  cancel_wait_over (suc n) zero d h e = rw (e, cancel_wait) (omega arith, e)
  cancel_wait_over (suc n) (suc m) d h e = elim (Bool-cases (is_over pass (pass d))) [
    | inl q ↦ rw (q, cancel_wait) (omega arith, q)
    | inr q ↦
        let (few, over) = cancel_wait_over n m (pass d) (omega arith) e in
        rw (q, cancel_wait) (omega (arith, few), over)
  ]

  cancel_async_running :
      (d : Dev h)
      → is_running d.async_status ≡ true
      → d.dev_lost ≡ false
      → cancel_async_save pass d ≡ (
        (cancel_async h d).0,
        (cancel_wait pass my_timeout (cancel_async h d).1).0,
        (cancel_wait pass my_timeout (cancel_async h d).1).1,
      )
  unfolding cancel_async_save
  cancel_async_running d r l =
      let e : (is_running d.async_status && not d.dev_lost) ≡ true = rw (r, l) refl in
      rw (e, cancel_async_save) refl

  cancel_async_code : (d : Dev h) → is_running d.async_status ≡ true → (cancel_async h d).0 ≡ pos 0
  unfolding cancel_async
  cancel_async_code d r = rw r refl

  -- Called while the run is RUNNING and the device is there, rtlsdr_cancel_async_save() asks the run
  -- to end and returns 0 after at most 1000 ms, and sooner only when the run is over or the device
  -- lost.
  pub cancel_async_save-Waited :
      (d : Dev h)
      → is_running d.async_status ≡ true
      → d.dev_lost ≡ false
      → ((cancel_async_save pass d).0 ≡ pos 0)
        × Waited
            (is_over pass)
            1000
            (cancel_async h d).1
            ((cancel_async_save pass d).1, (cancel_async_save pass d).2)
  cancel_async_save-Waited d r l =
      rw (cancel_async_running d r l)
        (cancel_async_code d r, cancel_wait-Waited 1000 (cancel_async h d).1)

  -- Called while the run is RUNNING and the device is there: if, after it is asked to end, the run is
  -- over or the device lost after some number of ms from 1 to 1000, rtlsdr_cancel_async_save()
  -- returns after that number or fewer, and has seen it.
  pub cancel_async_save-ends :
      (d : Dev h) (m : ℕ)
      → is_running d.async_status ≡ true
      → d.dev_lost ≡ false
      → suc m ≤ 1000
      → is_over pass (passes (suc m) (cancel_async h d).1) ≡ true
      → ((cancel_async_save pass d).1 ≤ suc m) × (is_over pass (cancel_async_save pass d).2 ≡ true)
  cancel_async_save-ends d m r l b o =
      rw (cancel_async_running d r l) (cancel_wait_over 1000 m (cancel_async h d).1 b o)

  -- rtlsdr_close() waits for at most 2000 ms, and goes on sooner only with no run on the device.
  pub close_wait-Waited :
      (interrupt : Dev h → Dev h) (d : Dev h)
      → Waited
          (λ d. is_inactive d.async_status)
          2000
          (interrupt (if is_running d.async_status then (cancel_async h d).1 else d))
          (close_wait pass interrupt d)
  unfolding close_wait
  close_wait-Waited interrupt d =
      close_loop-Waited 2000
        (interrupt (if is_running d.async_status then (cancel_async h d).1 else d))
