-- ===== src/Stream/ReadAsync/Loops.antt =====
-- Invariant rules for the event loop and the drain of rtlsdr_read_async() in
-- rtl-sdr/src/librtlsdr.c.
use ebc_sdr_native.Prelude.{ℕ, zero, suc, ◌+◌, not, ◌&&◌, ◌||◌, Bool-cases, inl, inr}
use ebc_sdr_native.Prelude.Int.{is_neg, ◌==ℤ◌, pos}
use ebc_sdr_native.Usb.{Host}
use ebc_sdr_native.Stream.{Dev, is_inactive, is_interrupted}
use ebc_sdr_native.Stream.ReadAsync.{
  Loop, round, event_loop, drain_cancel_one, drain_cancel, drain_pass, drain, is_null,
}

module _ (h : Host) where
  pub event_loop_inv {ℓ} :
      (P : Loop h → Type ℓ)
      → ((s : Loop h) → P s → P (round h s).1)
      → (fuel : ℕ) (s : Loop h) → P s
      → P (event_loop h fuel s).1
  unfolding event_loop
  event_loop_inv P keep zero s p = p
  event_loop_inv P keep (suc fuel) s p = elim (Bool-cases (is_inactive s.dev.async_status)) [
    | inl e ↦ rw (e, event_loop) p
    | inr e ↦
        rw (e, event_loop)
          (elim (Bool-cases (round h s).0) [
            | inl leave ↦ rw leave (keep s p)
            | inr again ↦ rw again (event_loop_inv P keep fuel (round h s).1 (keep s p))
          ])
  ]

  pub drain_cancel_inv {ℓ} :
      (P : Dev h → Type ℓ)
      → ((i : ℕ) (d : Dev h) → P d → P (drain_cancel_one h i d))
      → (k i : ℕ) (d : Dev h) → P d
      → P (drain_cancel h k i d)
  unfolding drain_cancel
  drain_cancel_inv P keep zero i d p = p
  drain_cancel_inv P keep (suc k) i d p =
      drain_cancel_inv P keep k (i + 1) (drain_cancel_one h i d) (keep i d p)

  pub drain_inv {ℓ} :
      (P : Dev h → Type ℓ)
      → ((d : Dev h) → P d → P (drain_pass h d).1)
      → (tries : ℕ) (d : Dev h) → P d
      → P (drain h tries d)
  unfolding drain
  drain_inv P keep zero d p = p
  drain_inv P keep (suc tries) d p =
      elim (Bool-cases (is_null d.xfer || (d.xfer_outstanding ==ℤ pos 0))) [
        | inl done ↦ rw (done, drain) p
        | inr more ↦
            rw (more, drain)
              (elim (Bool-cases
                (is_neg (drain_pass h d).0 && not (is_interrupted (drain_pass h d).0))) [
                  | inl e ↦ rw e (keep d p)
                  | inr e ↦ rw e (drain_inv P keep tries (drain_pass h d).1 (keep d p))
                ])
      ]
