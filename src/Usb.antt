-- ===== src/Usb.antt =====
-- The asynchronous part of libusb and the application's sample callback, as rtl-sdr/src/librtlsdr.c
-- uses them. Both are outside the modelled code: `Host` holds their operations as parameters, and
-- `IsLibusb` the documented behaviour of libusb that proofs rely on.
use ebc_sdr_native.Prelude.{ℕ, suc, ◌≡◌, Bool, true, false, Option, none, some, List}
use ebc_sdr_native.Prelude.Int.{ℤ, pos, is_neg}

-- enum libusb_transfer_status
pub data TransferStatus : Type 0 where
  completed error timed_out cancelled stall no_device overflow : TransferStatus

-- A transfer that libusb hands to its callback: which one, its status, and the bytes received.
pub record Completion : Type 0 where
  pub slot : ℕ
  pub status : TransferStatus
  pub payload : List ℕ

-- What one libusb_handle_events_timeout_completed() call does: how many transfers it reaps at most,
-- its return code, and whether another thread calls rtlsdr_cancel_async() while it waits.
pub record Batch : Type 0 where
  pub count : ℕ
  pub rc : ℤ
  pub cancel : Bool

-- The timeouts that the code passes: { 1, 0 }, { 0, 10000 } and { 0, 0 }.
pub data Wait : Type 0 where
  one_second ten_ms no_wait : Wait

pub record Host : Type 1 where
  pub Ctx : Type 0
  pub App : Type 0
  pub submit : Ctx → ℕ → ℤ × Ctx
  pub cancel : Ctx → ℕ → ℤ × Ctx
  pub events : Ctx → Wait → Batch × Ctx
  pub reap : Ctx → Option Completion × Ctx
  -- `none` is the undefined behaviour of freeing a transfer that is in flight
  pub free_transfer : Ctx → ℕ → Option Ctx
  -- the sample callback; `true` if it calls rtlsdr_cancel_async()
  pub deliver : App → List ℕ → Bool × App

-- The number of transfers in flight, and how the calls change it.
pub record IsLibusb (h : Host) : Type 0 where
  pub flying : h.Ctx → ℕ
  pub submit_ok :
      (c : h.Ctx) (i : ℕ) → (h.submit c i).0 ≡ pos 0 → flying (h.submit c i).1 ≡ suc (flying c)
  pub submit_error :
      (c : h.Ctx) (i : ℕ) → is_neg (h.submit c i).0 ≡ true → flying (h.submit c i).1 ≡ flying c
  -- libusb_submit_transfer() returns 0 or a negative error
  pub submit_zero : (c : h.Ctx) (i : ℕ) → is_neg (h.submit c i).0 ≡ false → (h.submit c i).0 ≡ pos 0
  pub cancel_flying : (c : h.Ctx) (i : ℕ) → flying (h.cancel c i).1 ≡ flying c
  pub events_flying : (c : h.Ctx) (w : Wait) → flying (h.events c w).1 ≡ flying c
  pub reap_none : (c : h.Ctx) → (h.reap c).0 ≡ none → flying (h.reap c).1 ≡ flying c
  pub reap_some :
      (c : h.Ctx) {t : Completion} → (h.reap c).0 ≡ some t → flying c ≡ suc (flying (h.reap c).1)
  -- freeing is legal while nothing is in flight
  pub free_idle :
      (c : h.Ctx) (i : ℕ)
      → flying c ≡ 0
      → (c' : h.Ctx) × (h.free_transfer c i ≡ some c') × (flying c' ≡ 0)
