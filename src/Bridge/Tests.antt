-- ===== src/Bridge/Tests.antt =====
-- Runs of android/librtlsdr_andro.c against a libusb and a bus that take everything, and its theorems
-- at them.
use ebc_sdr_native.Prelude.{
  ℕ, zero, suc, ◌+◌, ◌≤◌, ◌≡◌, refl, arith, true, false, none, some, [], length,
}
use ebc_sdr_native.Prelude.Int.{pos, negsuc}
use ebc_sdr_native.Usb.{Host}
use ebc_sdr_native.Registers
use ebc_sdr_native.Stream.{Dev, AsyncStatus, cancel_async}
use ebc_sdr_native.Device.{Tuner}
use ebc_sdr_native.Bridge.{is_over, cancel_async_save}
use ebc_sdr_native.Bridge.Waiting.{Waited, cancel_async_save-Waited, cancel_async_save-ends}
use ebc_sdr_native.Device.Held.{Outcome}
use ebc_sdr_native.Bridge.Open.{Libusb, open2}
use ebc_sdr_native.Bridge.Open.Balanced.{Settled, open2-Settled}

abbrev pub quiet_host : Host
quiet_host = record {
  Ctx = ℕ;
  App = ℕ;
  submit = λ c i. (pos 0, c);
  cancel = λ c i. (pos 0, c);
  events = λ c w. (record { count = 0; rc = pos 0; cancel = false }, c);
  reap = λ c. (none, c);
  free_transfer = λ c i. some c;
  deliver = λ n p. (false, n);
}

-- a run, `ctx` milliseconds before its end
abbrev pub running_dev : ℕ → Dev quiet_host
running_dev left = record {
  ctx = left;
  app = 0;
  xfer_buf_num = 15;
  xfer_buf_len = 512;
  xfer = none;
  xfer_buf = false;
  async_status = AsyncStatus.running;
  async_cancel = false;
  xfer_outstanding = pos 0;
  dev_lost = false;
  xfer_errors = 0;
}

abbrev pub wind_down : ℕ → Dev quiet_host → Dev quiet_host
wind_down zero d = record d { async_status = AsyncStatus.inactive }
wind_down (suc left) d = record d { ctx = left }

abbrev pub tick : Dev quiet_host → Dev quiet_host
tick d = wind_down d.ctx d

three_ms : (cancel_async_save tick (running_dev 2)).1 ≡ 3
unfolding cancel_async_save
three_ms = refl

cancel_async_save-Waited_example :
    ((cancel_async_save tick (running_dev 2)).0 ≡ pos 0)
    × Waited tick
        (is_over tick)
        1000
        (cancel_async quiet_host (running_dev 2)).1
        ((cancel_async_save tick (running_dev 2)).1, (cancel_async_save tick (running_dev 2)).2)
cancel_async_save-Waited_example = cancel_async_save-Waited tick (running_dev 2) refl refl

cancel_async_save-ends_example :
    ((cancel_async_save tick (running_dev 2)).1 ≤ 3)
    × (is_over tick (cancel_async_save tick (running_dev 2)).2 ≡ true)
unfolding cancel_async
cancel_async_save-ends_example =
    cancel_async_save-ends tick (running_dev 2) 2 refl refl (omega arith) refl

abbrev pub wire : Registers.Control
wire = record {
  Bus = ℕ;
  send = λ b addr index bytes. (pos (length bytes), b + 1);
  receive = λ b addr index len. (pos len, [], b);
  junk = λ b. (0, 0);
}

abbrev pub no_tuner : Tuner wire
no_tuner = record {
  Chip = ℕ;
  load_clock = λ clock c. c;
  init = none;
  exit = none;
  set_freq = none;
  set_bw = none;
  set_gain = none;
  set_if_gain = none;
  set_gain_mode = none;
}

-- the interface is claimed by another process
abbrev pub busy : Libusb wire
busy = record {
  init = λ b. (pos 0, true, b);
  wrap_sys_device = λ fd b. (pos 0, b);
  kernel_driver_active = pos 0;
  claim_interface = λ b. (negsuc 5, b);
  reset_device = λ b. b;
}

refused :
    open2 (λ kind. no_tuner) (λ kind. 0) (λ xtal ppm. xtal) busy true 3 0
    ≡ some (record { code = negsuc 2001; held = []; device = none })
unfolding open2
refused = refl

open2-Settled_example :
    (out : Outcome (λ kind. no_tuner)) × ((open2
          (λ kind. no_tuner)
          (λ kind. 0)
          (λ xtal ppm. xtal)
          busy
          true
          3
          0
        ≡ some out)
      × Settled (λ kind. no_tuner) (λ kind. 0) (λ xtal ppm. xtal) busy 3 0 out)
open2-Settled_example =
    open2-Settled (λ kind. no_tuner) (λ kind. 0) (λ xtal ppm. xtal) busy 3 0 true
