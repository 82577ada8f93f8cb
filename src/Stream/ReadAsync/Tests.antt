-- ===== src/Stream/ReadAsync/Tests.antt =====
-- Runs of the streaming core of rtl-sdr/src/librtlsdr.c against concrete libusbs, and its theorems at
-- them.
use ebc_sdr_native.Prelude.{
  ℕ, suc, ◌+◌, ◌<◌, ◌≡◌, refl, Bool, true, false, Option, none, some, List, [], ◌∷◌, ◌++◌, arith,
  length, ◌||◌, ◌==◌, if◌then◌else◌,
}
use ebc_sdr_native.Prelude.Int.{pos}
use ebc_sdr_native.Usb.{Completion, completed, no_device, Wait, one_second, ten_ms, Host, IsLibusb}
use ebc_sdr_native.Stream.{Dev, inactive, running, canceling, handle_events, libusb_callback}
use ebc_sdr_native.Stream.Lost.{first, later}
use ebc_sdr_native.Stream.WindDown.{Reaped, reaps, handle_events-WindingDown}
use ebc_sdr_native.Stream.ReadAsync.{Loop, fault, returned, event_loop, finish, read_async}
use ebc_sdr_native.Stream.ReadAsync.Drain.{IsPrompt, Clean, finish-Clean}
use ebc_sdr_native.Stream.ReadAsync.Safety.{Safe, read_async-Safe}
use ebc_sdr_native.Stream.ReadAsync.Unplug.{event_loop-unplugged}

-- the transfers in flight, and a reap that reports each of them as unplugged
abbrev pop : List ℕ → Option Completion × List ℕ
pop [] = (none, [])
pop (i ∷ c) = (some (record { slot = i; status = no_device; payload = [] }), c)

abbrev free_if_idle : List ℕ → ℕ → Option (List ℕ)
free_if_idle [] i = some []
free_if_idle (_ ∷ _) i = none

-- a libusb that reaps all that is in flight in every wait
abbrev prompt_host : Host
prompt_host = record {
  Ctx = List ℕ;
  App = ℕ;
  submit = λ c i. (pos 0, i ∷ c);
  cancel = λ c i. (pos 0, c);
  events = λ c w. (record { count = length c; rc = pos 0; cancel = false }, c);
  reap = pop;
  free_transfer = free_if_idle;
  deliver = λ n p. (false, n + 1);
}

-- a libusb that reaps one transfer, the oldest, and only in the waits of a second
abbrev one_at_a_time : Wait → ℕ
one_at_a_time one_second = 1
one_at_a_time _ = 0

abbrev flies : List ℕ → ℕ → Bool
flies [] i = false
flies (j ∷ c) i = j == i || flies c i

abbrev slow_host : Host
slow_host = record {
  Ctx = List ℕ;
  App = ℕ;
  submit = λ c i. (pos 0, c ++ i ∷ []);
  cancel = λ c i. (pos 0, c);
  events = λ c w. (record { count = one_at_a_time w; rc = pos 0; cancel = false }, c);
  reap = pop;
  free_transfer = λ c i. if flies c i then none else some c;
  deliver = λ n p. (false, n + 1);
}

pop-none : (c : List ℕ) → (pop c).0 ≡ none → length (pop c).1 ≡ length c
pop-none [] e = refl
pop-none (i ∷ c) e = cc

pop-some : (c : List ℕ) {t : Completion} → (pop c).0 ≡ some t → length c ≡ suc (length (pop c).1)
pop-some [] e = cc
pop-some (i ∷ c) e = refl

free_idle :
    (c : List ℕ) (i : ℕ)
    → length c ≡ 0
    → (c' : List ℕ) × (free_if_idle c i ≡ some c') × (length c' ≡ 0)
free_idle [] i e = ([], refl, refl)
free_idle (_ ∷ _) i e = absurd (omega arith)

libusb : IsLibusb prompt_host
libusb = record {
  flying = length;
  submit_ok = λ c i e. refl;
  submit_error = λ c i e. cc;
  submit_zero = λ c i e. refl;
  cancel_flying = λ c i. refl;
  events_flying = λ c w. refl;
  reap_none = pop-none;
  reap_some = pop-some;
  free_idle = free_idle;
}

counts : (c : List ℕ) → 0 < length c → (n : ℕ) × (length c ≡ suc n)
counts [] e = absurd (omega arith)
counts (_ ∷ c) e = (length c, refl)

succeeds : (c : List ℕ) → 0 < length c → (t : Completion) × ((pop c).0 ≡ some t)
succeeds [] e = absurd (omega arith)
succeeds (i ∷ c) e = (record { slot = i; status = no_device; payload = [] }, refl)

prompt : IsPrompt prompt_host libusb
unfolding libusb
prompt = record { wait_succeeds = λ c. refl; wait_reaps = counts; reap_succeeds = succeeds }

-- a device with the given transfers in flight, before any run
abbrev opened : (h : Host) → h.Ctx → h.App → Dev h
opened h c a = record {
  ctx = c;
  app = a;
  xfer_buf_num = 0;
  xfer_buf_len = 0;
  xfer = none;
  xfer_buf = false;
  async_status = inactive;
  async_cancel = false;
  xfer_outstanding = pos 0;
  dev_lost = false;
  xfer_errors = 0;
}

-- an unplug with two transfers in flight: the run ends, INACTIVE, and frees what it allocated
unplug :
    read_async prompt_host 3 2 512 (opened prompt_host [] 0)
    ≡ returned
        (pos 0)
        (record (opened prompt_host [] 0) { xfer_buf_num = 2; xfer_buf_len = 512; dev_lost = true })
unfolding read_async
unplug = refl

-- transfer 9 is left in flight by an earlier run; its completion is counted for transfer 0, which is
-- then freed in flight
stale_restart : read_async slow_host 3 1 512 (opened slow_host (9 ∷ []) 0) ≡ fault
unfolding read_async
stale_restart = refl

abbrev streaming_dev : Dev prompt_host
streaming_dev = record (opened prompt_host (1 ∷ 0 ∷ []) 0) {
  xfer_buf_num = 2;
  xfer_buf_len = 512;
  xfer = some (completed ∷ completed ∷ []);
  xfer_buf = true;
  async_status = running;
  xfer_outstanding = pos 2;
}

abbrev unplugged_loop : Loop prompt_host
unplugged_loop = record { dev = streaming_dev; r = pos 0; next_status = inactive }

abbrev left_loop : Loop prompt_host
left_loop = record {
  dev = record streaming_dev { async_status = canceling };
  r = pos 0;
  next_status = canceling;
}

read_async-Safe_example :
    Safe prompt_host libusb (read_async prompt_host 3 2 512 (opened prompt_host [] 0))
unfolding libusb
read_async-Safe_example =
    read_async-Safe prompt_host libusb 3 2 512 (opened prompt_host [] 0) refl refl

event_loop-unplugged_example : (event_loop prompt_host 1 unplugged_loop).0 ≡ true
unfolding libusb_callback
event_loop-unplugged_example =
    event_loop-unplugged prompt_host 0 unplugged_loop
      (record { slot = 0; status = no_device; payload = [] }) refl (later refl (first refl)) refl

handle_events-WindingDown_example :
    Reaped prompt_host (2, []) (pos 2) (handle_events prompt_host ten_ms left_loop.dev).1
unfolding reaps
handle_events-WindingDown_example = handle_events-WindingDown prompt_host ten_ms left_loop.dev refl

finish-Clean_example : Clean prompt_host libusb prompt left_loop (finish prompt_host left_loop)
unfolding libusb
finish-Clean_example = finish-Clean prompt_host libusb prompt left_loop refl refl refl (omega arith)
