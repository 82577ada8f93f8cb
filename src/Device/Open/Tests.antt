-- ===== src/Device/Open/Tests.antt =====
-- Runs of rtlsdr_open() and rtlsdr_close() against a libusb that has one device, and their theorems at
-- them.
use ebc_sdr_native.Prelude.{ℕ, ◌≡◌, refl, Bool, true, false, Option, none, some, [], ◌∷◌}
use ebc_sdr_native.Prelude.Int.{pos, negsuc}
use ebc_sdr_native.Registers
use ebc_sdr_native.Bridge.Tests.{running_dev, tick, wire, no_tuner, busy}
use ebc_sdr_native.Bridge.Open
use ebc_sdr_native.Bridge.Open.{open2}
use ebc_sdr_native.Device.{Tuner}
use ebc_sdr_native.Device.Search.Strings.{StringHost}
use ebc_sdr_native.Device.Held.{
  memory, context, device_list, handle, driver, interface, Opened, Outcome,
}
use ebc_sdr_native.Device.Open.{Libusb, Closed, close, bring_up, device_open}
use ebc_sdr_native.Device.Open.Released.{Settled, device_open-Settled}
use ebc_sdr_native.Device.Open.RoundTrip.{IsClosed, close-device_open, close-open2}

-- a tuner that cannot be initialised
abbrev dead_tuner : Tuner wire
dead_tuner = record no_tuner { init = some (λ clock c b. (negsuc 0, c, b)) }

abbrev one_device : StringHost
one_device = record {
  init = pos 0;
  devices = (0x0bda, 0x2838) ∷ [];
  open_code = λ i. pos 0;
  descriptor = λ i. record { code = pos 0; manufact = 1; product = 2; serial = 3 };
  ascii = λ i n. 0x31 ∷ [];
}

abbrev usb : Libusb wire
usb = record {
  host = one_device;
  listed = true;
  kernel_driver_active = pos 0;
  detach_kernel_driver = pos 0;
  claim_interface = pos 0;
  reset_device = λ b. b;
  release_interface = λ b. b;
  attach_kernel_driver = λ b. b;
}

-- a kernel driver has the device, and does not let it go
abbrev driven : Libusb wire
driven = record usb { kernel_driver_active = pos 1; detach_kernel_driver = negsuc 3 }

abbrev open_on : Libusb wire → Bool → ℕ → Option (Outcome (λ kind. dead_tuner))
open_on lib detaches index =
    device_open (λ kind. dead_tuner) (λ kind. 0) (λ xtal ppm. xtal) lib detaches true index 0

abbrev the_device : Libusb wire → Opened (λ kind. dead_tuner)
the_device lib = bring_up (λ kind. dead_tuner) (λ kind. 0) (λ xtal ppm. xtal) lib 0 0

abbrev the_outcome : Libusb wire → Outcome (λ kind. dead_tuner)
the_outcome lib = record {
  code = pos 0;
  held = interface ∷ handle ∷ context ∷ memory ∷ [];
  device = some (the_device lib);
}

-- the code of the tuner's initialisation is lost
dead_tuner_opened : open_on usb false 0 ≡ some (the_outcome usb)
unfolding device_open
dead_tuner_opened = refl

-- the list of devices is not given back
list_lost :
    open_on usb false 1 ≡ some (record { code = negsuc 0; held = device_list ∷ []; device = none })
unfolding device_open
list_lost = refl

-- 0 is returned, and no device
driver_kept : open_on driven true 0 ≡ some (record { code = pos 0; held = []; device = none })
unfolding device_open
driver_kept = refl

-- the interface is refused, and the detached driver is not given back
abbrev refused : Libusb wire
refused = record usb { kernel_driver_active = pos 1; claim_interface = negsuc 5 }

driver_lost :
    open_on refused true 0 ≡ some (record { code = negsuc 5; held = driver ∷ []; device = none })
unfolding device_open
driver_lost = refl

-- a libusb of rtlsdr_open2() where the interface is free
abbrev free_usb : Open.Libusb wire
free_usb = record busy { claim_interface = λ b. (pos 0, b) }

-- rtlsdr_open2() with a tuner that cannot be initialised: the interface stays claimed
interface_kept :
    open2 (λ kind. dead_tuner) (λ kind. 0) (λ xtal ppm. xtal) free_usb true 3 0
    ≡ some (record { code = negsuc 0; held = interface ∷ []; device = none })
unfolding open2 Open.bring_up Open.finish_open
interface_kept = refl

device_open-Settled_example :
    (out : Outcome (λ kind. dead_tuner)) × ((device_open
          (λ kind. dead_tuner)
          (λ kind. 0)
          (λ xtal ppm. xtal)
          usb
          false
          true
          0
          0
        ≡ some out)
      × Settled (λ kind. dead_tuner) (λ kind. 0) (λ xtal ppm. xtal) usb false true 0 0 out)
device_open-Settled_example =
    device_open-Settled (λ kind. dead_tuner) (λ kind. 0) (λ xtal ppm. xtal) usb false true 0 0

close-device_open_example :
    (end : Closed (λ kind. dead_tuner)) × ((close
          (λ kind. dead_tuner)
          tick
          (λ d. d)
          usb
          false
          (running_dev 2)
          (the_device usb)
          (interface ∷ handle ∷ context ∷ memory ∷ [])
        ≡ some end)
      × IsClosed (λ kind. dead_tuner) tick (λ d. d) usb false (running_dev 2) (the_device usb) end)
close-device_open_example =
    close-device_open (λ kind. dead_tuner) (λ kind. 0) (λ xtal ppm. xtal) tick (λ d. d) usb false
      true 0 0 (running_dev 2) (the_outcome usb) (the_device usb) dead_tuner_opened refl

-- what rtlsdr_open2() hands out on it
abbrev brought_up : Opened (λ kind. no_tuner)
brought_up = (Open.bring_up (λ kind. no_tuner) (λ kind. 0) (λ xtal ppm. xtal) free_usb 0).1

abbrev taken : Opened (λ kind. no_tuner)
unfolding Registers.set_i2c_repeater
taken = record brought_up {
  radio = record brought_up.radio {
    bus = Registers.set_i2c_repeater wire brought_up.radio.bus false;
  };
}

abbrev taken_outcome : Outcome (λ kind. no_tuner)
taken_outcome = record {
  code = pos 0;
  held = interface ∷ handle ∷ context ∷ memory ∷ [];
  device = some taken;
}

tuner_less_taken :
    open2 (λ kind. no_tuner) (λ kind. 0) (λ xtal ppm. xtal) free_usb true 3 0 ≡ some taken_outcome
unfolding open2 Open.bring_up Registers.set_i2c_repeater Open.finish_open
tuner_less_taken = refl

close-open2_example :
    (end : Closed (λ kind. no_tuner)) × ((close
          (λ kind. no_tuner)
          tick
          (λ d. d)
          usb
          false
          (running_dev 2)
          taken
          (interface ∷ handle ∷ context ∷ memory ∷ [])
        ≡ some end)
      × IsClosed (λ kind. no_tuner) tick (λ d. d) usb false (running_dev 2) taken end)
close-open2_example =
    close-open2 (λ kind. no_tuner) (λ kind. 0) (λ xtal ppm. xtal) tick (λ d. d) usb free_usb true 3
      0 (running_dev 2) taken_outcome taken tuner_less_taken refl
