-- ===== src/Registers/Tests.antt =====
-- Register files behind the control transfers of rtl-sdr/src/librtlsdr.c, and its theorems at them.
use ebc_sdr_native.Prelude.{
  ℕ, ◌≡◌, ◌≢◌, ◌≤◌, refl, arith, true, false, List, [], ◌∷◌, length, ◌==◌, ne→==, if◌then◌else◌,
}
use ebc_sdr_native.Prelude.Int.{pos, parts_of_eq}
use ebc_sdr_native.I2c.{burn}
use ebc_sdr_native.Registers.{
  Control, gpo, gpd, gpoe, set_bias_tee_gpio, set_testmode, set_i2c_repeater,
}
use ebc_sdr_native.Registers.Gpio.{IsSystem, Drives, set_bias_tee_gpio-Drives}
use ebc_sdr_native.Registers.Tuner.{IsTuner, Implements, tuner_bus, tuner_bus-Implements}

-- a file of registers: the system registers or those of the tuner, by the index of the write
abbrev pub File : Type 0
File = ℕ → ℕ

abbrev put : File → ℕ → List ℕ → File
put f a [] = f
put f a (v ∷ _) = λ x. if x == a then v else f x

abbrev system : Control
system = record {
  Bus = File;
  send = λ f a index bytes. (pos (length bytes), put f a bytes);
  receive = λ f a index len. (pos 1, f a ∷ [], f);
  junk = λ f. (0xaa, 0x55);
}

system_file : IsSystem system
system_file = record {
  reg = λ f. f;
  receive_reg = λ f a. refl;
  receive_keeps = λ f a x. refl;
  send_reg = λ f a v x. refl;
}

abbrev pub burn_all : File → List ℕ → File
burn_all f [] = f
burn_all f (r ∷ bytes) = burn f r bytes

abbrev pub tuner : Control
tuner = record {
  Bus = File;
  send = λ f a index bytes. (pos (length bytes), if index == 0x610 then burn_all f bytes else f);
  receive = λ f a index len. (pos 1, f a ∷ [], f);
  junk = λ f. (0xaa, 0x55);
}

pub tuner_sends_keep :
    (f : File) (addr index a : ℕ) (bytes : List ℕ)
    → index ≢ 0x610
    → (tuner.send f addr index bytes).1 a ≡ f a
tuner_sends_keep f addr index a bytes h = rw (ne→== index 0x610 h) refl

pub tuner_sends_bound : (n : ℕ) (bytes : List ℕ) → pos (length bytes) ≡ pos n → n ≤ length bytes
tuner_sends_bound n bytes e = ground (arith, parts_of_eq _ _ e)

abbrev pub tuner_file : IsTuner tuner
tuner_file = record {
  chip = λ f. f;
  send_all = λ f addr r bytes e a. refl;
  send_bound = λ f addr index n bytes e. tuner_sends_bound n bytes e;
  send_keeps = tuner_sends_keep;
  receive_keeps = λ f addr index n a. refl;
}

-- forced on, pin 0 stays high though it is asked to go low, and the other pins keep their levels
forced :
    ((set_bias_tee_gpio system true (λ a. 0xf0) 0 false).1 gpo ≡ 0xf1)
    × (((set_bias_tee_gpio system true (λ a. 0xf1) 0 false).1 gpd ≡ 0xf0)
        × ((set_bias_tee_gpio system true (λ a. 0xf0) 0 false).1 gpoe ≡ 0xf1))
unfolding set_bias_tee_gpio
forced = (refl, (refl, refl))

-- register 0x19 of page 0, at the address that the transfer carries
test_mode : (set_testmode system (λ a. 0) true).1 0x1920 ≡ 0x03
unfolding set_testmode
test_mode = refl

repeater_on : set_i2c_repeater system (λ a. 0) true 0x0120 ≡ 0x18
unfolding set_i2c_repeater
repeater_on = refl

set_bias_tee_gpio-Drives_example :
    Drives system_file 5 false (λ a. 0xff) (set_bias_tee_gpio system true (λ a. 0xff) 5 false).1
set_bias_tee_gpio-Drives_example =
    set_bias_tee_gpio-Drives system_file true (λ a. 0xff) 5 false (omega arith)

tuner_bus-Implements_example : Implements (tuner_bus tuner true) (λ f. f)
tuner_bus-Implements_example = tuner_bus-Implements tuner_file true
