-- ===== src/Device/Open/RoundTrip.antt =====
-- What rtlsdr_close() of rtl-sdr/src/librtlsdr.c leaves of a device that rtlsdr_open() or
-- rtlsdr_open2() has handed out.
use ebc_sdr_native.Prelude.{
  true, false, ◌&&◌, if◌then◌else◌, ℕ, ◌≡◌, ◌≤◌, refl, sym, ◌∙◌, Bool, Option, some, [], ◌∷◌,
}
use ebc_sdr_native.Prelude.Int.{ℤ, pos}
use ebc_sdr_native.Usb.{Host}
use ebc_sdr_native.Stream.{Dev}
use ebc_sdr_native.Registers
use ebc_sdr_native.Registers.Baseband.{deinit_baseband}
use ebc_sdr_native.Bridge.{close_wait}
use ebc_sdr_native.Bridge.Waiting.{close_wait-Waited}
use ebc_sdr_native.Bridge.Open
use ebc_sdr_native.Bridge.Open.{open2}
use ebc_sdr_native.Bridge.Open.Balanced
use ebc_sdr_native.Bridge.Open.Balanced.{open2-Settled}
use ebc_sdr_native.Device.{TunerKind, Tuner}
use ebc_sdr_native.Device.Held.{
  memory, context, handle, driver, interface, acquire, release_all, Opened, Outcome,
}
use ebc_sdr_native.Device.Open.{
  Libusb, Closed, exit_tuner, given_back, has_driver, bring_up, close, device_open,
}
use ebc_sdr_native.Device.Open.Released.{
  Settled, opened, no_memory, no_context, no_list, no_match, unopened, undetached, unclaimed,
  device_open-Settled,
}
use mathlib.Core.Path.{subst}
use mathlib.Core.Option.{some-ne-none, some-injective}

all_given_back :
    (x : Bool)
    → release_all
        (interface ∷ acquire x driver (handle ∷ context ∷ memory ∷ []))
        (interface ∷ acquire x driver (handle ∷ context ∷ memory ∷ []))
      ≡ some []
all_given_back true = refl
all_given_back false = refl

module _ {k : Registers.Control} (tuners : TunerKind → Tuner k) where
  -- the bus after the interface is released, and a driver attached again
  abbrev handed_back : Libusb k → Bool → k.Bus → k.Bus
  handed_back lib has_driver b =
      let b' = lib.release_interface b in if has_driver then lib.attach_kernel_driver b' else b'

  -- A device that is lost is left alone, one that is there has its tuner and its baseband shut down;
  -- then it is handed back.
  pub data Left (lib : Libusb k) (has_driver lost : Bool) (o : Opened tuners) : k.Bus → Type 0 where
    alone : lost ≡ true → Left lib has_driver lost o (handed_back lib has_driver o.radio.bus)
    shut_down :
        lost ≡ false
        → Left lib has_driver lost o (
            handed_back lib has_driver
              (deinit_baseband k (exit_tuner tuners o.kind o.radio) o.radio.bus).1)

  module _ {h : Host} (pass interrupt : Dev h → Dev h) (lib : Libusb k) (detaches : Bool)
      (d : Dev h) (o : Opened tuners) where
    -- rtlsdr_close() has returned 0 after a bounded wait, with nothing held, and has left the device
    pub record IsClosed (end : Closed tuners) : Type 0 where
      pub code_zero : end.code ≡ pos 0
      pub nothing_held : end.held ≡ []
      pub bounded : end.waited ≤ 2000
      pub left :
          Left lib (detaches && o.driver_active) (close_wait pass interrupt d).1.dev_lost o end.bus

    close-Left :
        (lost : Bool)
        → Left lib (detaches && o.driver_active) lost o (
            handed_back lib (detaches && o.driver_active) (
              if lost
              then o.radio.bus
              else (deinit_baseband k (exit_tuner tuners o.kind o.radio) o.radio.bus).1))
    close-Left true = alone refl
    close-Left false = shut_down refl

    close-IsClosed :
        (end : Closed tuners) × ((close tuners pass interrupt lib detaches d o
              (given_back tuners (detaches && o.driver_active))
            ≡ some end)
          × IsClosed end)
    unfolding close
    close-IsClosed =
        let w = close_wait-Waited pass interrupt d in
        rw (close, all_given_back (detaches && o.driver_active))
          (
            _,
            (
              refl,
              record {
                code_zero = refl;
                nothing_held = refl;
                bounded = w.bounded;
                left = close-Left (close_wait pass interrupt d).1.dev_lost;
              },
            ),
          )

  abbrev Handed : Bool → Outcome tuners → Type 0
  Handed detaches out =
      (o : Opened tuners)
      → out.device ≡ some o
      → out.held ≡ given_back tuners (detaches && o.driver_active)

  -- what is known of every result of a call is known of this one
  result-Handed :
      (detaches : Bool) (Ends : Outcome tuners → Type 0)
      → ((out : Outcome tuners) → Ends out → Handed detaches out)
      → (result : Option (Outcome tuners))
      → ((out : Outcome tuners) × ((result ≡ some out) × Ends out))
      → (out : Outcome tuners) → result ≡ some out
      → Handed detaches out
  result-Handed detaches Ends ends-Handed result (out', (e', s)) out e =
      ends-Handed out (subst Ends (some-injective out' out (sym e' ∙ e)) s)

  module _ (blank : (kind : TunerKind) → (tuners kind).Chip) (apply_ppm : ℕ → ℤ → ℕ) where
    Settled-Handed :
        (lib : Libusb k) (detaches has_memory : Bool) (index : ℕ) (b : k.Bus) (out : Outcome tuners)
        → Settled tuners blank apply_ppm lib detaches has_memory index b out
        → Handed detaches out
    unfolding bring_up
    Settled-Handed lib detaches has_memory index b out (opened i f n q c) o e =
        subst
          (λ o.
            given_back tuners (has_driver detaches lib)
            ≡ given_back tuners (detaches && o.driver_active))
          (some-injective _ o e) refl
    Settled-Handed lib detaches has_memory index b out (no_memory q) o e =
        absurd (some-ne-none o (sym e))
    Settled-Handed lib detaches has_memory index b out (no_context q) o e =
        absurd (some-ne-none o (sym e))
    Settled-Handed lib detaches has_memory index b out (no_list l) o e =
        absurd (some-ne-none o (sym e))
    Settled-Handed lib detaches has_memory index b out (no_match f l) o e =
        absurd (some-ne-none o (sym e))
    Settled-Handed lib detaches has_memory index b out (unopened i f n) o e =
        absurd (some-ne-none o (sym e))
    Settled-Handed lib detaches has_memory index b out (undetached i f q n) o e =
        absurd (some-ne-none o (sym e))
    Settled-Handed lib detaches has_memory index b out (unclaimed n) o e =
        absurd (some-ne-none o (sym e))

    Balanced-Handed :
        (lib2 : Open.Libusb k) (fd : ℕ) (b : k.Bus) (out : Outcome tuners)
        → Balanced.Settled tuners blank apply_ppm lib2 fd b out
        → Handed false out
    Balanced-Handed lib2 fd b out (Balanced.opened q o') o e = refl
    Balanced-Handed lib2 fd b out (Balanced.failed code ne) o e = absurd (some-ne-none o (sym e))
    Balanced-Handed lib2 fd b out (Balanced.uninitialised q n) o e = absurd (some-ne-none o (sym e))

    -- When rtlsdr_open() has handed out a device, rtlsdr_close() of it, whatever its stream does and
    -- whatever libusb answers, releases nothing that is not held, returns 0 after a wait of at most
    -- 2000 ms, and gives back the interface, the handle, the context and the memory and asks libusb
    -- to attach a kernel driver again that was detached, which is all that was held. Before that it
    -- shuts down the tuner and the baseband if the device is not lost after the wait, and leaves the
    -- device alone otherwise.
    pub close-device_open :
        {h : Host} (pass interrupt : Dev h → Dev h) (lib : Libusb k) (detaches has_memory : Bool)
        (index : ℕ) (b : k.Bus) (d : Dev h) (out : Outcome tuners) (o : Opened tuners)
        → device_open tuners blank apply_ppm lib detaches has_memory index b ≡ some out
        → out.device ≡ some o
        → (end : Closed tuners) × ((close tuners pass interrupt lib detaches d o out.held
              ≡ some end)
            × IsClosed pass interrupt lib detaches d o end)
    close-device_open pass interrupt lib detaches has_memory index b d out o e e' =
        rw
          (result-Handed detaches (Settled tuners blank apply_ppm lib detaches has_memory index b)
            (Settled-Handed lib detaches has_memory index b)
            (device_open tuners blank apply_ppm lib detaches has_memory index b)
            (device_open-Settled tuners blank apply_ppm lib detaches has_memory index b) out e o e')
          (close-IsClosed pass interrupt lib detaches d o)

    -- When rtlsdr_open2() has handed out a device, rtlsdr_close() of it, in a build without
    -- DETACH_KERNEL_DRIVER, whatever its stream does and whatever libusb answers, releases nothing that
    -- is not held, returns 0 after a wait of at most 2000 ms and gives back the interface, the handle,
    -- the context and the memory, which is all that was held. Before that it shuts down the tuner and the
    -- baseband if the device is not lost after the wait, and leaves the device alone otherwise.
    pub close-open2 :
        {h : Host} (pass interrupt : Dev h → Dev h) (lib : Libusb k) (lib2 : Open.Libusb k)
        (has_memory : Bool) (fd : ℕ) (b : k.Bus) (d : Dev h) (out : Outcome tuners)
        (o : Opened tuners)
        → open2 tuners blank apply_ppm lib2 has_memory fd b ≡ some out
        → out.device ≡ some o
        → (end : Closed tuners) × ((close tuners pass interrupt lib false d o out.held ≡ some end)
            × IsClosed pass interrupt lib false d o end)
    close-open2 pass interrupt lib lib2 has_memory fd b d out o e e' =
        rw
          (result-Handed false (Balanced.Settled tuners blank apply_ppm lib2 fd b)
            (Balanced-Handed lib2 fd b) (open2 tuners blank apply_ppm lib2 has_memory fd b)
            (open2-Settled tuners blank apply_ppm lib2 fd b has_memory) out e o e')
          (close-IsClosed pass interrupt lib false d o)
