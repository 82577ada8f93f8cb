-- ===== src/Device/Open/Released.antt =====
-- What rtlsdr_open() of rtl-sdr/src/librtlsdr.c holds when it returns.
use ebc_sdr_native.Prelude.{
  ℕ, ◌≡◌, not, ◌&&◌, ◌⊎◌, inl, inr, refl, sym, ◌∙◌, Bool, true, false, Bool-cases, Option, none,
  some, [], ◌∷◌,
}
use ebc_sdr_native.Prelude.Int.{ℤ, pos, negsuc, is_neg}
use ebc_sdr_native.Registers
use mathlib.Core.Option.{some-ne-none}
use mathlib.Core.Path.{subst}
use ebc_sdr_native.Device.{TunerKind, Tuner, is_zero}
use ebc_sdr_native.Device.Held.{
  interface, memory, context, device_list, handle, driver, acquire, Outcome, fail,
}
use ebc_sdr_native.Device.Open.{
  Libusb, find_device, is_stuck, bring_up, claim, open_found, device_open, has_driver,
}

Option-cases : {A : Type 0} (o : Option A) → (o ≡ none) ⊎ ((x : A) × (o ≡ some x))
Option-cases none = inl refl
Option-cases (some x) = inr (x, refl)

-- with a driver that could be detached, the driver is detached
detached_if_free : (d z : Bool) → (d && not z) ≡ false → (d && z) ≡ d
detached_if_free true true e = refl
detached_if_free true false e = cc
detached_if_free false z e = refl

module _ {k : Registers.Control} (tuners : TunerKind → Tuner k)
    (blank : (kind : TunerKind) → (tuners kind).Chip) (apply_ppm : ℕ → ℤ → ℕ) (lib : Libusb k)
    (detaches has_memory : Bool) (index : ℕ) (b : k.Bus) where
  -- How a call can end: with the device that was found, or for a cause that the code tells apart. Without
  -- a device in the list the list stays allocated, and with a driver that cannot be detached the code is
  -- that of libusb_open().
  pub data Settled : Outcome tuners → Type 0 where
    opened :
        (i : ℕ)
        → find_device lib index ≡ some i
        → is_neg (lib.host.open_code i) ≡ false
        → is_stuck detaches lib ≡ false
        → is_neg lib.claim_interface ≡ false
        → Settled (record {
          code = pos 0;
          held =
              interface ∷ acquire (has_driver detaches lib) driver (handle ∷ context ∷ memory ∷ []);
          device = some (bring_up tuners blank apply_ppm lib i b);
        })
    no_memory : has_memory ≡ false → Settled (record { code = negsuc 11; held = []; device = none })
    no_context :
        is_neg lib.host.init ≡ true → Settled (record { code = negsuc 0; held = []; device = none })
    no_list : lib.listed ≡ false → Settled (record { code = negsuc 0; held = []; device = none })
    no_match :
        find_device lib index ≡ none
        → lib.listed ≡ true
        → Settled (record { code = negsuc 0; held = device_list ∷ []; device = none })
    unopened :
        (i : ℕ)
        → find_device lib index ≡ some i
        → is_neg (lib.host.open_code i) ≡ true
        → Settled (record { code = lib.host.open_code i; held = []; device = none })
    undetached :
        (i : ℕ)
        → find_device lib index ≡ some i
        → is_stuck detaches lib ≡ true
        → is_neg (lib.host.open_code i) ≡ false
        → Settled (record { code = lib.host.open_code i; held = []; device = none })
    unclaimed :
        is_neg lib.claim_interface ≡ true
        → Settled (record {
          code = lib.claim_interface;
          held = acquire (has_driver detaches lib) driver [];
          device = none;
        })

  abbrev left_claimed : Bool → Outcome tuners
  left_claimed x = record { code = lib.claim_interface; held = acquire x driver []; device = none }

  unlisted : lib.listed ≡ false → find_device lib index ≡ none
  unfolding find_device
  unlisted l = rw (l, find_device) refl

  unclaimed-Settled :
      (x : Bool)
      → has_driver detaches lib ≡ x
      → is_neg lib.claim_interface ≡ true
      → (out : Outcome tuners) × ((fail tuners lib.claim_interface
              (handle ∷ context ∷ memory ∷ [])
              (acquire x driver (handle ∷ context ∷ memory ∷ []))
            ≡ some out)
          × Settled out)
  unclaimed-Settled true d c = (_, (refl, subst (λ x. Settled (left_claimed x)) d (unclaimed c)))
  unclaimed-Settled false d c = (_, (refl, subst (λ x. Settled (left_claimed x)) d (unclaimed c)))

  claim-Settled :
      (i : ℕ)
      → find_device lib index ≡ some i
      → is_neg (lib.host.open_code i) ≡ false
      → (out : Outcome tuners) × ((claim tuners blank apply_ppm lib detaches i
              (lib.host.open_code i)
              b
              (handle ∷ context ∷ memory ∷ [])
            ≡ some out)
          × Settled out)
  unfolding claim
  claim-Settled i f n = elim (Bool-cases (is_stuck detaches lib)) [
    | inl e ↦ rw (e, claim) (_, (refl, undetached i f e n))
    | inr e ↦
        let d = detached_if_free (has_driver detaches lib) (is_zero lib.detach_kernel_driver) e in
        elim (Bool-cases (is_neg lib.claim_interface)) [
          | inl c ↦ rw (e, claim, c, d) (unclaimed-Settled (has_driver detaches lib) refl c)
          | inr c ↦ rw (e, claim, c, d, c) (_, (refl, opened i f n e c))
        ]
  ]

  open_found-Settled :
      (listed : Bool) (i : ℕ)
      → lib.listed ≡ listed
      → find_device lib index ≡ some i
      → (out : Outcome tuners) × ((open_found tuners blank apply_ppm lib detaches i b
              (acquire listed device_list (context ∷ memory ∷ []))
            ≡ some out)
          × Settled out)
  unfolding open_found
  open_found-Settled false i l f = absurd (some-ne-none i (sym f ∙ unlisted l))
  open_found-Settled true i l f = elim (Bool-cases (is_neg (lib.host.open_code i))) [
    | inl e ↦ rw (e, open_found) (_, (refl, unopened i f e))
    | inr e ↦ rw (e, open_found, e) (claim-Settled i f e)
  ]

  search-Settled :
      (listed : Bool)
      → lib.listed ≡ listed
      → find_device lib index ≡ none
      → (out : Outcome tuners) × ((fail tuners
              (negsuc 0)
              (context ∷ memory ∷ [])
              (acquire listed device_list (context ∷ memory ∷ []))
            ≡ some out)
          × Settled out)
  search-Settled false l f = (_, (refl, no_list l))
  search-Settled true l f = (_, (refl, no_match f l))

  allocated-Settled :
      (m : Bool)
      → has_memory ≡ m
      → (out : Outcome tuners) × ((device_open tuners blank apply_ppm lib detaches m index b
            ≡ some out)
          × Settled out)
  unfolding device_open
  allocated-Settled false q = (_, (refl, no_memory q))
  allocated-Settled true q = elim (Bool-cases (is_neg lib.host.init)) [
    | inl e ↦ rw (e, device_open) (_, (refl, no_context e))
    | inr e ↦ elim (Option-cases (find_device lib index)) [
      | inl f ↦ rw (e, device_open, f, e) (search-Settled lib.listed refl f)
      | inr (i, f) ↦ rw (e, device_open, f, e) (open_found-Settled lib.listed i refl f)
    ]
  ]

  -- Whatever malloc(), libusb and the device answer, rtlsdr_open() releases nothing that it does not
  -- hold, and ends in one of these ways. It returns 0 with the device that the search for the index
  -- has found, its memory, its context, its handle and its claimed interface, and owes the kernel
  -- driver that it has detached, if there was one and the build asks for that; then libusb_open() and
  -- libusb_claim_interface() have succeeded, and so has the detaching if there was any. Or it has no
  -- device and holds nothing: it returns -ENOMEM without memory, -1 when libusb_init() or
  -- libusb_get_device_list() fails, the code of libusb_open() when that fails, and the code of
  -- libusb_open(), which is not negative, when a kernel driver cannot be detached. Or
  -- libusb_claim_interface() fails, and it returns that code and still owes a driver that it has
  -- detached. Or the list of libusb has no such device, and it returns -1 and still holds the list.
  pub device_open-Settled :
      (out : Outcome tuners) × ((device_open tuners blank apply_ppm lib detaches has_memory index b
          ≡ some out)
        × Settled out)
  device_open-Settled = allocated-Settled has_memory refl
