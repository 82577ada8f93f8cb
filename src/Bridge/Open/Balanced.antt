-- ===== src/Bridge/Open/Balanced.antt =====
-- What rtlsdr_open2() of android/librtlsdr_andro.c holds when it returns.
use ebc_sdr_native.Prelude.{
  ℕ, ◌≡◌, ◌≢◌, inl, inr, refl, arith, Bool, true, false, Bool-cases, none, some, [], ◌∷◌,
}
use ebc_sdr_native.Prelude.Int.{ℤ, pos, negsuc, is_neg, parts_of_eq}
use ebc_sdr_native.Registers
use ebc_sdr_native.Device.{TunerKind, Tuner, is_zero}
use ebc_sdr_native.Device.Tune.Frame.{is_zero→ne}
use ebc_sdr_native.Device.Held.{memory, context, handle, interface, Opened, Outcome}
use ebc_sdr_native.Bridge.Open.{Libusb, finish_open, bring_up, open2}

no_context : negsuc 2000 ≢ pos 0
no_context e = ground (arith, parts_of_eq (negsuc 2000) (pos 0) e)

no_claim : negsuc 2001 ≢ pos 0
no_claim e = ground (arith, parts_of_eq (negsuc 2001) (pos 0) e)

module _ {k : Registers.Control} (tuners : TunerKind → Tuner k)
    (blank : (kind : TunerKind) → (tuners kind).Chip) (apply_ppm : ℕ → ℤ → ℕ) (lib : Libusb k)
    (fd : ℕ) (b : k.Bus) where
  -- the bus after each of the calls, which come one after the other
  abbrev started : k.Bus
  started = (lib.init b).2

  abbrev wrapped_bus : k.Bus
  wrapped_bus = (lib.wrap_sys_device fd started).1

  abbrev claimed_bus : k.Bus
  claimed_bus = (lib.claim_interface wrapped_bus).1

  -- libusb_init() has given a context, libusb_wrap_sys_device() a handle, and the interface is claimed
  pub record Claimed : Type 0 where
    pub init_code : is_zero (lib.init b).0 ≡ true
    pub has_context : (lib.init b).1 ≡ true
    pub wrap_code : is_zero (lib.wrap_sys_device fd started).0 ≡ true
    pub claim_code : is_neg (lib.claim_interface wrapped_bus).0 ≡ false

  -- a device and all that belongs to it, or an error and nothing, or an error of the tuner, where the
  -- interface stays claimed
  pub data Settled : Outcome tuners → Type 0 where
    opened :
        Claimed
        → (o : Opened tuners)
        → Settled (record {
          code = pos 0;
          held = interface ∷ handle ∷ context ∷ memory ∷ [];
          device = some o;
        })
    failed : (code : ℤ) → code ≢ pos 0 → Settled (record { code = code; held = []; device = none })
    uninitialised :
        Claimed
        → is_neg (bring_up tuners blank apply_ppm lib claimed_bus).0 ≡ true
        → Settled (record {
          code = (bring_up tuners blank apply_ppm lib claimed_bus).0;
          held = interface ∷ [];
          device = none;
        })

  finish_open-Settled :
      Claimed
      → (out : Outcome tuners) × ((finish_open tuners blank apply_ppm
              (bring_up tuners blank apply_ppm lib claimed_bus)
              (interface ∷ handle ∷ context ∷ memory ∷ [])
            ≡ some out)
          × Settled out)
  unfolding finish_open
  finish_open-Settled q =
      elim (Bool-cases (is_neg (bring_up tuners blank apply_ppm lib claimed_bus).0)) [
        | inl e ↦ rw (e, finish_open) (_, (refl, uninitialised q e))
        | inr e ↦ rw (e, finish_open) (_, (refl, opened q _))
      ]

  -- Whatever malloc(), libusb and the device answer, rtlsdr_open2() releases nothing that it does not
  -- hold. It returns 0 with a device, its memory, its context, its handle and its claimed interface,
  -- and then libusb_init(), libusb_wrap_sys_device() and libusb_claim_interface() have succeeded; or an
  -- error that is not 0 with no device and nothing held; or, when after these calls the tuner cannot be
  -- initialised, its negative code with no device and the interface still claimed.
  pub open2-Settled :
      (has_memory : Bool)
      → (out : Outcome tuners) × ((open2 tuners blank apply_ppm lib has_memory fd b ≡ some out)
          × Settled out)
  unfolding open2
  open2-Settled false =
      (_, (refl, failed (negsuc 11) (λ e. ground (arith, parts_of_eq (negsuc 11) (pos 0) e))))
  open2-Settled true =
      let status = (lib.init b).0 in
      let has_ctx = (lib.init b).1 in
      let wrapped = (lib.wrap_sys_device fd started).0 in
      let claimed = (lib.claim_interface wrapped_bus).0 in
      elim (Bool-cases (is_zero status)) [
        | inr e ↦ rw (e, open2) (_, (refl, failed status (is_zero→ne status e)))
        | inl e ↦ elim (Bool-cases has_ctx) [
          | inr c ↦ rw (e, open2, c) (_, (refl, failed (negsuc 2000) no_context))
          | inl c ↦ elim (Bool-cases (is_zero wrapped)) [
            | inr w ↦ rw (e, open2, c, w, c) (_, (refl, failed wrapped (is_zero→ne wrapped w)))
            | inl w ↦ elim (Bool-cases (is_neg claimed)) [
              | inl n ↦ rw (e, open2, c, w, n, c, w) (_, (refl, failed (negsuc 2001) no_claim))
              | inr n ↦
                  rw (e, open2, c, w, n, c, w, n)
                    (finish_open-Settled
                      (record { init_code = e; has_context = c; wrap_code = w; claim_code = n }))
            ]
          ]
        ]
      ]
