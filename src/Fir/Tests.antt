-- ===== src/Fir/Tests.antt =====
-- The FIR coefficients of rtl-sdr/src/librtlsdr.c at concrete values.
use ebc_sdr_native.Prelude.{◌≡◌, refl, some, [], ◌∷◌}
use ebc_sdr_native.Fir.{fir_default, fir_bytes}
use ebc_sdr_native.Fir.Packing.{Encodes, fir_bytes-Encodes}

-- the bytes of the default coefficients
default_bytes :
    fir_bytes fir_default
    ≡ some (
        0xca ∷ 0xdc ∷ 0xd7 ∷ 0xd8 ∷ 0xe0 ∷ 0xf2 ∷ 0x0e ∷ 0x35 ∷ 0x06 ∷ 0x50 ∷ 0x9c ∷ 0x0d ∷ 0x71
        ∷ 0x11 ∷ 0x14 ∷ 0x71 ∷ 0x74 ∷ 0x19 ∷ 0x41 ∷ 0xa5 ∷ [])
unfolding fir_bytes
default_bytes = refl

fir_bytes-Encodes_example : Encodes fir_default (fir_bytes fir_default)
fir_bytes-Encodes_example = fir_bytes-Encodes fir_default refl
