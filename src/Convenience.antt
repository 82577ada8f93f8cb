-- ===== src/Convenience.antt =====
-- nearest_gain() of rtl-sdr/src/convenience/convenience.c, over rtlsdr_get_tuner_gains() and
-- rtlsdr_set_tuner_gain_mode() of rtl-sdr/src/librtlsdr.c.
pub mod Calls
pub mod Nearest
pub mod Search
mod Tests
use ebc_sdr_native.Prelude.{ℕ, suc, ◌+◌, Bool, true, false, List, [], ◌∷◌, ltb}
use ebc_sdr_native.Prelude.Int.{ℤ, pos, negsuc, ◌-ℤ◌, pos_part, neg_part, is_neg}
use ebc_sdr_native.Registers
use ebc_sdr_native.E4k.Gains.Accepted.{e4k_gains}
use ebc_sdr_native.Device.{TunerKind, Tuner, Radio}
use ebc_sdr_native.Device.Settings.{set_tuner_gain_mode}
use mathlib.Core.List.{map}

abbrev pub fc0012_gains : List ℤ
fc0012_gains = negsuc 98 ∷ negsuc 39 ∷ pos 71 ∷ pos 179 ∷ pos 192 ∷ []

abbrev pub fc0013_gains : List ℤ
fc0013_gains =
    negsuc 98
    ∷ negsuc 72
    ∷ negsuc 64
    ∷ negsuc 62
    ∷ negsuc 59
    ∷ negsuc 57
    ∷ negsuc 53
    ∷ map pos
        (58 ∷ 61 ∷ 63 ∷ 65 ∷ 67 ∷ 68 ∷ 70 ∷ 71 ∷ 179 ∷ 181 ∷ 182 ∷ 184 ∷ 186 ∷ 188 ∷ 191 ∷ 197 ∷ [])

abbrev pub r82xx_gains : List ℤ
r82xx_gains = map pos (
    0 ∷ 9 ∷ 14 ∷ 27 ∷ 37 ∷ 77 ∷ 87 ∷ 125 ∷ 144 ∷ 157 ∷ 166 ∷ 197 ∷ 207 ∷ 229 ∷ 254 ∷ 280 ∷ 297 ∷ 328
    ∷ 338 ∷ 364 ∷ 372 ∷ 386 ∷ 402 ∷ 421 ∷ 434 ∷ 439 ∷ 445 ∷ 480 ∷ 496 ∷ [])

-- rtlsdr_get_tuner_gains(): the gains in tenths of a dB, which never are none
unfoldable pub get_tuner_gains : TunerKind → List ℤ
get_tuner_gains TunerKind.e4000 = e4k_gains
get_tuner_gains TunerKind.fc0012 = fc0012_gains
get_tuner_gains TunerKind.fc0013 = fc0013_gains
get_tuner_gains TunerKind.r820t = r82xx_gains
get_tuner_gains TunerKind.r828d = r82xx_gains
get_tuner_gains _ = pos 0 ∷ []

-- abs() of a difference
unfoldable pub distance : ℤ → ℤ → ℕ
unfolding ◌-ℤ◌
distance a b = let d = a -ℤ b in pos_part d + neg_part d

-- the loop, with the nearest gain so far
unfoldable pub nearest_loop : ℤ → ℤ → List ℤ → ℤ
unfolding distance
nearest_loop target nearest [] = nearest
nearest_loop target nearest (g ∷ rest) = elim (ltb (distance target g) (distance target nearest)) [
  | true ↦ nearest_loop target g rest
  | false ↦ nearest_loop target nearest rest
]

-- `nearest` starts as gains[0]
unfoldable pub nearest_of : ℤ → List ℤ → ℤ
unfolding nearest_loop
nearest_of target [] = pos 0
nearest_of target (g ∷ gains) = nearest_loop target g (g ∷ gains)

unfoldable pub nearest_gain : {k : Registers.Control} {t : Tuner k} → ℤ → Radio k t → ℤ × Radio k t
unfolding set_tuner_gain_mode get_tuner_gains nearest_of
nearest_gain target s =
    let (r, s') = set_tuner_gain_mode (pos 1) s in
    elim (is_neg r) [
      | true ↦ (r, s')
      | false ↦ (nearest_of target (get_tuner_gains s'.tuner_type), s')
    ]
