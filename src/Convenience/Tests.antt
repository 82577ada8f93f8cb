-- ===== src/Convenience/Tests.antt =====
-- nearest_gain() and verbose_device_search() of rtl-sdr/src/convenience/convenience.c at concrete gains
-- and devices.
use ebc_sdr_native.Prelude.{ℕ, zero, suc, ◌≡◌, refl, some, List, [], ◌∷◌}
use ebc_sdr_native.Prelude.Int.{ℤ, pos, negsuc}
use ebc_sdr_native.Bridge.Tests.{wire, no_tuner}
use ebc_sdr_native.Device.{TunerKind, Radio}
use ebc_sdr_native.Device.Held.{new_radio}
use ebc_sdr_native.Convenience.Calls.{set_gain_by_perc, percent_index, set_gain_by_perc-some}
use ebc_sdr_native.Convenience.{nearest_of, get_tuner_gains}
use ebc_sdr_native.Convenience.Nearest.{IsNearestGain, nearest_of-get_tuner_gains}
use ebc_sdr_native.Convenience.Search.{verbose_device_search}
use ebc_sdr_native.Convenience.Search.Chosen.{Chosen, verbose_device_search-Chosen}

-- of two gains at the same distance the first is taken
tie : nearest_of (pos 350) (get_tuner_gains TunerKind.e4000) ≡ pos 340
unfolding nearest_of get_tuner_gains
tie = refl

below : nearest_of (negsuc 200) (get_tuner_gains TunerKind.fc0013) ≡ negsuc 98
unfolding nearest_of get_tuner_gains
below = refl

nearest_of-get_tuner_gains_example :
    IsNearestGain
      (pos 300)
      (get_tuner_gains TunerKind.r820t)
      (nearest_of (pos 300) (get_tuner_gains TunerKind.r820t))
nearest_of-get_tuner_gains_example = nearest_of-get_tuner_gains (pos 300) TunerKind.r820t

-- three devices: the serial of device i is 8, 4, i
abbrev serials : ℕ → List ℕ → List ℕ
serials i str = 8 ∷ 4 ∷ i ∷ []

-- a string that does not begin with a number
abbrev no_number : List ℕ → ℤ × List ℕ
no_number s = (pos 0, s)

first_prefix : verbose_device_search serials no_number (8 ∷ 4 ∷ []) 3 ≡ pos 0
unfolding verbose_device_search
first_prefix = refl

only_suffix : verbose_device_search serials no_number (4 ∷ 2 ∷ []) 3 ≡ pos 2
unfolding verbose_device_search
only_suffix = refl

by_number : verbose_device_search serials (λ s. (pos 1, [])) (49 ∷ []) 3 ≡ pos 1
unfolding verbose_device_search
by_number = refl

-- of two devices the first cannot be opened, so that its buffer still holds the serial of the second
abbrev first_busy : ℕ → List ℕ → List ℕ
first_busy zero str = str
first_busy (suc i) str = 7 ∷ []

stale_serial : verbose_device_search first_busy no_number (7 ∷ []) 2 ≡ pos 0
unfolding verbose_device_search
stale_serial = refl

verbose_device_search-Chosen_example :
    Chosen
      (λ i. 8 ∷ 4 ∷ i ∷ [])
      3
      (8 ∷ 4 ∷ 2 ∷ [])
      (verbose_device_search serials no_number (8 ∷ 4 ∷ 2 ∷ []) 3)
verbose_device_search-Chosen_example =
    verbose_device_search-Chosen serials (λ i. 8 ∷ 4 ∷ i ∷ []) no_number (8 ∷ 4 ∷ 2 ∷ []) 2
      (λ i str h. refl) refl

-- the last of 29 gains at 100 percent and above, number 14 of them at 50
at_percent :
    (percent_index 100 29 ≡ 28) × ((percent_index 250 29 ≡ 28) × (percent_index 50 29 ≡ 14))
unfolding percent_index
at_percent = (refl, (refl, refl))

abbrev with_r820t : Radio wire no_tuner
with_r820t =
    new_radio (λ kind. no_tuner) (λ kind. 0) TunerKind.r820t
      (record { manufact = []; product = [] }) 0 TunerKind.r820t

set_gain_by_perc-some_example :
    (result : ℤ × Radio wire no_tuner) × (set_gain_by_perc 100 with_r820t ≡ some result)
set_gain_by_perc-some_example = set_gain_by_perc-some 100 with_r820t
