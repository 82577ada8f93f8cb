-- ===== src/R82xx/Model.antt =====
-- rtlsdr_check_dongle_model() of rtl-sdr/src/librtlsdr.c, and the models that
-- rtl-sdr/src/tuner_r82xx.c asks it for.
use ebc_sdr_native.Prelude.{ℕ, Bool, ◌&&◌, List, [], ◌∷◌}
use ebc_sdr_native.R82xx.{RtlDev}
use ebc_sdr_native.R82xx.Regs.{bytes_eq}
use Prim.Native.Char.{code}
use Prim.Native.String.{String}

-- the characters of an ASCII string
abbrev pub codes : String → List ℕ
codes String.[] = []
codes (String.◌∷◌ c s) = code c ∷ codes s

-- strcmp() == 0 of both strings
unfoldable pub check_dongle_model : RtlDev → List ℕ → List ℕ → Bool
check_dongle_model dev manufact_check product_check =
    bytes_eq dev.manufact manufact_check && bytes_eq dev.product product_check

unfoldable pub is_v4 : RtlDev → Bool
unfolding check_dongle_model
is_v4 dev = check_dongle_model dev (codes "RTLSDRBlog") (codes "Blog V4")

unfoldable pub is_v4l : RtlDev → Bool
unfolding check_dongle_model
is_v4l dev = check_dongle_model dev (codes "RTLSDRBlog") (codes "Blog V4L")
