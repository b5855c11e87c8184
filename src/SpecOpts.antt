-- ===== src/SpecOpts.antt =====
-- src/specopts.c: the bound on the options that make a component iterate.
mod Tests
pub mod Bounds
use ffmpeg_wasi.Base.{
  ℕ, ◌≡◌, Bool, true, false, not, ◌&&◌, ◌||◌, List, [], ◌∷◌, Option, none, some, any, if◌then◌else◌,
}
use ffmpeg_wasi.Base.Int.{ℤ, pos, ltb_ℤ}
use ffmpeg_wasi.Base.Text.{Bytes, codes, streq}
use ffmpeg_wasi.Base.Number.{Parsed, strto, long_min, long_max}
use ffmpeg_wasi.Av.{Result, ok, err, einval}

-- SPEC_OPTION_CEILING
abbrev pub spec_option_ceiling : ℤ
spec_option_ceiling = pos 10000

-- The table of watched options.
abbrev pub bounded : List Bytes
bounded = codes "start_number_range" ∷ codes "recursion_depth" ∷ []

-- The test on a watched option's value: what strtoll does not read to its end, or reads out of
-- range, is left to libav.
unfoldable pub value_in_bounds : Option Parsed → Result (Unit {0})
value_in_bounds none = ok tt
value_in_bounds (some p) =
    if not (streq p.rest []) || p.out_of_range
    then ok tt
    else if ltb_ℤ spec_option_ceiling p.value
    then err einval
    else ok tt

-- `none` is a NULL key or value. `op` only names the operation in the message.
unfoldable pub spec_option_in_bounds : Option Bytes → Option Bytes → Result (Unit {0})
unfolding value_in_bounds
spec_option_in_bounds none value = ok tt
spec_option_in_bounds (some key) none = ok tt
spec_option_in_bounds (some key) (some value) =
    if any (streq key) bounded then value_in_bounds (strto long_min long_max value) else ok tt
