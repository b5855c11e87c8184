-- ===== src/SpecOpts/Tests.antt =====
-- Concrete options for the bound of src/specopts.c.
use ffmpeg_wasi.Base.{◌<◌, ◌≡◌, ◌↔◌, refl, some, arith}
use ffmpeg_wasi.Base.Text.{codes}
use ffmpeg_wasi.Base.Number.{decimal}
use ffmpeg_wasi.Av.{err, einval}
use ffmpeg_wasi.SpecOpts.{spec_option_in_bounds}
use ffmpeg_wasi.SpecOpts.Bounds.{IsWatched, spec_option_in_bounds-digits}

spec_option_in_bounds-digits_example :
    (spec_option_in_bounds (some (codes "start_number_range")) (some (codes "20000")) ≡ err einval)
    ↔ (IsWatched (codes "start_number_range") × (10000 < decimal 0 (codes "20000")))
spec_option_in_bounds-digits_example =
    spec_option_in_bounds-digits (codes "start_number_range") b'2' (codes "0000") refl (omega arith)
