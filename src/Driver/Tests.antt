-- ===== src/Driver/Tests.antt =====
-- Concrete command lines and component names for src/driver.c.
use ffmpeg_wasi.Base.{ℕ, ◌≤◌, ◌≡◌, ◌⊎◌, refl, true, false, Option, some}
use ffmpeg_wasi.Base.Int.{pos}
use ffmpeg_wasi.Base.Text.{Bytes, codes, streq}
use ffmpeg_wasi.Driver.Main.{
  Spec, Version, number, process, call, exit, main, name_of, IsSupported, main-IsSupported,
}

abbrev eleven : Version
eleven = number (record { valueint = pos 11; is_whole = true; is_negative = false })

abbrev parse_one : Bytes → Option Spec
parse_one s = some (record { version = eleven; op = name_of process })

main-IsSupported_example :
    (IsSupported eleven × (main parse_one (some (codes "{}")) ≡ call process))
    ⊎ ((¬ IsSupported eleven)
        × (rc : ℕ) × (main parse_one (some (codes "{}")) ≡ exit rc)
        × (2 ≤ rc)
        × (rc ≤ 3))
unfolding streq
main-IsSupported_example =
    main-IsSupported parse_one (codes "{}") eleven process refl refl (λ e. cc) refl
