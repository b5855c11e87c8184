-- ===== src/Frames/Select/Tests.antt =====
-- A concrete `select` for src/frames.c.
use ffmpeg_wasi.Base.{ℕ, ◌+◌, ltb, some}
use ffmpeg_wasi.Frames.Select.{Doubles, Select, absent, item, number, cap_of, parse_select}
use ffmpeg_wasi.Frames.Select.Bounded.{Fits, parse_select-Fits}

-- Whole seconds.
abbrev whole : Doubles ℕ
whole = record { origin = 0; plus = λ a b. a + b; less = ltb }

-- A picture every second.
abbrev each_second : Select ℕ
each_second = record {
  timestamp = absent;
  timestamps = absent;
  interval = item (number 1);
  scene = absent;
}

parse_select-Fits_example :
    Fits whole (cap_of (some 3)) (parse_select whole each_second (some 10) (cap_of (some 3)))
parse_select-Fits_example = parse_select-Fits whole each_second (some 10) (some 3)
