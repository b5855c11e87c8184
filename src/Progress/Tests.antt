-- ===== src/Progress/Tests.antt =====
-- Concrete jobs for the emitter of src/progress.c.
use ffmpeg_wasi.Base.{true, false, List, [], ◌∷◌}
use ffmpeg_wasi.Base.Int.{pos, negsuc}
use ffmpeg_wasi.Progress.Emitter.{Answer, Note, progress_open, run}
use ffmpeg_wasi.Progress.Throttle.{IsThrottled, run-IsThrottled}

abbrev fine : Answer
fine = record { fits = true; whole = true }

-- A video packet, an audio packet with no time, and a video packet 150 ms on.
abbrev notes : List Note
notes =
    record { is_video = true; out_time_us = pos 0; pkt_size = pos 700; answer = fine }
    ∷ record { is_video = false; out_time_us = negsuc 0; pkt_size = pos 90; answer = fine }
    ∷ record { is_video = true; out_time_us = pos 150000; pkt_size = pos 300; answer = fine }
    ∷ []

run-IsThrottled_example :
    IsThrottled (run (progress_open true (pos 1000000) false true).0 [] notes).1
run-IsThrottled_example = run-IsThrottled true (pos 1000000) false true notes
