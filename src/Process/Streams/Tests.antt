-- ===== src/Process/Streams/Tests.antt =====
-- A concrete copied stream for src/process.c, with a bitstream filter.
use ffmpeg_wasi.Base.{Option, ◌≡◌, refl, map, ℕ, true, List, [], ◌∷◌, none, some}
use ffmpeg_wasi.Base.Int.{pos}
use ffmpeg_wasi.Base.Text.{Bytes, codes, streq}
use ffmpeg_wasi.Av.{video, subtitle, Rational, Result, ok, err}
use ffmpeg_wasi.Process.Lanes.{Target}
use ffmpeg_wasi.Process.Copying.{Cpy}
use ffmpeg_wasi.Process.Spec.Tree.{Value, string, object, field, end, tree, entries}
use ffmpeg_wasi.Process.Streams.{Origin, Lane, Muxing, setup_copies, setup_copy_stream, filter_for}

abbrev ticks : Rational
ticks = record { num = 1; den = 90000 }

-- Every call succeeds; the state is the number of streams of the muxer.
abbrev muxing : Muxing (List (Bytes × Bytes)) ℕ
muxing = record {
  new_stream = λ o n. (pos n, n);
  parameters_copy = λ i n. (none, n);
  bsf_parse = λ i name n. (none, n);
  bsf_parameters = λ i n. (none, n);
  bsf_init = λ i tb n. (none, n);
  bsf_time_base = λ i n. ticks;
  bsf_result = λ i n. (none, n);
  has_decoder = λ i st. true;
  open_sub_decoder = λ i n. (none, n);
  encoder_type = λ name. some subtitle;
  start_sub = λ i tb d n. (ok [], n);
  parameters_from = λ i n. (none, n);
}

abbrev origin_of : ℕ → ℕ → Origin
origin_of i st = record {
  codec_type = video;
  time_base = ticks;
  avg_frame_rate = record { num = 25; den = 1 };
  sample_rate = 0;
  frame_size = 0;
}

abbrev lane_of : ℕ → Lane Value (List (Bytes × Bytes))
lane_of o = record {
  bsf = some (object (field (codes "0:v") (string (codes "h264_mp4toannexb")) end));
  scodec = [];
  enc_opts = [];
  senc_opts = [];
}

abbrev targets : List Target
targets =
    record { in_idx = 0; st_idx = 0; out_idx = 0; map_key = some (codes "0:v") }
    ∷ record { in_idx = 0; st_idx = 1; out_idx = 0; map_key = none }
    ∷ []

abbrev filters_of : Result (List Cpy × ℕ) → List (Option Rational)
filters_of (err code) = []
filters_of (ok (cs, n)) = map (λ (c : Cpy). c.bsf) cs

-- Only the stream with a key is filtered.
one_filtered :
    filters_of (setup_copies tree entries muxing origin_of lane_of 0 targets 0)
    ≡ some ticks ∷ none ∷ []
unfolding setup_copies setup_copy_stream filter_for streq
one_filtered = refl
