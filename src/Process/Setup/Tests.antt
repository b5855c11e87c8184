-- ===== src/Process/Setup/Tests.antt =====
-- A concrete graph for src/process.c: the default one of a video with its sound.
use ffmpeg_wasi.Base.{◌≡◌, refl, ℕ, true, false, List, [], ◌∷◌, Option, none, some, length}
use ffmpeg_wasi.Base.Int.{pos}
use ffmpeg_wasi.Base.Text.{Bytes, codes, streq}
use ffmpeg_wasi.Av.{MediaType, video, audio, Rational, Result, ok, err, stream_not_found, IfOk}
use ffmpeg_wasi.Process.Graph.{GIn, GOut}
use ffmpeg_wasi.Process.Lanes.{Output}
use ffmpeg_wasi.Process.Spec.Tree.{entries}
use ffmpeg_wasi.Process.Setup.{InStream, OutPad, Filters}
use ffmpeg_wasi.Process.Setup.Default.{build_default_graph, graph_text}
use ffmpeg_wasi.Process.Setup.Whole.{wire}
use ffmpeg_wasi.Process.Setup.Ready.{IsReady, wire-IsReady}

abbrev second : Rational
second = record { num = 1; den = 1 }

abbrev stream : MediaType → InStream
stream type = record {
  type = type;
  time_base = record { num = 1; den = 90000 };
  avg_frame_rate = record { num = 25; den = 1 };
  r_frame_rate = record { num = 25; den = 1 };
}

abbrev pad_names : List (Option Bytes)
pad_names = some (codes "0:v") ∷ some (codes "0:a") ∷ []

abbrev out_pads : List OutPad
out_pads =
    record { name = some (codes "v"); type = video }
    ∷ record { name = some (codes "a"); type = audio }
    ∷ []

-- Every call succeeds; the state is the number of streams of the muxer.
abbrev filters : Filters Bytes (List (Bytes × Bytes)) ℕ
filters = record {
  find_decoder = λ i st. true;
  open_decoder = λ i input st n. (
    ok (record {
      width = pos 640;
      height = pos 480;
      format = pos 0;
      sample_aspect_ratio = record { num = 0; den = 1 };
      sample_rate = 48000;
      layout = codes "stereo";
    }),
    n,
  );
  create_source = λ i source n. (none, n);
  link_source = λ i n. (none, n);
  find_encoder = λ name. some name;
  first_format = λ c type. ok (some (pos 0));
  sample_rates = λ c. ok (some (48000 ∷ []));
  layouts = λ c. ok none;
  set_array = λ i pin n. (none, n);
  init_sink = λ i n. (none, n);
  link_sink = λ i n. (none, n);
  graph_parse = λ text n. ok (pad_names, out_pads, n);
  graph_config = λ n. ok n;
  negotiated = λ i n. record { time_base = second; frame_rate = second; sample_rate = 48000 };
  inv_q = λ r. record { num = r.den; den = r.num };
  start = λ i enc d n. (ok [], n);
  frame_size = λ i n. 1024;
  has_variable_size = λ c. false;
  set_frame_size = λ i size n. n;
  new_stream = λ o n. (pos n, n);
}

-- Stream 0 of input 0 is its video, stream 1 its sound.
abbrev best : ℕ → MediaType → Result ℕ
best i video = ok 0
best i audio = ok 1
best i _ = err stream_not_found

abbrev inputs : List (List InStream)
inputs = (stream video ∷ stream audio ∷ []) ∷ []

abbrev output : Output
output = record {
  vcodec = some (codes "libx264");
  acodec = some (codes "aac");
  scodec = none;
  map = [];
}

default_text : graph_text none (best 0) output ≡ codes "[0:v]null[v];[0:a]anull[a]"
unfolding graph_text build_default_graph streq
default_text = refl

wire-IsReady_example :
    IfOk
      (IsReady filters entries (λ o type. ([], [])) best inputs (output ∷ []) pad_names out_pads)
      (wire filters entries (λ o type. ([], [])) best inputs (output ∷ []) (pad_names, out_pads, 0))
wire-IsReady_example =
    wire-IsReady filters entries (λ o type. ([], [])) best inputs (output ∷ []) pad_names out_pads 0

abbrev counts : Result (List GIn × List GOut × ℕ) → ℕ × ℕ
counts (err code) = (0, 0)
counts (ok (gin, gout, n)) = (length gin, length gout)
