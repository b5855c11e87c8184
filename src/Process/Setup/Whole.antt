-- ===== src/Process/Setup/Whole.antt =====
-- src/process.c: the set-up of the graph in op_process, from its text to the encoders.
use ffmpeg_wasi.Base.{ℕ, List, [], ◌∷◌, Option}
use ffmpeg_wasi.Base.Text.{Bytes}
use ffmpeg_wasi.Av.{MediaType, Result, ok, err, ◌>>=◌}
use ffmpeg_wasi.Process.Graph.{GIn, GOut}
use ffmpeg_wasi.Process.Lanes.{Output}
use ffmpeg_wasi.Process.Spec.Options.{Dictionary}
use ffmpeg_wasi.Process.Setup.{InStream, Sink, OutPad, Filters}
use ffmpeg_wasi.Process.Setup.Sources.{add_sources}
use ffmpeg_wasi.Process.Setup.Sinks.{add_sinks}
use ffmpeg_wasi.Process.Setup.Encoders.{open_encoders}

module _ {C D S : Type 0} (av : Filters C D S) (dict : Dictionary D)
    (codec_opts : ℕ → MediaType → D × D) (best : ℕ → MediaType → Result ℕ)
    (inputs : List (List InStream)) (outs : List Output) where
  abbrev pub with_gin : List GIn → Result (List GOut × S) → Result (List GIn × List GOut × S)
  with_gin gin (err code) = err code
  with_gin gin (ok (gout, w)) = ok (gin, gout, w)

  -- The pads that the parser leaves open are wired, the graph is configured, and the encoders opened.
  unfoldable pub wire : List (Option Bytes) × List OutPad × S → Result (List GIn × List GOut × S)
  wire (pads, out_pads, w) = add_sources av best inputs pads ([], w) >>= λ (x : List GIn × S).
      add_sinks av outs out_pads ([], x.1) >>= λ (y : List Sink × S).
      av.graph_config y.1 >>= λ (w1 : S).
      with_gin x.0 (open_encoders av dict codec_opts outs 0 y.0 w1)

  -- An empty text is no graph.
  unfoldable pub set_up_graph : Bytes → S → Result (List GIn × List GOut × S)
  unfolding wire
  set_up_graph [] w = ok ([], [], w)
  set_up_graph (c ∷ s) w = av.graph_parse (c ∷ s) w >>= wire
