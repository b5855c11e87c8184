-- ===== src/Process/Setup/Default.antt =====
-- src/process.c: build_default_graph, and the choice of the graph's text in op_process. The buffers that
-- the text is built in hold 256 and 512 bytes.
use ffmpeg_wasi.Base.{
  ℕ, Bool, true, false, ◌&&◌, [], ◌∷◌, ◌++◌, Option, none, some, length, take, ◌==◌, if◌then◌else◌,
}
use ffmpeg_wasi.Base.Text.{Bytes, codes}
use ffmpeg_wasi.Av.{MediaType, video, audio, Result, ok, err}
use ffmpeg_wasi.Process.MapSpec.{last_byte}
use ffmpeg_wasi.Process.Lanes.{Output, encodes}

-- `av_find_best_stream(...) >= 0`
abbrev pub is_found : Result ℕ → Bool
is_found (err code) = false
is_found (ok st) = true

abbrev pub lane : Option Bytes → Result ℕ → Bytes → Bytes
lane codec best text = if encodes codec && is_found best then text else []

-- Without its last byte, if that is a semicolon.
abbrev pub trimmed : Bytes → Bytes
trimmed [] = []
trimmed (c ∷ s) = if last_byte c s == b';' then take (length s) (c ∷ s) else c ∷ s

-- `best` is av_find_best_stream on input 0, `out` output 0.
unfoldable pub build_default_graph : (MediaType → Result ℕ) → Output → Bytes
build_default_graph best out = trimmed (
    lane out.vcodec (best video) (codes "[0:v]null[v];")
    ++ lane out.acodec (best audio) (codes "[0:a]anull[a];"))

-- The job's `filter`, or the default graph where it is absent or empty.
unfoldable pub graph_text : Option Bytes → (MediaType → Result ℕ) → Output → Bytes
unfolding build_default_graph
graph_text none best out = build_default_graph best out
graph_text (some []) best out = build_default_graph best out
graph_text (some (c ∷ s)) best out = c ∷ s
