-- ===== src/Process/Spec/Tests.antt =====
-- A concrete job for src/process.c: its outputs and their options.
use ffmpeg_wasi.Base.{
  Pairwise, ◌≡◌, refl, ◌↔◌, ◌≤◌, ◌<◌, ℕ, List, [], ◌∷◌, Option, none, some, length,
}
use ffmpeg_wasi.Base.Text.{Bytes, codes, streq}
use ffmpeg_wasi.Av.{Result, ok}
use ffmpeg_wasi.SpecOpts.{spec_option_in_bounds, value_in_bounds}
use ffmpeg_wasi.Process.Spec.{spec_seconds}
use ffmpeg_wasi.Process.Spec.Tree.{
  Value, number, string, array, object, end, field, tree, whole, entries, entry,
  entries-IsDictionary,
}
use ffmpeg_wasi.Process.Spec.Options.{set_option, set_options, opts_from_json, open_encoder_opts}
use ffmpeg_wasi.Process.Spec.Assigned.{Strictly, latest, members, open_encoder_opts-kind_wins}
use ffmpeg_wasi.Process.Spec.Outputs.{
  max_outputs, Out, Reading, rejected, read, seconds_of, window_of, lanes_of, parse_rest,
  parse_output, parse_outputs, read_outputs,
}
use ffmpeg_wasi.Process.Spec.Accepted.{IfParsed, IsOutput, parse_output-IsOutput}
use ffmpeg_wasi.Process.Spec.Several.{Parses, AllMapped, read_outputs_iff}

abbrev set_to : Bytes → Bytes → Value
set_to key value = object (field key (string value) end)

abbrev common_options : Value
common_options =
    object (field (codes "b") (string (codes "1M")) (field (codes "g") (string (codes "50")) end))

abbrev video_options : Value
video_options = set_to (codes "b") (codes "2M")

-- A window of 5 seconds, and the two objects of options.
abbrev spec : Value
spec = object (
    field (codes "path") (string (codes "out.mkv")) (
      field (codes "video_codec") (string (codes "libx264")) (
        field (codes "duration") (number 5) (
          field (codes "map") (array (field [] (string (codes "[v]")) end)) (
            field (codes "options") common_options
              (field (codes "video_options") video_options end))))))

-- Every format is resolved, by its path.
abbrev alloc : Option Bytes → Bytes → Option Bytes
alloc format path = some path

abbrev outs_of :
    Reading (List (Out Value (List (Bytes × Bytes)) Bytes))
    → List (Out Value (List (Bytes × Bytes)) Bytes)
outs_of (read outs) = outs
outs_of _ = []

abbrev outputs : List (Out Value (List (Bytes × Bytes)) Bytes)
outputs = outs_of (read_outputs tree whole entries alloc (spec ∷ spec ∷ []))

two_read : length outputs ≡ 2
unfolding read_outputs parse_outputs parse_output parse_rest window_of seconds_of lanes_of
    opts_from_json set_options set_option spec_option_in_bounds value_in_bounds spec_seconds streq
two_read = refl

-- An option that is a number.
refused :
    read_outputs tree whole entries alloc (
      object (
        field (codes "path") (string (codes "out.mkv")) (
          field
            (codes "audio_codec")
            (string (codes "aac"))
            (field (codes "options") (object (field (codes "ar") (number 48000) end)) end)))
      ∷ [])
    ≡ rejected
unfolding read_outputs parse_outputs parse_output parse_rest window_of seconds_of lanes_of
    opts_from_json set_options set_option spec_option_in_bounds value_in_bounds spec_seconds streq
refused = refl

parse_output-IsOutput_example :
    IfParsed
      (IsOutput tree whole entries alloc streq entry entries-IsDictionary spec)
      (parse_output tree whole entries alloc spec)
parse_output-IsOutput_example =
    parse_output-IsOutput tree whole entries alloc streq entry entries-IsDictionary spec

read_outputs_iff_example :
    (read_outputs tree whole entries alloc (spec ∷ spec ∷ []) ≡ read outputs) ↔ (
      Pairwise (Parses tree whole entries alloc) (spec ∷ spec ∷ []) outputs
      × (length outputs ≤ max_outputs)
      × (1 < length outputs → AllMapped tree whole entries alloc outputs))
read_outputs_iff_example = read_outputs_iff tree whole entries alloc (spec ∷ spec ∷ []) outputs

-- avcodec_open2 that takes every option.
abbrev take_all : List (Bytes × Bytes) → ℕ → Result (List (Bytes × Bytes)) × ℕ
take_all opts n = (ok [], n)

common_read :
    opts_from_json tree entries [] (some common_options)
    ≡ ok ((codes "g", codes "50") ∷ (codes "b", codes "1M") ∷ [])
unfolding opts_from_json set_options set_option spec_option_in_bounds streq
common_read = refl

video_read : opts_from_json tree entries [] (some video_options) ≡ ok ((codes "b", codes "2M") ∷ [])
unfolding opts_from_json set_options set_option spec_option_in_bounds streq
video_read = refl

open_encoder_opts-kind_wins_example :
    (d : List (Bytes × Bytes)) × Strictly tree entries streq entry entries-IsDictionary
      (take_all d 0)
      (open_encoder_opts entries take_all
        ((codes "g", codes "50") ∷ (codes "b", codes "1M") ∷ [])
        ((codes "b", codes "2M") ∷ [])
        0)
    × ((q : Bytes)
        → entry d q
          ≡ latest tree entries streq entry entries-IsDictionary q
              (members tree entries streq entry entries-IsDictionary (some video_options))
              (latest tree entries streq entry entries-IsDictionary q
                (members tree entries streq entry entries-IsDictionary (some common_options))
                none))
open_encoder_opts-kind_wins_example =
    open_encoder_opts-kind_wins tree entries streq entry entries-IsDictionary take_all 0
      (some common_options) (some video_options)
      ((codes "g", codes "50") ∷ (codes "b", codes "1M") ∷ []) ((codes "b", codes "2M") ∷ [])
      common_read video_read
