-- ===== src/Process/Inputs/Tests.antt =====
-- A concrete job for src/process.c: its inputs.
use ffmpeg_wasi.Base.{
  ◌≡◌, refl, ◌≤◌, ◌==◌, ℕ, Bool, true, false, List, [], ◌∷◌, Option, none, some, length, ltb,
  if◌then◌else◌,
}
use ffmpeg_wasi.Base.Text.{Bytes, codes, streq}
use ffmpeg_wasi.Av.{AvError, eio, ok}
use ffmpeg_wasi.Process.Spec.{spec_seconds}
use ffmpeg_wasi.Process.Spec.Tree.{
  Value, number, string, array, object, end, field, tree, whole, entries,
}
use ffmpeg_wasi.Process.Spec.Options.{opts_from_json}
use ffmpeg_wasi.Process.Inputs.{
  max_inputs, Demuxers, Opening, open_concat_input, open_one_input, seek_input, segments,
  open_inputs, close_inputs,
}
use ffmpeg_wasi.Process.Inputs.Held.{IsDemuxers}
use ffmpeg_wasi.Process.Inputs.Released.{open_inputs-Released}

-- The state says of each context whether it is open. Every call succeeds but the one for the streams of
-- input 2.
abbrev mark : ℕ → Bool → (ℕ → Bool) → ℕ → Bool
mark i b w = λ j. if i == j then b else w j

abbrev info : ℕ → (ℕ → Bool) → Option AvError × (ℕ → Bool)
info i w = (if i == 2 then some eio else none, w)

abbrev demuxers : Demuxers (List (Bytes × Bytes)) Bytes (ℕ → Bool)
demuxers = record {
  find_input_format = λ name. some name;
  open_input = λ i path f d w. (ok [], mark i true w);
  open_concat = λ i segs w. (ok tt, mark i true w);
  find_stream_info = info;
  close_input = λ i w. mark i false w;
  seek_file = λ i t w. (none, w);
  afio_close = λ i w. mark i false w;
}

abbrev is_open : ℕ → (ℕ → Bool) → Bool
is_open j w = w j

laws : IsDemuxers demuxers is_open
laws = record {
  open_input-Marked = λ i path f d w c j. refl;
  open_concat-Marked = λ i segs w c j. refl;
  find_stream_info-same = λ i w j. refl;
  seek_file-same = λ i t w j. refl;
  close_input-Marked = λ i w j. refl;
  afio_close-Marked = λ i w j. refl;
}

-- A file with a seek, a concat_input, and a third input.
abbrev file : Value
file = object (
    field (codes "path") (string (codes "a.mkv")) (
      field (codes "seek")
        (object
          (field (codes "start") (number 5) (field (codes "mode") (string (codes "fast")) end)))
        end))

abbrev concat_input : Value
concat_input = object (
    field (codes "concat")
      (array (field [] (string (codes "a.ts")) (field [] (string (codes "b.ts")) end))) end)

abbrev specs : List Value
specs = file ∷ concat_input ∷ file ∷ []

abbrev nothing : ℕ → Bool
nothing j = false

abbrev opening : Opening (ℕ → Bool)
opening = open_inputs tree whole entries demuxers specs 0 [] nothing

two_held : (opening.code ≡ some eio) × (opening.n_in ≡ 2) × (length opening.seeks ≡ 2)
unfolding open_inputs open_one_input open_concat_input segments seek_input opts_from_json
    spec_seconds streq
two_held = (refl, refl, refl)

open_inputs-Released_example :
    ((j : ℕ) → is_open j opening.lib ≡ ltb j opening.n_in)
    × (opening.n_in ≤ max_inputs)
    × ((j : ℕ)
        → is_open j (close_inputs tree whole entries demuxers opening.n_in 0 opening.lib) ≡ false)
    × (opening.code ≡ none → (opening.n_in ≡ length specs) × (length opening.seeks ≡ length specs))
open_inputs-Released_example =
    open_inputs-Released tree whole entries demuxers is_open laws specs nothing (λ j. refl)
