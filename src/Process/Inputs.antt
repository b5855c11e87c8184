-- ===== src/Process/Inputs.antt =====
-- src/process.c: how the inputs of a job are after_opening: open_concat_input, open_one_input, the loop of
-- op_process over `inputs` with the seek of each, and the loop that closes them at its end. Demuxers are
-- the calls on the contexts `c.in`, by number, on the state S of all of them; that an allocation fails
-- is left out.
mod Tests
pub mod Held
pub mod Released
use ffmpeg_wasi.Base.{
  ℕ, zero, suc, Bool, true, false, not, ◌&&◌, ◌||◌, List, [], ◌∷◌, ◌++◌, Option, none, some, leb,
  ltb, if◌then◌else◌, length,
}
use ffmpeg_wasi.Base.Int.{ℤ}
use ffmpeg_wasi.Base.Text.{Bytes, codes, streq}
use ffmpeg_wasi.Av.{AvError, einval, demuxer_not_found, Result, ok, err}
use ffmpeg_wasi.Process.Timestamps.{nopts}
use ffmpeg_wasi.Process.Spec.{
  Json, Doubles, spec_seconds, children_of, string_value, number_value, object_of, array_of,
}
use ffmpeg_wasi.Process.Spec.Options.{Dictionary, opts_from_json}

-- MAX_INPUTS
abbrev pub max_inputs : ℕ
max_inputs = 32

-- av_find_input_format, afio_open_input (which answers with the options that are left),
-- afio_open_concat, avformat_find_stream_info, avformat_close_input, avformat_seek_file and
-- afio_close_input.
pub record Demuxers (D F S : Type 0) : Type 0 where
  pub find_input_format : Bytes → Option F
  pub open_input : ℕ → Option Bytes → Option F → D → S → Result D × S
  pub open_concat : ℕ → List Bytes → S → Result (Unit {0}) × S
  pub find_stream_info : ℕ → S → Option AvError × S
  pub close_input : ℕ → S → S
  pub seek_file : ℕ → ℤ → S → Option AvError × S
  pub afio_close : ℕ → S → S

-- `seek_us` and `seek_accurate` of an input.
pub record SeekWindow : Type 0 where
  pub seek_us : ℤ
  pub accurate : Bool

-- What the loop leaves: its code, `n_in`, the seeks of the inputs that it went through, and the state.
pub record Opening (S : Type 0) : Type 0 where
  pub code : Option AvError
  pub n_in : ℕ
  pub seeks : List SeekWindow
  pub lib : S

module _ {J T D F S : Type 0} (js : Json J T) (num : Doubles T) (dict : Dictionary D)
    (av : Demuxers D F S) where
  -- The segments, `none` if one is not a string.
  abbrev pub and_segment : Option Bytes → Option (List Bytes) → Option (List Bytes)
  and_segment none ss = none
  and_segment (some s) none = none
  and_segment (some s) (some ss) = some (s ∷ ss)

  unfoldable pub segments : List (Option Bytes × J) → Option (List Bytes)
  segments [] = some []
  segments ((key, seg) ∷ kvs) = and_segment (js.string_of seg) (segments kvs)

  -- The end of both ways to open: a context without its streams is closed.
  abbrev pub after_info : ℕ → Option AvError × S → Result (Unit {0}) × S
  after_info i (none, w) = (ok tt, w)
  after_info i (some code, w) = (err code, av.close_input i w)

  abbrev pub after_concat : ℕ → Result (Unit {0}) × S → Result (Unit {0}) × S
  after_concat i (err code, w) = (err code, w)
  after_concat i (ok u, w) = after_info i (av.find_stream_info i w)

  abbrev pub concat_of : ℕ → Option (List Bytes) → S → Result (Unit {0}) × S
  concat_of i none w = (err einval, w)
  concat_of i (some segs) w = after_concat i (av.open_concat i segs w)

  unfoldable pub open_concat_input : ℕ → List (Option Bytes × J) → S → Result (Unit {0}) × S
  unfolding segments
  open_concat_input i [] w = (err einval, w)
  open_concat_input i (kv ∷ kvs) w = concat_of i (segments (kv ∷ kvs)) w

  -- Options that the demuxer left are an error, and the context is closed.
  abbrev pub after_open : ℕ → Result D × S → Result (Unit {0}) × S
  after_open i (err code, w) = (err code, w)
  after_open i (ok opts, w) =
      if ltb 0 (dict.dict_count opts)
      then (err einval, av.close_input i w)
      else after_info i (av.find_stream_info i w)

  abbrev pub open_with : ℕ → Option Bytes → Option F → Result D → S → Result (Unit {0}) × S
  open_with i path ifmt (err code) w = (err einval, w)
  open_with i path ifmt (ok opts) w = after_open i (av.open_input i path ifmt opts w)

  abbrev pub open_found : ℕ → J → Option F → S → Result (Unit {0}) × S
  open_found i spec none w = (err demuxer_not_found, w)
  open_found i spec (some ifmt) w =
      open_with i (string_value js (js.get_object_item spec (codes "path"))) (some ifmt)
        (opts_from_json js dict dict.null (js.get_object_item spec (codes "options"))) w

  -- By the forced demuxer, if there is one.
  abbrev pub open_path : ℕ → J → Option Bytes → S → Result (Unit {0}) × S
  open_path i spec none w =
      open_with i (string_value js (js.get_object_item spec (codes "path"))) none
        (opts_from_json js dict dict.null (js.get_object_item spec (codes "options"))) w
  open_path i spec (some name) w = open_found i spec (av.find_input_format name) w

  abbrev pub is_filled : Option J → Bool
  is_filled concat = array_of js concat && ltb 0 (length (children_of js concat))

  unfoldable pub open_one_input : ℕ → J → S → Result (Unit {0}) × S
  unfolding open_concat_input
  open_one_input i spec w =
      if is_filled (js.get_object_item spec (codes "concat"))
      then open_concat_input i (children_of js (js.get_object_item spec (codes "concat"))) w
      else open_path i spec (string_value js (js.get_object_item spec (codes "format"))) w

  -- The seek of an input.
  abbrev pub is_mode : Option Bytes → Bool
  is_mode none = true
  is_mode (some mode) = streq mode (codes "fast") || streq mode (codes "accurate")

  abbrev pub is_accurate : Option Bytes → Bool
  is_accurate none = false
  is_accurate (some mode) = streq mode (codes "accurate")

  abbrev pub after_seek : SeekWindow → Option AvError × S → Result SeekWindow × S
  after_seek s (none, w) = (ok s, w)
  after_seek s (some code, w) = (err code, w)

  abbrev pub start_time : Option T → Option ℤ
  start_time none = none
  start_time (some v) = spec_seconds num v

  abbrev pub seek_to : ℕ → Option ℤ → Option Bytes → S → Result SeekWindow × S
  seek_to i none mode w = (err einval, w)
  seek_to i (some start) mode w =
      if not (is_mode mode)
      then (err einval, w)
      else after_seek (record { seek_us = start; accurate = is_accurate mode })
          (av.seek_file i start w)

  abbrev pub seek_by : ℕ → Option J → S → Result SeekWindow × S
  seek_by i none w = (ok (record { seek_us = nopts; accurate = false }), w)
  seek_by i (some sk) w =
      seek_to i (start_time (number_value js (js.get_object_item sk (codes "start"))))
        (string_value js (js.get_object_item sk (codes "mode"))) w

  unfoldable pub seek_input : ℕ → J → S → Result SeekWindow × S
  seek_input i spec w =
      seek_by i
        (if object_of js (js.get_object_item spec (codes "seek"))
          then js.get_object_item spec (codes "seek")
          else none)
        w

  -- The loop, from input `ii` on: an input counts from the moment that it is open.
  abbrev pub after_seeking :
      (List SeekWindow → S → Opening S) → ℕ → List SeekWindow → Result SeekWindow × S → Opening S
  after_seeking k ii seeks (err code, w) = record {
    code = some code;
    n_in = suc ii;
    seeks = seeks;
    lib = w;
  }
  after_seeking k ii seeks (ok s, w) = k (seeks ++ (s ∷ [])) w

  abbrev pub after_opening :
      (S → Opening S) → ℕ → List SeekWindow → Result (Unit {0}) × S → Opening S
  after_opening k ii seeks (err code, w) = record {
    code = some code;
    n_in = ii;
    seeks = seeks;
    lib = w;
  }
  after_opening k ii seeks (ok u, w) = k w

  unfoldable pub open_inputs : List J → ℕ → List SeekWindow → S → Opening S
  unfolding open_one_input seek_input
  open_inputs [] ii seeks w = record { code = none; n_in = ii; seeks = seeks; lib = w }
  open_inputs (spec ∷ specs) ii seeks w =
      if leb max_inputs ii
      then record { code = some einval; n_in = ii; seeks = seeks; lib = w }
      else after_opening
          (λ w'. after_seeking (open_inputs specs (suc ii)) ii seeks (seek_input ii spec w')) ii
          seeks (open_one_input ii spec w)

  -- The inputs from `i` on are closed, `n` of them.
  unfoldable pub close_inputs : ℕ → ℕ → S → S
  close_inputs zero i w = w
  close_inputs (suc n) i w = close_inputs n (suc i) (av.afio_close i w)
