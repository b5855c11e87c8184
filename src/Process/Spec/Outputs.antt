-- ===== src/Process/Spec/Outputs.antt =====
-- src/process.c: parse_output, and the loop of op_process over `outputs` with the check behind it.
-- `alloc` is what avformat_alloc_output_context2 makes of a format's name and a path.
use ffmpeg_wasi.Base.{
  ℕ, Bool, true, false, not, ◌&&◌, ◌||◌, List, [], ◌∷◌, ◌++◌, Option, none, some, leb, ltb,
  if◌then◌else◌, length, all, replicate,
}
use ffmpeg_wasi.Base.Int.{ℤ, pos}
use ffmpeg_wasi.Base.Text.{Bytes, codes}
use ffmpeg_wasi.Av.{AvError, einval, Result, ok, err}
use ffmpeg_wasi.Process.Timestamps.{nopts}
use ffmpeg_wasi.Process.Mux.{max_mux_streams}
use ffmpeg_wasi.Process.Window.{Seconds, Window}
use ffmpeg_wasi.Process.Lanes.{Output, is_unmapped}
use ffmpeg_wasi.Process.Spec.{
  Json, Doubles, spec_seconds, string_value, number_value, truth_of, strings_of,
}
use ffmpeg_wasi.Process.Spec.Options.{Dictionary, opts_from_json}

-- MAX_OUTPUTS
abbrev pub max_outputs : ℕ
max_outputs = 8

-- An Out: `lanes` has its codecs and its `map`, `window` its window.
pub record Out (J D M : Type 0) : Type 0 where
  pub ofmt : M
  pub path : Bytes
  pub lanes : Output
  pub format : Option Bytes
  pub enc_opts : D
  pub venc_opts : D
  pub aenc_opts : D
  pub senc_opts : D
  pub fmt_opts : D
  pub bsf : Option J
  pub window : Window
  pub metadata : Option J
  pub chapters : Option J
  pub stream_metadata : Option J
  pub last_dts : List ℤ

-- What parse_output returns: 2, -1, or 0 with the Out.
pub data Parse {κ} (A : Type κ) : Type κ where
  malformed : Parse A
  unresolved : Parse A
  parsed : A → Parse A

-- How the reading of the outputs ends: in a malformed one, in a libav code, or with them all.
pub data Reading {κ} (A : Type κ) : Type κ where
  rejected : Reading A
  failed : AvError → Reading A
  read : A → Reading A

abbrev pub is_named : Option Bytes → Bool
is_named none = false
is_named (some s) = true

module _ {J T D M : Type 0} (js : Json J T) (num : Doubles T) (dict : Dictionary D)
    (alloc : Option Bytes → Bytes → Option M) where
  -- `duration` or `end`: 0 where it is no number, `none` where spec_seconds refuses it.
  unfoldable pub seconds_of : Option T → Option Seconds
  seconds_of none = some (record { is_positive = false; micros = pos 0 })
  seconds_of (some v) = elim (spec_seconds num v) [
    | none ↦ none
    | some t ↦ some (record { is_positive = num.less num.origin v; micros = t })
  ]

  -- The window, `none` where it is refused.
  abbrev pub window_from : Bool → Option Seconds → Option Seconds → Option Window
  window_from copy_ts none end = none
  window_from copy_ts (some d) none = none
  window_from copy_ts (some d) (some e) =
      if d.is_positive && e.is_positive
      then none
      else some (record { duration = d; end = e; copy_ts = copy_ts })

  unfoldable pub window_of : J → Option Window
  unfolding seconds_of
  window_of spec =
      window_from (truth_of js (js.get_object_item spec (codes "copy_ts")))
        (seconds_of (number_value js (js.get_object_item spec (codes "duration"))))
        (seconds_of (number_value js (js.get_object_item spec (codes "end"))))

  abbrev pub member_options : J → Bytes → Result D
  member_options spec name = opts_from_json js dict dict.null (js.get_object_item spec name)

  unfoldable pub lanes_of : J → Output
  lanes_of spec = record {
    vcodec = string_value js (js.get_object_item spec (codes "video_codec"));
    acodec = string_value js (js.get_object_item spec (codes "audio_codec"));
    scodec = string_value js (js.get_object_item spec (codes "subtitle_codec"));
    map = strings_of js (js.get_object_item spec (codes "map"));
  }

  abbrev pub has_codec : Output → Bool
  has_codec o = is_named o.vcodec || (is_named o.acodec || is_named o.scodec)

  -- The muxer, `none` where it is not resolved.
  abbrev pub out_with : J → Bytes → Window → D → D → D → D → D → Option M → Parse (Out J D M)
  out_with spec path w enc venc aenc senc fmt none = unresolved
  out_with spec path w enc venc aenc senc fmt (some m) = parsed (record {
    ofmt = m;
    path = path;
    lanes = lanes_of spec;
    format = string_value js (js.get_object_item spec (codes "format"));
    enc_opts = enc;
    venc_opts = venc;
    aenc_opts = aenc;
    senc_opts = senc;
    fmt_opts = fmt;
    bsf = js.get_object_item spec (codes "bitstream_filters");
    window = w;
    metadata = js.get_object_item spec (codes "metadata");
    chapters = js.get_object_item spec (codes "chapters");
    stream_metadata = js.get_object_item spec (codes "stream_metadata");
    last_dts = replicate max_mux_streams nopts;
  })

  -- The five dictionaries, each in its turn.
  abbrev pub options_then : Result D → (D → Parse (Out J D M)) → Parse (Out J D M)
  options_then (err code) k = malformed
  options_then (ok d) k = k d

  unfoldable pub parse_rest : J → Bytes → Window → Parse (Out J D M)
  unfolding lanes_of
  parse_rest spec path w = options_then (member_options spec (codes "options")) (λ enc.
      options_then (member_options spec (codes "video_options")) (λ venc.
        options_then (member_options spec (codes "audio_options")) (λ aenc.
          options_then (member_options spec (codes "subtitle_options")) (λ senc.
            options_then (member_options spec (codes "format_options")) (λ fmt.
              out_with spec path w enc venc aenc senc fmt
                (alloc (string_value js (js.get_object_item spec (codes "format"))) path))))))

  abbrev pub parse_window : J → Bytes → Option Window → Parse (Out J D M)
  parse_window spec path none = malformed
  parse_window spec path (some w) = parse_rest spec path w

  abbrev pub parse_path : J → Option Bytes → Parse (Out J D M)
  parse_path spec none = malformed
  parse_path spec (some path) =
      if has_codec (lanes_of spec) then parse_window spec path (window_of spec) else malformed

  unfoldable pub parse_output : J → Parse (Out J D M)
  unfolding parse_rest window_of lanes_of
  parse_output spec = parse_path spec (string_value js (js.get_object_item spec (codes "path")))

  abbrev pub next_output :
      (List (Out J D M) → Reading (List (Out J D M)))
      → List (Out J D M)
      → Parse (Out J D M)
      → Reading (List (Out J D M))
  next_output k outs malformed = rejected
  next_output k outs unresolved = rejected
  next_output k outs (parsed o) = k (outs ++ (o ∷ []))

  -- The loop, with the outputs before it.
  unfoldable pub parse_outputs : List J → List (Out J D M) → Reading (List (Out J D M))
  unfolding parse_output
  parse_outputs [] outs = read outs
  parse_outputs (os ∷ specs) outs =
      if leb max_outputs (length outs)
      then failed einval
      else next_output (parse_outputs specs) outs (parse_output os)

  -- With more than one output, each needs a `map`.
  abbrev pub mapped_all : List (Out J D M) → Reading (List (Out J D M))
  mapped_all outs =
      if ltb 1 (length outs) && not (all (λ (o : Out J D M). not (is_unmapped o.lanes.map)) outs)
      then failed einval
      else read outs

  abbrev pub check_maps : Reading (List (Out J D M)) → Reading (List (Out J D M))
  check_maps rejected = rejected
  check_maps (failed code) = failed code
  check_maps (read outs) = mapped_all outs

  unfoldable pub read_outputs : List J → Reading (List (Out J D M))
  unfolding parse_outputs
  read_outputs specs = check_maps (parse_outputs specs [])
