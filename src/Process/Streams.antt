-- ===== src/Process/Streams.antt =====
-- src/process.c: the output streams of the copied and of the transcoded subtitle lanes: setup_copy_stream,
-- setup_sub_stream and the loops of op_process over them. Muxing is the calls on the state S of libav's
-- objects; that an allocation fails is left out, as are the parameters of a stream, which libav copies.
mod Tests
pub mod Faithful
use ffmpeg_wasi.Base.{
  ℕ, suc, Bool, true, false, ◌||◌, List, [], ◌∷◌, Option, none, some, if◌then◌else◌,
}
use ffmpeg_wasi.Base.Int.{ℤ}
use ffmpeg_wasi.Base.Text.{Bytes, codes, streq}
use ffmpeg_wasi.Av.{
  AvError, decoder_not_found, encoder_not_found, MediaType, subtitle, Rational, Result, ok, err,
  ◌>>=◌,
}
use ffmpeg_wasi.Process.Lanes.{Target}
use ffmpeg_wasi.Process.Copying.{Cpy}
use ffmpeg_wasi.Process.Subs.{Sub, milliseconds}
use ffmpeg_wasi.Process.Spec.{Json, object_of, string_value}
use ffmpeg_wasi.Process.Spec.Options.{Dictionary, open_encoder_opts}
use ffmpeg_wasi.Process.Setup.Sources.{call_result}

-- An input's stream.
pub record Origin : Type 0 where
  pub codec_type : MediaType
  pub time_base : Rational
  pub avg_frame_rate : Rational
  pub sample_rate : ℕ
  pub frame_size : ℕ

-- Of an output, the fields that its streams are set up from.
pub record Lane (J D : Type 0) : Type 0 where
  pub bsf : Option J
  pub scodec : Bytes
  pub enc_opts : D
  pub senc_opts : D

-- The calls on target `i`: avcodec_parameters_copy to the stream, av_bsf_list_parse_str,
-- avcodec_parameters_copy to the filter, av_bsf_init on a time base, `time_base_out`, and
-- avcodec_parameters_copy from the filter; then those of a subtitle's decoder and encoder.
pub record Muxing (D S : Type 0) : Type 0 where
  pub new_stream : ℕ → S → ℤ × S  -- the index of a new stream of output `o`
  pub parameters_copy : ℕ → S → Option AvError × S
  pub bsf_parse : ℕ → Bytes → S → Option AvError × S
  pub bsf_parameters : ℕ → S → Option AvError × S
  pub bsf_init : ℕ → Rational → S → Option AvError × S
  pub bsf_time_base : ℕ → S → Rational
  pub bsf_result : ℕ → S → Option AvError × S
  pub has_decoder : ℕ → ℕ → Bool  -- for a stream of an input
  pub open_sub_decoder : ℕ → S → Option AvError × S  -- with its stream's parameters
  pub encoder_type : Bytes → Option MediaType  -- avcodec_find_encoder_by_name
  pub start_sub : ℕ → Rational → D → S → Result D × S  -- avcodec_open2, with its time base
  pub parameters_from : ℕ → S → Option AvError × S

module _ {J T D S : Type 0} (js : Json J T) (dict : Dictionary D) (av : Muxing D S)
    (origin_of : ℕ → ℕ → Origin) (lane_of : ℕ → Lane J D) where
  -- The bitstream filter that the output names for a key; "none" is none.
  abbrev pub unless_none : Option Bytes → Option Bytes
  unless_none none = none
  unless_none (some name) = if streq name (codes "none") then none else some name

  abbrev pub named_filter : Option J → Bytes → Option Bytes
  named_filter none key = none
  named_filter (some bsf) key =
      if js.is_object bsf then unless_none (string_value js (js.get_object_item bsf key)) else none

  unfoldable pub filter_for : Option J → Option Bytes → Option Bytes
  filter_for bsf none = none
  filter_for bsf (some key) = named_filter bsf key

  abbrev pub cpy_of : Target → Origin → Option Rational → ℤ → Cpy
  cpy_of t o bsf index = record {
    in_idx = t.in_idx;
    st_idx = t.st_idx;
    out_idx = t.out_idx;
    codec_type = o.codec_type;
    avg_frame_rate = o.avg_frame_rate;
    sample_rate = o.sample_rate;
    frame_size = o.frame_size;
    src_tb = o.time_base;
    bsf = bsf;
    ost = record { index = index; codec_type = o.codec_type; time_base = o.time_base };
  }

  abbrev pub with_filter : ℕ → Target → Origin → ℤ → S → Option Bytes → Result (Cpy × S)
  with_filter i t o index w none = ok (cpy_of t o none index, w)
  with_filter i t o index w (some name) = call_result (av.bsf_parse i name w) >>= λ (w1 : S).
      call_result (av.bsf_parameters i w1) >>= λ (w2 : S).
      call_result (av.bsf_init i o.time_base w2) >>= λ (w3 : S).
      call_result (av.bsf_result i w3) >>= λ (w4 : S).
      ok (cpy_of t o (some (av.bsf_time_base i w3)) index, w4)

  unfoldable pub setup_copy_stream : ℕ → Target → S → Result (Cpy × S)
  unfolding filter_for
  setup_copy_stream i t w =
      let (index, w1) = av.new_stream t.out_idx w in
      call_result (av.parameters_copy i w1) >>= λ (w2 : S).
      with_filter i t (origin_of t.in_idx t.st_idx) index w2
        (filter_for (lane_of t.out_idx).bsf t.map_key)

  abbrev pub sub_of : Target → ℤ → Sub
  sub_of t index = record {
    in_idx = t.in_idx;
    st_idx = t.st_idx;
    out_idx = t.out_idx;
    has_dec = true;
    ost = record { index = index; codec_type = subtitle; time_base = milliseconds };
  }

  abbrev pub sub_stream : ℕ → Target → ℤ × S → Result (Sub × S)
  sub_stream i t (index, w) =
      call_result (av.parameters_from i w) >>= λ (w1 : S). ok (sub_of t index, w1)

  abbrev pub after_sub_encoder : ℕ → Target → Result (Unit {0}) × S → Result (Sub × S)
  after_sub_encoder i t (err code, w) = err code
  after_sub_encoder i t (ok u, w) = sub_stream i t (av.new_stream t.out_idx w)

  -- An encoder of another kind is as good as none.
  abbrev pub with_sub_encoder : ℕ → Target → S → Option MediaType → Result (Sub × S)
  with_sub_encoder i t w (some subtitle) = after_sub_encoder i t (
      open_encoder_opts dict (av.start_sub i milliseconds) (lane_of t.out_idx).enc_opts
        (lane_of t.out_idx).senc_opts w)
  with_sub_encoder i t w _ = err encoder_not_found

  unfoldable pub setup_sub_stream : ℕ → Target → S → Result (Sub × S)
  setup_sub_stream i t w =
      if av.has_decoder t.in_idx t.st_idx
      then (call_result (av.open_sub_decoder i w) >>= λ (w1 : S).
          with_sub_encoder i t w1 (av.encoder_type (lane_of t.out_idx).scodec))
      else err decoder_not_found

  -- The targets from number `i` on.
  abbrev pub and_cpy : Cpy → Result (List Cpy × S) → Result (List Cpy × S)
  and_cpy c (err code) = err code
  and_cpy c (ok (cs, w)) = ok (c ∷ cs, w)

  unfoldable pub setup_copies : ℕ → List Target → S → Result (List Cpy × S)
  unfolding setup_copy_stream
  setup_copies i [] w = ok ([], w)
  setup_copies i (t ∷ ts) w =
      setup_copy_stream i t w >>= λ (x : Cpy × S). and_cpy x.0 (setup_copies (suc i) ts x.1)

  abbrev pub and_sub : Sub → Result (List Sub × S) → Result (List Sub × S)
  and_sub s (err code) = err code
  and_sub s (ok (ss, w)) = ok (s ∷ ss, w)

  unfoldable pub setup_subs : ℕ → List Target → S → Result (List Sub × S)
  unfolding setup_sub_stream
  setup_subs i [] w = ok ([], w)
  setup_subs i (t ∷ ts) w =
      setup_sub_stream i t w >>= λ (x : Sub × S). and_sub x.0 (setup_subs (suc i) ts x.1)
