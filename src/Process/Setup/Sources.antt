-- ===== src/Process/Setup/Sources.antt =====
-- src/process.c: the inputs of the filter graph: add_buffersrc, and the loop of op_process over the open
-- input pads.
use ffmpeg_wasi.Base.{
  ℕ, false, List, [], ◌∷◌, ◌++◌, map, Option, none, some, leb, ◌==◌, if◌then◌else◌, length,
  get_elem?,
}
use ffmpeg_wasi.Base.Int.{pos}
use ffmpeg_wasi.Base.Text.{Bytes}
use ffmpeg_wasi.Av.{
  AvError, einval, decoder_not_found, MediaType, video, eq_type, Rational, Result, ok, err, ◌>>=◌,
}
use ffmpeg_wasi.Process.Graph.{GIn}
use ffmpeg_wasi.Process.MapSpec.{Selector, parse_input_pad, resolve_map_stream}
use ffmpeg_wasi.Process.Setup.{InStream, Decoder, Source, buffer, abuffer, Filters}

-- MAX_GIN
abbrev pub max_gin : ℕ
max_gin = 32

-- `r.den ? r.den : 1`
abbrev pub with_den : Rational → Rational
with_den r = if r.den == 0 then record r { den = 1 } else r

-- The time base that a pad is declared with, and its arguments.
unfoldable pub source_base : MediaType → InStream → Decoder → Rational
source_base type st dec =
    if eq_type type video then st.time_base else record { num = 1; den = dec.sample_rate }

unfoldable pub source_of : MediaType → InStream → Decoder → Source
source_of type st dec =
    if eq_type type video
    then buffer dec.width dec.height dec.format st.time_base (with_den dec.sample_aspect_ratio)
        (with_den (if st.avg_frame_rate.num == 0 then st.r_frame_rate else st.avg_frame_rate))
    else abuffer dec.sample_rate dec.format dec.layout

-- A call that returns a code.
abbrev pub call_result : {S : Type 0} → Option AvError × S → Result S
call_result (none, w) = ok w
call_result (some code, w) = err code

module _ {C D S : Type 0} (av : Filters C D S) (best : ℕ → MediaType → Result ℕ)
    (inputs : List (List InStream)) where
  -- The pad as it is filled in.
  abbrev pub gin_of : Selector → ℕ → InStream → Decoder → GIn
  gin_of s st stream dec = record {
    in_idx = s.input;
    st_idx = st;
    pkt_timebase = stream.time_base;
    src_tb = source_base s.type stream dec;
    rebase = pos 0;
    closed = false;
  }

  abbrev pub after_decoder :
      List GIn → Selector → ℕ → InStream → Result Decoder × S → Result (List GIn × S)
  after_decoder gin s st stream (err code, w) = err code
  after_decoder gin s st stream (ok dec, w) =
      call_result (av.create_source (length gin) (source_of s.type stream dec) w) >>= λ (w1 : S).
      call_result (av.link_source (length gin) w1) >>= λ (w2 : S).
      ok (gin ++ (gin_of s st stream dec ∷ []), w2)

  -- resolve_map_stream answers with a stream of the input, so that the first case does not come up.
  abbrev pub with_decoder : List GIn → Selector → ℕ → Option InStream → S → Result (List GIn × S)
  with_decoder gin s st none w = err decoder_not_found
  with_decoder gin s st (some stream) w =
      if av.find_decoder s.input st
      then after_decoder gin s st stream (av.open_decoder (length gin) s.input st w)
      else err decoder_not_found

  -- Of the streams of the input that is named, if there is one.
  abbrev pub of_input : List GIn → Selector → Option (List InStream) → S → Result (List GIn × S)
  of_input gin s none w = err einval
  of_input gin s (some streams) w =
      resolve_map_stream (best s.input) (map (λ (t : InStream). t.type) streams) s.type s.sel
      >>= λ (st : ℕ). with_decoder gin s st (get_elem? streams st) w

  unfoldable pub add_buffersrc : Selector → List GIn × S → Result (List GIn × S)
  unfolding source_base source_of
  add_buffersrc s (gin, w) =
      if leb max_gin (length gin) then err einval else of_input gin s (get_elem? inputs s.input) w

  abbrev pub selected : Option Selector → List GIn × S → Result (List GIn × S)
  selected none x = err einval
  selected (some s) x = add_buffersrc s x

  abbrev pub add_named : Option Bytes → List GIn × S → Result (List GIn × S)
  add_named none x = err einval
  add_named (some name) x = selected (parse_input_pad name) x

  unfoldable pub add_sources : List (Option Bytes) → List GIn × S → Result (List GIn × S)
  unfolding add_buffersrc
  add_sources [] x = ok x
  add_sources (pad ∷ pads) x = add_named pad x >>= add_sources pads
