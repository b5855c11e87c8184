-- ===== src/Process/Setup/Sinks.antt =====
-- src/process.c: the outputs of the filter graph: add_buffersink, and the loop of op_process over the open
-- output pads.
use ffmpeg_wasi.Base.{
  ℕ, List, [], ◌∷◌, ◌++◌, map, Option, none, some, leb, if◌then◌else◌, length, get_elem?, take,
}
use ffmpeg_wasi.Base.Int.{ℤ, pos}
use ffmpeg_wasi.Base.Text.{Bytes}
use ffmpeg_wasi.Av.{einval, MediaType, video, audio, eq_type, Result, ok, err, ◌>>=◌}
use ffmpeg_wasi.Process.Mux.{max_gout}
use ffmpeg_wasi.Process.MapSpec.{find_output_for_pad}
use ffmpeg_wasi.Process.Lanes.{Output}
use ffmpeg_wasi.Process.Setup.{
  Pin, pixel_formats, sample_formats, samplerates, channel_layouts, Sink, OutPad, Filters,
}
use ffmpeg_wasi.Process.Setup.Sources.{call_result}

-- The name of a pad, "" for NULL.
abbrev pub label_of : Option Bytes → Bytes
label_of none = []
label_of (some name) = name

-- The encoder's name for a kind of stream.
abbrev pub codec_for : MediaType → Output → Option Bytes
codec_for type out = if eq_type type video then out.vcodec else out.acodec

module _ {C D S : Type 0} (av : Filters C D S) where
  -- The pins of a sink, from what the encoder supports: none for a NULL list.
  abbrev pub pin_format : ℕ → (ℤ → Pin) → Result (Option ℤ) → S → Result S
  pin_format i f (err code) w = err code
  pin_format i f (ok none) w = ok w
  pin_format i f (ok (some format)) w = call_result (av.set_array i (f format) w)

  -- The whole of a list, if it is not empty; that it cannot be told is no error.
  abbrev pub pin_list : {A : Type 0} → ℕ → (List A → Pin) → Result (Option (List A)) → S → Result S
  pin_list i f (ok (some (x ∷ xs))) w = call_result (av.set_array i (f (x ∷ xs)) w)
  pin_list i f _ w = ok w

  unfoldable pub pin_sink : ℕ → MediaType → C → S → Result S
  pin_sink i type enc w =
      if eq_type type video
      then pin_format i pixel_formats (av.first_format enc video) w
      else if eq_type type audio
      then (pin_format i sample_formats (av.first_format enc audio) w >>= λ (w1 : S).
          pin_list i samplerates (av.sample_rates enc) w1 >>= λ (w2 : S).
          pin_list i channel_layouts (av.layouts enc) w2)
      else ok w

  abbrev pub sink_of : OutPad → ℕ → Sink
  sink_of pad o = record {
    type = pad.type;
    out_idx = o;
    label = take 63 (label_of pad.name);
    next_pts = pos 0;
  }

  abbrev pub with_encoder : OutPad → ℕ → List Sink → S → Option C → Result (List Sink × S)
  with_encoder pad o gout w none = err einval
  with_encoder pad o gout w (some enc) = pin_sink (length gout) pad.type enc w >>= λ (w1 : S).
      call_result (av.init_sink (length gout) w1) >>= λ (w2 : S).
      call_result (av.link_sink (length gout) w2) >>= λ (w3 : S).
      ok (gout ++ (sink_of pad o ∷ []), w3)

  abbrev pub by_codec : OutPad → ℕ → List Sink → S → Option Bytes → Result (List Sink × S)
  by_codec pad o gout w none = err einval
  by_codec pad o gout w (some name) = with_encoder pad o gout w (av.find_encoder name)

  abbrev pub routed : OutPad → ℕ → List Sink → S → Option Output → Result (List Sink × S)
  routed pad o gout w none = err einval
  routed pad o gout w (some out) = by_codec pad o gout w (codec_for pad.type out)

  abbrev pub to_output : List Output → OutPad → List Sink → S → Option ℕ → Result (List Sink × S)
  to_output outs pad gout w none = err einval
  to_output outs pad gout w (some o) = routed pad o gout w (get_elem? outs o)

  unfoldable pub add_buffersink : List Output → OutPad → List Sink × S → Result (List Sink × S)
  unfolding pin_sink
  add_buffersink outs pad (gout, w) =
      to_output outs pad gout w
        (find_output_for_pad (label_of pad.name) (map (λ (o : Output). o.map) outs))

  unfoldable pub add_sinks : List Output → List OutPad → List Sink × S → Result (List Sink × S)
  unfolding add_buffersink
  add_sinks outs [] x = ok x
  add_sinks outs (pad ∷ pads) (gout, w) =
      if leb max_gout (length gout)
      then err einval
      else add_buffersink outs pad (gout, w) >>= add_sinks outs pads
