-- ===== src/Process/Setup/Encoders.antt =====
-- src/process.c: open_encoder, which opens the encoder of a graph output as its sink negotiated, and the
-- loop of op_process over them. `codec_opts` are the options of an output for every encoder
-- and for the encoder of a kind.
use ffmpeg_wasi.Base.{
  ℕ, suc, false, not, ◌&&◌, List, [], ◌∷◌, Option, none, some, ltb, ◌==◌, get_elem?, if◌then◌else◌,
}
use ffmpeg_wasi.Base.Int.{ℤ}
use ffmpeg_wasi.Base.Text.{Bytes}
use ffmpeg_wasi.Av.{MediaType, video, audio, eq_type, Rational, einval, Result, ok, err, ◌>>=◌}
use ffmpeg_wasi.Process.Graph.{Encoder, GOut}
use ffmpeg_wasi.Process.Lanes.{Output}
use ffmpeg_wasi.Process.Spec.Options.{Dictionary, open_encoder_opts}
use ffmpeg_wasi.Process.Setup.{Sink, Negotiated, Filters}
use ffmpeg_wasi.Process.Setup.Sinks.{codec_for}

-- `r.num ? r : d`
abbrev pub set_or : Rational → Rational → Rational
set_or r d = if r.num == 0 then d else r

module _ {C D S : Type 0} (av : Filters C D S) (dict : Dictionary D)
    (codec_opts : ℕ → MediaType → D × D) where
  -- The encoder before it is open.
  unfoldable pub configured : MediaType → Negotiated → Encoder
  configured type n =
      let framerate = set_or n.frame_rate (record { num = 25; den = 1 }) in
      if eq_type type video
      then record {
        codec_type = type;
        time_base = set_or n.time_base (av.inv_q framerate);
        framerate = framerate;
        frame_size = 0;
        sample_rate = 0;
      }
      else record {
        codec_type = type;
        time_base = set_or n.time_base (record { num = 1; den = n.sample_rate });
        framerate = record { num = 0; den = 1 };
        frame_size = 0;
        sample_rate = n.sample_rate;
      }

  -- The frame size that the sink is told, of an audio encoder with a fixed one.
  abbrev pub tell_frame_size : ℕ → MediaType → C → S → S
  tell_frame_size i type enc w =
      if eq_type type audio && (not (av.has_variable_size enc) && ltb 0 (av.frame_size i w))
      then av.set_frame_size i (av.frame_size i w) w
      else w

  abbrev pub gout_of : Sink → Negotiated → ℕ → ℤ → GOut
  gout_of go n size index = record {
    out_idx = go.out_idx;
    type = go.type;
    sink_tb = n.time_base;
    sink_rate = n.sample_rate;
    enc = record (configured go.type n) { frame_size = size };
    ost = record {
      index = index;
      codec_type = go.type;
      time_base = (configured go.type n).time_base;
    };
    next_pts = go.next_pts;
    done = false;
  }

  abbrev pub with_stream : Sink → Negotiated → ℕ → ℤ × S → GOut × S
  with_stream go n size (index, w) = (gout_of go n size index, w)

  abbrev pub after_encoder : ℕ → Sink → Negotiated → C → Result (Unit {0}) × S → Result (GOut × S)
  after_encoder i go n enc (err code, w) = err code
  after_encoder i go n enc (ok u, w) = ok (
      with_stream go n (av.frame_size i w)
        (av.new_stream go.out_idx (tell_frame_size i go.type enc w)))

  -- avcodec_find_encoder_by_name has found it for add_buffersink.
  abbrev pub open_found : ℕ → Sink → Negotiated → S → Option C → Result (GOut × S)
  open_found i go n w none = err einval
  open_found i go n w (some enc) = after_encoder i go n enc (
      open_encoder_opts dict (av.start i (configured go.type n)) (codec_opts go.out_idx go.type).0
        (codec_opts go.out_idx go.type).1 w)

  abbrev pub encoder_named : Option Bytes → Option C
  encoder_named none = none
  encoder_named (some name) = av.find_encoder name

  abbrev pub encoder_of : MediaType → Option Output → Option C
  encoder_of type none = none
  encoder_of type (some out) = encoder_named (codec_for type out)

  unfoldable pub open_encoder : List Output → ℕ → Sink → S → Result (GOut × S)
  unfolding configured
  open_encoder outs i go w =
      open_found i go (av.negotiated i w) w (encoder_of go.type (get_elem? outs go.out_idx))

  abbrev pub and_gout : GOut → Result (List GOut × S) → Result (List GOut × S)
  and_gout g (err code) = err code
  and_gout g (ok (gs, w)) = ok (g ∷ gs, w)

  -- The graph outputs from number `i` on.
  unfoldable pub open_encoders : List Output → ℕ → List Sink → S → Result (List GOut × S)
  unfolding open_encoder
  open_encoders outs i [] w = ok ([], w)
  open_encoders outs i (go ∷ gos) w = open_encoder outs i go w >>= λ (x : GOut × S).
      and_gout x.0 (open_encoders outs (suc i) gos x.1)
