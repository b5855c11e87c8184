-- ===== src/Process/Engine.antt =====
-- src/process.c: the job that op_process runs, put together from the lanes: the pads of the graph, the
-- copied streams and the transcoded subtitles, on one state.
mod Tests
pub mod Pads
pub mod Shut
use ffmpeg_wasi.Base.{
  ℕ, suc, Bool, true, false, not, ◌&&◌, ◌||◌, List, [], ◌∷◌, map, Option, none, some, ◌==◌,
  if◌then◌else◌,
}
use ffmpeg_wasi.Base.Int.{ℤ, pos}
use ffmpeg_wasi.Av.{AvError, Rational, Result, ok, err, ◌>>=◌}
use ffmpeg_wasi.Process.Mux.{Packet, Stream}
use ffmpeg_wasi.Process.Window.{Window}
use ffmpeg_wasi.Process.Lanes.{Target, input_is_spent}
use ffmpeg_wasi.Process.Graph.{Frame, GIn, GOut, Units, Drained}
use ffmpeg_wasi.Process.Graph.Push.{Seek}
use ffmpeg_wasi.Process.Graph.Feed.{feed_pads, flush_pads}
use ffmpeg_wasi.Process.Graph.Encode.{drain_encoder}
use ffmpeg_wasi.Process.Copying as Copying
use ffmpeg_wasi.Process.Copying.{Cpy, Offsets}
use ffmpeg_wasi.Process.Subs as Subs
use ffmpeg_wasi.Process.Subs.{Sub, Subtitle}
use ffmpeg_wasi.Process.Run.{Job}

-- The calls of libav that a run makes, on the state S of libav's objects: on a decoder, a buffersrc, an
-- encoder, a bitstream filter, a subtitle decoder and encoder, a muxer and a demuxer, by number.
-- `write` is pmux with av_interleaved_write_frame. `pull` is pull_sinks, which has an answer where
-- its loops end.
pub record Libav (S : Type 0) : Type 0 where
  pub units : Units
  pub decode : ℕ → Option Packet → S → Result (Drained Frame × S)
  pub add : ℕ → Option Frame → S → Option AvError × S
  pub encode : ℕ → Option Frame → S → Result (Drained Packet × S)
  pub filter : ℕ → Option Packet → S → Result (Drained Packet × S)
  pub decode_sub : ℕ → Option Packet → S → Result (Option Subtitle × S)
  pub encode_sub : ℕ → Subtitle → S → Result (ℕ × S)
  pub write : ℕ → Stream → Packet → S → Option AvError × S
  pub trailer : ℕ → S → Option AvError × S
  pub read : ℕ → S → Result Packet × S
  pub base_of : ℕ → Packet → Rational
  pub io_error : ℕ → S → Option AvError
  pub pull : List GOut → S → Result (List GOut × S)

-- What the job's description fixes before the loop: the seeks and the windows.
pub record Setting : Type 0 where
  pub seek_us : List ℤ
  pub seek_at : ℕ → ℤ
  pub seek_of : GIn → Seek
  pub window_of : ℕ → Window
  pub cutoff : ℕ → ℤ

-- The fields of a Ctx that the loop changes, with the tables of the lanes.
pub record Ctx (S : Type 0) : Type 0 where
  pub gin : List GIn
  pub gout : List GOut
  pub cpy : List Cpy
  pub sub : List Sub
  pub offsets : Offsets
  pub lib : S

module _ {S : Type 0} (av : Libav S) (job : Setting) where
  abbrev pub cpy_target : Cpy → Target
  cpy_target c = record {
    in_idx = c.in_idx;
    st_idx = c.st_idx;
    out_idx = c.out_idx;
    map_key = none;
  }

  abbrev pub sub_target : Sub → Target
  sub_target s = record {
    in_idx = s.in_idx;
    st_idx = s.st_idx;
    out_idx = s.out_idx;
    map_key = none;
  }

  unfoldable pub spent : ℕ → Ctx S → Bool
  spent i c = input_is_spent c.gin c.gout (map cpy_target c.cpy) (map sub_target c.sub) i

  -- A call that only libav's state takes part in.
  abbrev pub with_lib : Ctx S → Result S → Result (Ctx S)
  with_lib c (err code) = err code
  with_lib c (ok w) = ok (record c { lib = w })

  abbrev pub with_sinks : Ctx S → Result (List GOut × S) → Result (Ctx S)
  with_sinks c (err code) = err code
  with_sinks c (ok (gout, w)) = ok (record c { gout = gout; lib = w })

  abbrev pub with_pads : Ctx S → Result (List GIn × S) → Result (Ctx S)
  with_pads c (err code) = err code
  with_pads c (ok (gin, w)) = ok (record c { gin = gin; lib = w })

  abbrev pub with_offsets : Ctx S → Result (Offsets × S) → Result (Ctx S)
  with_offsets c (err code) = err code
  with_offsets c (ok (r, w)) = ok (record c { offsets = r; lib = w })

  unfoldable pub pull_ctx : Ctx S → Result (Ctx S)
  pull_ctx c = with_sinks c (av.pull c.gout c.lib)

  unfoldable pub feed : ℕ → Packet → Ctx S → Result (Ctx S)
  feed i pkt c =
      with_pads c (feed_pads av.units av.decode av.add job.seek_of i pkt 0 c.gin c.lib) >>= pull_ctx

  abbrev pub write_result : ℕ → Stream → Packet → S → Result S
  write_result o ost pkt w = elim (av.write o ost pkt w).0 [
    | none ↦ ok (av.write o ost pkt w).1
    | some code ↦ err code
  ]

  unfoldable pub copy_lane : ℕ → Packet → Ctx S → Result (Ctx S)
  copy_lane i pkt c = with_offsets c (
      Copying.copy_packet av.units job.window_of av.write av.filter i pkt 0 c.cpy
        (c.offsets, c.lib))

  unfoldable pub sub_lane : ℕ → Packet → Ctx S → Result (Ctx S)
  sub_lane i pkt c = with_lib c (
      Subs.sub_packet av.units job.window_of job.seek_at av.decode_sub av.encode_sub write_result i
        pkt 0 c.sub c.lib)

  -- The flush at the end of input `i`: its pads, then its subtitle decoders.
  unfoldable pub flush_decoders : ℕ → Ctx S → Result (Ctx S)
  flush_decoders i c =
      with_pads c (flush_pads av.units av.decode av.add job.seek_of i 0 c.gin c.lib)
      >>= λ (d : Ctx S). with_lib d (
          Subs.flush_subs av.units job.window_of job.seek_at av.decode_sub av.encode_sub
            write_result i 0 d.sub d.lib)

  -- drain_encoder with no frame, of each graph output from number `j` on.
  unfoldable pub flush_encoders : ℕ → List GOut → S → Result S
  flush_encoders j [] w = ok w
  flush_encoders j (g ∷ gs) w =
      drain_encoder av.units job.seek_us (job.window_of g.out_idx) g (write_result g.out_idx)
        (av.encode j) none w
      >>= flush_encoders (suc j) gs

  unfoldable pub job_of : Job (Ctx S)
  job_of = record {
    units = av.units;
    spent = spent;
    read = λ i c. let (r, w) = av.read i c.lib in (r, record c { lib = w });
    cutoff = job.cutoff;
    base_of = av.base_of;
    io_error = λ i c. av.io_error i c.lib;
    feed = feed;
    copy_packet = copy_lane;
    sub_packet = sub_lane;
    flush_decoders = flush_decoders;
    pull_sinks = pull_ctx;
    flush_encoders = λ c. with_lib c (flush_encoders 0 c.gout c.lib);
    flush_copy_bsfs = λ c. with_offsets c (
        Copying.flush_copy_bsfs av.units job.window_of av.write av.filter 0 c.cpy
          (c.offsets, c.lib));
    trailer = λ j c. let (code, w) = av.trailer j c.lib in (code, record c { lib = w });
  }
