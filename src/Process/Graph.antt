-- ===== src/Process/Graph.antt =====
-- src/process.c: the pads of the filter graph (GIn, GInSeek, GOut), the frames that pass them, and the
-- calls of libavutil on time bases. The children model how frames are pushed into the graph, pulled
-- out of it and encoded.
mod Tests
pub mod Push
pub mod Rebase
pub mod Encode
pub mod Sinks
pub mod Bounded
pub mod Feed
pub mod Closing
use ffmpeg_wasi.Base.{ℕ, Bool, ◌||◌, if◌then◌else◌, List}
use ffmpeg_wasi.Base.Text.{Bytes}
use ffmpeg_wasi.Base.Int.{ℤ}
use ffmpeg_wasi.Av.{MediaType, Rational, AvError, is_eof, is_eagain, Result, ok, err}
use ffmpeg_wasi.Process.Mux.{Packet, Stream}

-- The fields of an AVFrame that the engine reads or writes.
pub record Frame : Type 0 where
  pub pts : ℤ
  pub best_effort_timestamp : ℤ
  pub duration : ℤ
  pub nb_samples : ℤ
  pub pict_type : ℕ
  pub metadata : List (Bytes × Bytes)

-- A graph input, with the `rebase` of its GInSeek and the `pkt_timebase` of its decoder.
pub record GIn : Type 0 where
  pub in_idx : ℕ
  pub st_idx : ℕ
  pub pkt_timebase : Rational
  pub src_tb : Rational
  pub rebase : ℤ
  pub closed : Bool

-- The fields of the AVCodecContext of an encoder that drain_encoder reads.
pub record Encoder : Type 0 where
  pub codec_type : MediaType
  pub time_base : Rational
  pub framerate : Rational
  pub frame_size : ℕ
  pub sample_rate : ℕ

-- A graph output. `sink_tb` and `sink_rate` are av_buffersink_get_time_base and
-- av_buffersink_get_sample_rate of its sink.
pub record GOut : Type 0 where
  pub out_idx : ℕ
  pub type : MediaType
  pub sink_tb : Rational
  pub sink_rate : ℕ
  pub enc : Encoder
  pub ost : Stream
  pub next_pts : ℤ
  pub done : Bool

-- av_rescale_q, av_cmp_q as the question whether two time bases differ, av_inv_q and
-- av_packet_rescale_ts.
pub record Units : Type 0 where
  pub rescale_q : ℤ → Rational → Rational → ℤ
  pub differ : Rational → Rational → Bool
  pub inv_q : Rational → Rational
  pub packet_rescale_ts : Packet → Rational → Rational → Packet

-- The answers to calls of avcodec_receive_frame or avcodec_receive_packet until one fails.
pub record Drained (A : Type 0) : Type 0 where
  pub items : List A
  pub last : AvError

-- What the code that ends a drain comes to: EAGAIN and AVERROR_EOF are its ordinary ends.
abbrev pub ended {κ} : {A : Type κ} → AvError → A → Result A
ended code a = if is_eagain code || is_eof code then ok a else err code
