-- ===== src/Process/Setup.antt =====
-- src/process.c: how op_process sets the filter graph up, from the text of the graph to the encoders. The
-- children model its inputs, its sinks and its encoders. Filters is what libav answers, on the state S of its
-- objects, with its encoders C and the dictionaries D; that an allocation fails is left out.
mod Tests
pub mod Default
pub mod Sources
pub mod Sinks
pub mod Encoders
pub mod Whole
pub mod Wired
pub mod Routed
pub mod Ready
use ffmpeg_wasi.Base.{ℕ, Bool, List, Option}
use ffmpeg_wasi.Base.Int.{ℤ}
use ffmpeg_wasi.Base.Text.{Bytes}
use ffmpeg_wasi.Av.{AvError, MediaType, Rational, Result}
use ffmpeg_wasi.Process.Mux.{Stream}
use ffmpeg_wasi.Process.Graph.{Encoder}

-- A stream of an input, and the fields of its decoder's context that a buffersrc is declared with.
pub record InStream : Type 0 where
  pub type : MediaType
  pub time_base : Rational
  pub avg_frame_rate : Rational
  pub r_frame_rate : Rational

pub record Decoder : Type 0 where
  pub width : ℤ
  pub height : ℤ
  pub format : ℤ
  pub sample_aspect_ratio : Rational
  pub sample_rate : ℕ
  pub layout : Bytes  -- av_channel_layout_describe, of the default layout where it has no order

-- The values that `args` of a "buffer" or an "abuffer" prints.
pub data Source : Type 0 where
  buffer : ℤ → ℤ → ℤ → Rational → Rational → Rational → Source
  abuffer : ℕ → ℤ → Bytes → Source

-- The options that a sink is pinned by.
pub data Pin : Type 0 where
  pixel_formats : ℤ → Pin
  sample_formats : ℤ → Pin
  samplerates : List ℕ → Pin
  channel_layouts : List Bytes → Pin

-- A graph output before its encoder is open: the fields of a GOut that add_buffersink sets.
pub record Sink : Type 0 where
  pub type : MediaType
  pub out_idx : ℕ
  pub label : Bytes
  pub next_pts : ℤ

-- What a configured sink tells.
pub record Negotiated : Type 0 where
  pub time_base : Rational
  pub frame_rate : Rational
  pub sample_rate : ℕ

-- An open pad of the graph, by its name; `none` is NULL.
pub record OutPad : Type 0 where
  pub name : Option Bytes
  pub type : MediaType

pub record Filters (C D S : Type 0) : Type 0 where
  pub find_decoder : ℕ → ℕ → Bool  -- of a stream of an input
  pub open_decoder : ℕ → ℕ → ℕ → S → Result Decoder × S  -- of pad `i`, for that stream
  pub create_source : ℕ → Source → S → Option AvError × S
  pub link_source : ℕ → S → Option AvError × S
  pub find_encoder : Bytes → Option C
  pub first_format : C → MediaType → Result (Option ℤ)  -- avcodec_get_supported_config
  pub sample_rates : C → Result (Option (List ℕ))
  pub layouts : C → Result (Option (List Bytes))
  pub set_array : ℕ → Pin → S → Option AvError × S
  pub init_sink : ℕ → S → Option AvError × S
  pub link_sink : ℕ → S → Option AvError × S
  pub graph_parse : Bytes → S → Result (List (Option Bytes) × List OutPad × S)
  pub graph_config : S → Result S
  pub negotiated : ℕ → S → Negotiated
  pub inv_q : Rational → Rational
  pub start : ℕ → Encoder → D → S → Result D × S  -- avcodec_open2 of encoder `i`
  pub frame_size : ℕ → S → ℕ
  pub has_variable_size : C → Bool  -- AV_CODEC_CAP_VARIABLE_FRAME_SIZE
  pub set_frame_size : ℕ → ℕ → S → S
  pub new_stream : ℕ → S → ℤ × S  -- the index of a new stream of output `i`
