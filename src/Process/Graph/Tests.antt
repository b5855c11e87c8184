-- ===== src/Process/Graph/Tests.antt =====
-- Concrete pads, frames and packets for the graph of src/process.c.
use ffmpeg_wasi.Base.{
  ℕ, suc, ◌<◌, ◌≤◌, ◌≡◌, refl, sym, ap, true, false, List, [], ◌∷◌, ◌++◌, Option, some, arith,
}
use ffmpeg_wasi.Base.Int.{ℤ, pos, ◌≤ℤ◌, ◌+ℤ◌, +ℤ_parts}
use ffmpeg_wasi.Av.{AvError, eof, video, Rational, Result, ok, err, ◌>>=◌, IfOk}
use ffmpeg_wasi.Process.Timestamps.{nopts, ts_add}
use ffmpeg_wasi.Process.Mux.{Packet, Stream, is_set}
use ffmpeg_wasi.Process.Window.{Window, out_cutoff_us}
use ffmpeg_wasi.Process.Graph.{Frame, GIn, GOut, Encoder, Units, Drained, ended}
use ffmpeg_wasi.Process.Graph.Push.{Seek, push_frames}
use ffmpeg_wasi.Process.Graph.Rebase.{take_all, clip, origin_of, push_frames-clip}
use ffmpeg_wasi.Process.Graph.Encode.{drain_loop, inside, IsFirstSeek, write_all, drain_loop-inside}
use ffmpeg_wasi.Process.Graph.Sinks.{pull_sinks}
use ffmpeg_wasi.Process.Graph.Bounded.{pull_sinks_ends}
use ffmpeg_wasi.Process.Graph.Feed.{flush_pads}
use ffmpeg_wasi.Process.Graph.Closing.{Flushed, flush_pads-Flushed}

abbrev second : Rational
second = record { num = 1; den = 1 }

-- One time base for all.
abbrev plain : Units
plain = record {
  rescale_q = λ t a b. t;
  differ = λ a b. false;
  inv_q = λ r. r;
  packet_rescale_ts = λ p a b. p;
}

abbrev frame_at : ℕ → Frame
frame_at t = record {
  pts = pos t;
  best_effort_timestamp = pos t;
  duration = pos 1;
  nb_samples = pos 1;
  pict_type = 1;
  metadata = [];
}

abbrev pad : ℕ → GIn
pad i = record {
  in_idx = i;
  st_idx = 0;
  pkt_timebase = second;
  src_tb = second;
  rebase = nopts;
  closed = false;
}

abbrev from_two : Seek
from_two = record { seek_us = pos 2; accurate = true; time_base = second }

push_frames-clip_example :
    (r : ℤ) × (push_frames plain take_all from_two (pad 0) (frame_at 1 ∷ frame_at 3 ∷ []) []
      ≡ ok (
        record (pad 0) { rebase = r },
        clip plain from_two
            (pad 0)
            (origin_of plain from_two (frame_at 1 ∷ frame_at 3 ∷ []))
            (frame_at 1 ∷ frame_at 3 ∷ []),
      ))
push_frames-clip_example =
    push_frames-clip plain from_two (pad 0) (frame_at 1 ∷ frame_at 3 ∷ []) refl refl refl

abbrev encoder : Encoder
encoder = record {
  codec_type = video;
  time_base = second;
  framerate = second;
  frame_size = 0;
  sample_rate = 0;
}

abbrev sink : GOut
sink = record {
  out_idx = 0;
  type = video;
  sink_tb = second;
  sink_rate = 0;
  enc = encoder;
  ost = record { index = pos 0; codec_type = video; time_base = second };
  next_pts = pos 0;
  done = false;
}

-- An output that ends after three microseconds.
abbrev short : Window
short = record {
  duration = record { is_positive = true; micros = pos 3 };
  end = record { is_positive = false; micros = pos 0 };
  copy_ts = false;
}

abbrev packet_at : ℕ → Packet
packet_at t = record {
  pts = pos t;
  dts = pos t;
  duration = pos 0;
  size = pos 1;
  stream_index = pos 0;
}

abbrev note : Stream → Packet → List Packet → Result (List Packet)
note ost pkt pkts = ok (pkts ++ (pkt ∷ []))

drain_loop-inside_example :
    (off : ℤ) × IsFirstSeek [] off
    × (drain_loop plain [] short sink note (packet_at 1 ∷ packet_at 4 ∷ []) eof [] ≡ (
        write_all plain [] short sink note
          (inside plain [] short sink off (packet_at 1 ∷ packet_at 4 ∷ []))
          []
        >>= ended eof))
drain_loop-inside_example =
    drain_loop-inside plain [] short sink note (packet_at 1 ∷ packet_at 4 ∷ []) eof []

-- A graph that never ends: its state is the number of frames that it has given.
abbrev endless : ℕ → ℕ → Result Frame × ℕ
endless i n = (ok (frame_at n), suc n)

abbrev always_short : ℕ → Window
always_short o = short

abbrev keep_queue : ℕ → ℕ → ℕ
keep_queue i n = n

abbrev no_analysis : Rational → Frame → ℕ → ℕ
no_analysis tb f n = n

abbrev no_packets : GOut → Option Frame → ℕ → Result ℕ
no_packets g f n = ok n

abbrev age_of : ℕ → ℕ → ℕ
age_of i n = n

endless_grows :
    (w w' : ℕ) (f : Frame)
    → endless 0 w ≡ (ok f, w')
    → (is_set f.pts ≡ true) × (w < w') × (pos w ≤ℤ ts_add f.pts (pos 0))
unfolding ts_add
endless_grows w w' f e =
    let p : pos w ≡ f.pts = ap pts_of e in
    let q : suc w ≡ w' = ap (λ (x : Result Frame × ℕ). x.1) e in
    (
      rw (sym p) (ground arith),
      omega (arith, q),
      rw (sym p) (omega (arith, +ℤ_parts (pos w) (pos 0))),
    )
  where
    pts_of : Result Frame × ℕ → ℤ
    pts_of (ok f, n) = f.pts
    pts_of (err code, n) = nopts

no_packets_keep :
    (h : GOut) (w w' : ℕ) (f : Frame)
    → no_packets h (some f) (no_analysis h.sink_tb f w) ≡ ok w'
    → w ≤ w'
no_packets_keep h w w' f e = rw (ap state_of e) (omega arith)
  where
    state_of : Result ℕ → ℕ
    state_of (ok n) = n
    state_of (err code) = 0

pull_sinks_ends_example :
    (r : Result (List GOut × ℕ)) × (pull_sinks plain [] always_short endless keep_queue no_analysis
        no_packets 4
        (sink ∷ [])
        0
      ≡ some r)
unfolding out_cutoff_us ◌+ℤ◌
pull_sinks_ends_example =
    pull_sinks_ends plain [] always_short endless keep_queue no_analysis no_packets age_of 3
      (sink ∷ []) 0 ((endless_grows, no_packets_keep), tt) ((3, refl, omega arith, refl), tt)

abbrev no_frames : ℕ → Option Packet → ℕ → Result (Drained Frame × ℕ)
no_frames i pkt n = ok (record { items = frame_at 5 ∷ []; last = eof }, n)

-- A graph that has closed every pad.
abbrev closed_graph : ℕ → Option Frame → ℕ → Option AvError × ℕ
closed_graph i f n = (some eof, n)

abbrev unsought : GIn → Seek
unsought g = record { seek_us = nopts; accurate = false; time_base = second }

flush_pads-Flushed_example :
    IfOk
      (λ (x : List GIn × ℕ). Flushed 0 (pad 0 ∷ pad 1 ∷ []) x.0)
      (flush_pads plain no_frames closed_graph unsought 0 0 (pad 0 ∷ pad 1 ∷ []) 7)
flush_pads-Flushed_example =
    flush_pads-Flushed plain no_frames closed_graph unsought 0 0 (pad 0 ∷ pad 1 ∷ []) 7
