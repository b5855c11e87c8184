-- ===== src/Process/Engine/Tests.antt =====
-- A concrete job for src/process.c, from its demuxer to its muxer.
use ffmpeg_wasi.Base.{ℕ, zero, suc, Bool, false, List, [], ◌∷◌, none, replicate}
use ffmpeg_wasi.Base.Int.{pos, int64_max}
use ffmpeg_wasi.Av.{eof, eagain, Rational, Result, ok, err}
use ffmpeg_wasi.Process.Timestamps.{nopts}
use ffmpeg_wasi.Process.Mux.{Packet}
use ffmpeg_wasi.Process.Window.{Window}
use ffmpeg_wasi.Process.Graph.{Frame, GIn}
use ffmpeg_wasi.Process.Run.{demux}
use ffmpeg_wasi.Process.Run.Machine.{IfDone}
use ffmpeg_wasi.Process.Engine.{Libav, Setting, Ctx, job_of}
use ffmpeg_wasi.Process.Engine.Pads.{ShutFrom}
use ffmpeg_wasi.Process.Engine.Shut.{demux-ShutFrom}

abbrev second : Rational
second = record { num = 1; den = 1 }

abbrev packet_at : ℕ → Packet
packet_at t = record {
  pts = pos t;
  dts = pos t;
  duration = pos 1;
  size = pos 1;
  stream_index = pos 0;
}

abbrev frame_at : ℕ → Frame
frame_at t = record {
  pts = pos t;
  best_effort_timestamp = pos t;
  duration = pos 1;
  nb_samples = pos 1;
  pict_type = 1;
  metadata = [];
}

abbrev read_down : ℕ → ℕ → Result Packet × ℕ
read_down i zero = (err eof, 0)
read_down i (suc n) = (ok (packet_at n), n)

-- Every call succeeds; the state is the number of packets that the demuxer has left.
abbrev libav : Libav ℕ
libav = record {
  units = record {
    rescale_q = λ t a b. t;
    differ = λ a b. false;
    inv_q = λ r. r;
    packet_rescale_ts = λ p a b. p;
  };
  decode = λ i pkt n. ok (record { items = frame_at 4 ∷ []; last = eagain }, n);
  add = λ i f n. (none, n);
  encode = λ i f n. ok (record { items = []; last = eof }, n);
  filter = λ i pkt n. ok (record { items = []; last = eof }, n);
  decode_sub = λ i pkt n. ok (none, n);
  encode_sub = λ i sub n. ok (0, n);
  write = λ o ost pkt n. (none, n);
  trailer = λ j n. (none, n);
  read = read_down;
  base_of = λ i pkt. second;
  io_error = λ i n. none;
  pull = λ gout n. ok (gout, n);
}

abbrev unbounded : Window
unbounded = record {
  duration = record { is_positive = false; micros = pos 0 };
  end = record { is_positive = false; micros = pos 0 };
  copy_ts = false;
}

abbrev setting : Setting
setting = record {
  seek_us = nopts ∷ [];
  seek_at = λ i. nopts;
  seek_of = λ g. record { seek_us = nopts; accurate = false; time_base = second };
  window_of = λ o. unbounded;
  cutoff = λ i. int64_max;
}

abbrev pad : GIn
pad = record {
  in_idx = 0;
  st_idx = 0;
  pkt_timebase = second;
  src_tb = second;
  rebase = nopts;
  closed = false;
}

abbrev start : Ctx ℕ
start = record { gin = pad ∷ []; gout = []; cpy = []; sub = []; offsets = λ i o. nopts; lib = 2 }

demux-ShutFrom_example :
    IfDone
      (job_of libav setting)
      (λ (x : List Bool × ℕ × Ctx ℕ). ShutFrom 0 1 x.2.gin)
      (demux (job_of libav setting) 5 (replicate 1 false) 1 start)
demux-ShutFrom_example = demux-ShutFrom libav setting 5 1 start
