-- ===== src/Process/Copying/Tests.antt =====
-- A copied stream behind a bitstream filter, for src/process.c.
use ffmpeg_wasi.Base.{ℕ, false, [], ◌∷◌, Option, none, some}
use ffmpeg_wasi.Base.Int.{pos}
use ffmpeg_wasi.Av.{AvError, eagain, video, Rational, Result, ok, IfOk}
use ffmpeg_wasi.Process.Timestamps.{nopts}
use ffmpeg_wasi.Process.Mux.{Packet, Stream}
use ffmpeg_wasi.Process.Window.{Window}
use ffmpeg_wasi.Process.Graph.{Units, Drained}
use ffmpeg_wasi.Process.Copying.{Cpy, Offsets, set_offset, copy_packet}
use ffmpeg_wasi.Process.Copying.Offsets.{Settled, copy_packet-Settled}

abbrev second : Rational
second = record { num = 1; den = 1 }

abbrev plain : Units
plain = record {
  rescale_q = λ t a b. t;
  differ = λ a b. false;
  inv_q = λ r. r;
  packet_rescale_ts = λ p a b. p;
}

abbrev cue : Packet
cue = record { pts = pos 9; dts = pos 9; duration = pos 0; size = pos 1; stream_index = pos 0 }

abbrev filtered : Cpy
filtered = record {
  in_idx = 0;
  st_idx = 0;
  out_idx = 0;
  codec_type = video;
  avg_frame_rate = second;
  sample_rate = 0;
  frame_size = 0;
  src_tb = second;
  bsf = some second;
  ost = record { index = pos 0; codec_type = video; time_base = second };
}

abbrev unbounded : ℕ → Window
unbounded o = record {
  duration = record { is_positive = false; micros = pos 0 };
  end = record { is_positive = false; micros = pos 0 };
  copy_ts = false;
}

abbrev count_packet : ℕ → Stream → Packet → ℕ → Option AvError × ℕ
count_packet o ost pkt n = (none, n)

abbrev twice : ℕ → Option Packet → ℕ → Result (Drained Packet × ℕ)
twice i pkt n = ok (record { items = cue ∷ cue ∷ []; last = eagain }, n)

abbrev at_five : Offsets
at_five = set_offset 0 0 (pos 5) (λ i o. nopts)

copy_packet-Settled_example :
    IfOk
      (λ (y : Offsets × ℕ). Settled at_five y.0)
      (copy_packet plain unbounded count_packet twice 0 cue 0
        (filtered ∷ filtered ∷ [])
        (at_five, 0))
copy_packet-Settled_example =
    copy_packet-Settled plain unbounded count_packet twice 0 cue 0 (filtered ∷ filtered ∷ [])
      (at_five, 0)
