-- ===== src/Process/Subs.antt =====
-- src/process.c: the subtitle lane: write_sub_pkt, sub_packet, and the flush of its decoders in
-- op_process. `decode` is avcodec_decode_subtitle2 of target `i` on a packet (`none` for the empty
-- one), `encode` avcodec_encode_subtitle, which answers with the size of what it wrote, and `write`
-- pmux with av_interleaved_write_frame.
use ffmpeg_wasi.Base.{ℕ, suc, Bool, ◌&&◌, List, [], ◌∷◌, Option, none, some, ◌==◌, if◌then◌else◌}
use ffmpeg_wasi.Base.Int.{ℤ, pos, ◌-ℤ◌, ◌==ℤ◌}
use ffmpeg_wasi.Av.{Rational, Result, ok, ◌>>=◌}
use ffmpeg_wasi.Process.Timestamps.{ts_add}
use ffmpeg_wasi.Process.Mux.{Packet, Stream, is_set, time_base_q}
use ffmpeg_wasi.Process.Window.{Window, sub_window}
use ffmpeg_wasi.Process.Graph.{Units}

-- A transcoded subtitle stream; `has_dec` is whether its decoder is open.
pub record Sub : Type 0 where
  pub in_idx : ℕ
  pub st_idx : ℕ
  pub out_idx : ℕ
  pub has_dec : Bool
  pub ost : Stream

-- The fields of an AVSubtitle that the engine reads.
pub record Subtitle : Type 0 where
  pub pts : ℤ
  pub start_display_time : ℤ
  pub end_display_time : ℤ

abbrev pub milliseconds : Rational
milliseconds = record { num = 1; den = 1000 }

-- Where an event starts on the source's timeline, and how long it is shown.
abbrev pub event_start : Units → Subtitle → ℤ
event_start u sub =
    ts_add (if is_set sub.pts then sub.pts else pos 0)
      (u.rescale_q sub.start_display_time milliseconds time_base_q)

abbrev pub event_duration : Units → Subtitle → ℤ
event_duration u sub =
    u.rescale_q (sub.end_display_time -ℤ sub.start_display_time) milliseconds time_base_q

module _ {S : Type 0} (u : Units) (window_of : ℕ → Window) (seek_of : ℕ → ℤ)
    (decode : ℕ → Option Packet → S → Result (Option Subtitle × S))
    (encode : ℕ → Subtitle → S → Result (ℕ × S)) (write : ℕ → Stream → Packet → S → Result S) where
  -- The packet of an event of `size` bytes.
  abbrev pub sub_pkt : Sub → ℤ → ℤ → ℕ → Packet
  sub_pkt su out_us dur_us size = record {
    pts = u.rescale_q out_us time_base_q su.ost.time_base;
    dts = u.rescale_q out_us time_base_q su.ost.time_base;
    duration = u.rescale_q dur_us time_base_q su.ost.time_base;
    size = pos size;
    stream_index = su.ost.index;
  }

  abbrev pub write_event : Sub → ℤ → ℤ → ℕ × S → Result S
  write_event su out_us dur_us (n, w) =
      if n == 0 then ok w else write su.out_idx su.ost (sub_pkt su out_us dur_us n) w

  -- The event behind the window.
  abbrev pub encode_event : ℕ → Sub → Subtitle → S → Option (ℤ × ℤ) → Result S
  encode_event i su sub w none = ok w
  encode_event i su sub w (some (out_us, dur_us)) = encode i sub w >>= write_event su out_us dur_us

  unfoldable pub write_sub_pkt : ℕ → Sub → Subtitle → S → Result S
  write_sub_pkt i su sub w = encode_event i su sub w (
      sub_window (window_of su.out_idx) (seek_of su.in_idx) (event_start u sub)
        (event_duration u sub))

  -- What is done with the decoder's answer.
  abbrev pub write_decoded : ℕ → Sub → Option Subtitle × S → Result S
  write_decoded i su (none, w) = ok w
  write_decoded i su (some sub, w) = write_sub_pkt i su sub w

  -- The targets from number `i` on.
  unfoldable pub sub_packet : ℕ → Packet → ℕ → List Sub → S → Result S
  sub_packet in_idx pkt i [] w = ok w
  sub_packet in_idx pkt i (su ∷ sus) w =
      let rest = sub_packet in_idx pkt (suc i) sus in
      if su.in_idx == in_idx && pos su.st_idx ==ℤ pkt.stream_index
      then (decode i (some pkt) w >>= write_decoded i su >>= rest)
      else rest w

  unfoldable pub flush_subs : ℕ → ℕ → List Sub → S → Result S
  flush_subs in_idx i [] w = ok w
  flush_subs in_idx i (su ∷ sus) w =
      let rest = flush_subs in_idx (suc i) sus in
      if su.in_idx == in_idx && su.has_dec
      then (decode i none w >>= write_decoded i su >>= rest)
      else rest w
