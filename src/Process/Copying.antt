-- ===== src/Process/Copying.antt =====
-- src/process.c: the packets of the copied streams: write_copy_pkt, copy_one, copy_packet and
-- flush_copy_bsfs. `write` is pmux with av_interleaved_write_frame, and `filter` sends a packet
-- (`none` for the flush) to the bitstream filter of target `i` and takes the packets that come out.
-- Both run on the state S of libav's objects.
mod Tests
pub mod Offsets
use ffmpeg_wasi.Base.{
  ℕ, suc, Bool, true, false, ◌&&◌, ◌||◌, List, [], ◌∷◌, Option, none, some, ltb, ◌==◌,
  if◌then◌else◌,
}
use ffmpeg_wasi.Base.Int.{ℤ, pos, leb_ℤ, ◌==ℤ◌}
use ffmpeg_wasi.Av.{
  AvError, is_eof, is_eagain, MediaType, video, audio, eq_type, Rational, Result, ok, err, ◌>>=◌,
}
use ffmpeg_wasi.Process.Mux.{Packet, Stream}
use ffmpeg_wasi.Process.Window.{Window, copy_window}
use ffmpeg_wasi.Process.Graph.{Units, Drained}
use ffmpeg_wasi.Process.Graph.Push.{is_positive}

-- A Cpy with its input stream: `bsf` is the filter's `time_base_out`.
pub record Cpy : Type 0 where
  pub in_idx : ℕ
  pub st_idx : ℕ
  pub out_idx : ℕ
  pub codec_type : MediaType
  pub avg_frame_rate : Rational
  pub sample_rate : ℕ
  pub frame_size : ℕ
  pub src_tb : Rational
  pub bsf : Option Rational
  pub ost : Stream

-- `cpy_rebase_us`, by input and output.
abbrev pub Offsets : Type 0
Offsets = ℕ → ℕ → ℤ

abbrev pub set_offset : ℕ → ℕ → ℤ → Offsets → Offsets
set_offset i o t r = λ a b. if a == i && b == o then t else r a b

-- The duration of a packet that the demuxer gave none.
unfoldable pub nominal_duration : Units → Cpy → Rational → Packet → ℤ
nominal_duration u cp src_tb pkt =
    if eq_type cp.codec_type video && is_positive cp.avg_frame_rate
    then u.rescale_q (pos 1) (u.inv_q cp.avg_frame_rate) src_tb
    else if eq_type cp.codec_type audio && (ltb 0 cp.sample_rate && ltb 0 cp.frame_size)
    then u.rescale_q (pos cp.frame_size) (record { num = 1; den = cp.sample_rate }) src_tb
    else pkt.duration

-- The packet as the muxer takes it.
unfoldable pub redirected : Units → Cpy → Rational → Packet → Packet
redirected u cp src_tb pkt =
    let timed =
      if leb_ℤ pkt.duration (pos 0)
      then record pkt { duration = nominal_duration u cp src_tb pkt }
      else pkt in
    record (u.packet_rescale_ts timed src_tb cp.ost.time_base) { stream_index = cp.ost.index }

module _ {S : Type 0} (u : Units) (window_of : ℕ → Window)
    (write : ℕ → Stream → Packet → S → Option AvError × S)
    (filter : ℕ → Option Packet → S → Result (Drained Packet × S)) where
  -- write_copy_pkt behind the window: the pair's offset, and the packet if it is not dropped.
  unfoldable pub after_window :
      Cpy → Rational → Offsets × S → ℤ × Option Packet → Option AvError × (Offsets × S)
  after_window cp src_tb (r, w) (t, none) = (none, (set_offset cp.in_idx cp.out_idx t r, w))
  after_window cp src_tb (r, w) (t, some pkt) =
      let (code, w') = write cp.out_idx cp.ost (redirected u cp src_tb pkt) w in
      (code, (set_offset cp.in_idx cp.out_idx t r, w'))

  unfoldable pub write_copy_pkt :
      Cpy → Rational → Packet → Offsets × S → Option AvError × (Offsets × S)
  write_copy_pkt cp src_tb pkt (r, w) =
      after_window cp src_tb (r, w)
        (copy_window u.rescale_q (window_of cp.out_idx) src_tb (r cp.in_idx cp.out_idx) pkt)

  -- The loop over the packets that come out of a filter, with the code that ends it.
  abbrev pub next_filtered :
      (Offsets × S → Option AvError × (Offsets × S))
      → Option AvError × (Offsets × S)
      → Option AvError × (Offsets × S)
  next_filtered k (none, x) = k x
  next_filtered k (some code, x) = (some code, x)

  unfoldable pub write_filtered :
      Cpy → Rational → List Packet → AvError → Offsets × S → Option AvError × (Offsets × S)
  write_filtered cp tb [] last x = (some last, x)
  write_filtered cp tb (pkt ∷ pkts) last x =
      next_filtered (write_filtered cp tb pkts last) (write_copy_pkt cp tb pkt x)

  abbrev pub result_of : (AvError → Bool) → Option AvError × (Offsets × S) → Result (Offsets × S)
  result_of is_end (none, x) = ok x
  result_of is_end (some code, x) = if is_end code then ok x else err code

  -- A packet, or the flush, through the filter of target `i`.
  abbrev pub through_filter :
      (AvError → Bool)
      → Cpy
      → Rational
      → Offsets
      → Result (Drained Packet × S)
      → Result (Offsets × S)
  through_filter is_end cp tb r (err code) = err code
  through_filter is_end cp tb r (ok (d, w)) =
      result_of is_end (write_filtered cp tb d.items d.last (r, w))

  abbrev pub copy_via : ℕ → Cpy → Packet → Offsets × S → Option Rational → Result (Offsets × S)
  copy_via i cp src x none = result_of (λ code. false) (write_copy_pkt cp cp.src_tb src x)
  copy_via i cp src (r, w) (some tb) =
      through_filter (λ code. is_eagain code || is_eof code) cp tb r (filter i (some src) w)

  unfoldable pub copy_one : ℕ → Cpy → Packet → Offsets × S → Result (Offsets × S)
  copy_one i cp src x = copy_via i cp src x cp.bsf

  -- The targets from number `i` on.
  unfoldable pub copy_packet : ℕ → Packet → ℕ → List Cpy → Offsets × S → Result (Offsets × S)
  copy_packet in_idx pkt i [] x = ok x
  copy_packet in_idx pkt i (cp ∷ cps) x =
      let rest = copy_packet in_idx pkt (suc i) cps in
      if cp.in_idx == in_idx && pos cp.st_idx ==ℤ pkt.stream_index
      then copy_one i cp pkt x >>= rest
      else rest x

  abbrev pub flush_via : ℕ → Cpy → Offsets × S → Option Rational → Result (Offsets × S)
  flush_via i cp x none = ok x
  flush_via i cp (r, w) (some tb) = through_filter is_eof cp tb r (filter i none w)

  unfoldable pub flush_copy_bsfs : ℕ → List Cpy → Offsets × S → Result (Offsets × S)
  flush_copy_bsfs i [] x = ok x
  flush_copy_bsfs i (cp ∷ cps) x = flush_via i cp x cp.bsf >>= flush_copy_bsfs (suc i) cps
