-- ===== src/Process/Graph/Feed.antt =====
-- src/process.c: how the packets of an input reach the graph, and what the end of an input does to it:
-- feed, and the flush of the decoders in op_process. `decode` sends a packet (`none` for the flush)
-- to the decoder of pad `i` and takes the frames that come out, `add` feeds a frame (`none` for the
-- end) into the pad's buffersrc, and `pull` is pull_sinks.
use ffmpeg_wasi.Base.{ℕ, suc, true, ◌&&◌, List, [], ◌∷◌, Option, none, some, ◌==◌, if◌then◌else◌}
use ffmpeg_wasi.Base.Int.{pos, ◌==ℤ◌}
use ffmpeg_wasi.Av.{AvError, is_eof, Result, ok, err, ◌>>=◌}
use ffmpeg_wasi.Process.Mux.{Packet}
use ffmpeg_wasi.Process.Graph.{Frame, GIn, Units, Drained, ended}
use ffmpeg_wasi.Process.Graph.Push.{Seek, push_frames}

-- A pad put before those that follow it.
abbrev pub and_pads {κ} : {S : Type κ} → GIn → Result (List GIn × S) → Result (List GIn × S)
and_pads g (err code) = err code
and_pads g (ok (gs, w)) = ok (g ∷ gs, w)

module _ {S : Type 0} (u : Units) (decode : ℕ → Option Packet → S → Result (Drained Frame × S))
    (add : ℕ → Option Frame → S → Option AvError × S) (seek_of : GIn → Seek) where
  -- The frames that one packet, or the flush, yields for pad `i`.
  unfoldable pub decode_pad : ℕ → Option Packet → GIn → S → Result (GIn × S)
  decode_pad i pkt g w = decode i pkt w >>= λ (x : Drained Frame × S).
      push_frames u (λ f. add i (some f)) (seek_of g) g x.0.items x.1 >>= ended x.0.last

  -- The pads from number `i` on.
  unfoldable pub feed_pads : ℕ → Packet → ℕ → List GIn → S → Result (List GIn × S)
  feed_pads in_idx pkt i [] w = ok ([], w)
  feed_pads in_idx pkt i (g ∷ gs) w =
      let rest = feed_pads in_idx pkt (suc i) gs in
      if g.in_idx == in_idx && pos g.st_idx ==ℤ pkt.stream_index
      then (decode_pad i (some pkt) g w >>= λ (x : GIn × S). and_pads x.0 (rest x.1))
      else and_pads g (rest w)

  -- The end of the frames of pad `i`: its buffersrc is told, unless the graph has closed it.
  abbrev pub told : GIn → Option AvError × S → Result (GIn × S)
  told g (none, w) = ok (record g { closed = true }, w)
  told g (some code, w) = if is_eof code then ok (record g { closed = true }, w) else err code

  unfoldable pub close_pad : ℕ → GIn × S → Result (GIn × S)
  close_pad i (g, w) = if g.closed then ok (g, w) else told g (add i none w)

  unfoldable pub flush_pads : ℕ → ℕ → List GIn → S → Result (List GIn × S)
  flush_pads in_idx i [] w = ok ([], w)
  flush_pads in_idx i (g ∷ gs) w =
      let rest = flush_pads in_idx (suc i) gs in
      if g.in_idx == in_idx
      then (decode_pad i none g w >>= close_pad i >>= λ (x : GIn × S). and_pads x.0 (rest x.1))
      else and_pads g (rest w)
