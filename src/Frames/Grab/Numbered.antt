-- ===== src/Frames/Grab/Numbered.antt =====
-- src/frames.c: what the two ways of grabbing frames write, and what the reply says of it.
use ffmpeg_wasi.Base.{ℕ, ◌-◌, not, List, [], ◌∷◌, Option, none, some, leb, arith, if_elim}
use ffmpeg_wasi.Base.Int.{◌==ℤ◌}
use ffmpeg_wasi.Base.Text.{Bytes}
use ffmpeg_wasi.Av.{AvError, is_eof, is_eagain, Result, ok, err}
use ffmpeg_wasi.Process.Mux.{Packet}
use ffmpeg_wasi.Process.Graph.{Frame, Drained}
use ffmpeg_wasi.Frames.Grab.{
  Frames, Calls, on_ok, ignore, is_end, emit_one, search_frames, search_packet, first_from, search,
  sought, grab_at, emitted, emit_all, scene_packet, scan, flush_scene, told, drain_scene,
  grab_scene, grab_targets, timestamp_of,
}
use ffmpeg_wasi.Frames.Grab.Watched.{
  with_files, watched, State, IsFaithful, Holds, Kept, on_ok-Holds, ignore-Holds, sink_loop-Holds,
  emit_one-Holds,
}

module _ {T S : Type 0} (av : Calls T S) (path_of : ℕ → Result Bytes) (cap : ℕ) where
  search_frames-Holds :
      (t : T) (k : State av path_of cap → Option AvError × State av path_of cap) (last : AvError)
      (s : State av path_of cap) (o : Option Frame)
      → Kept av path_of cap k
      → IsFaithful av path_of cap s
      → Holds av path_of cap (search_frames (watched av) path_of cap t k last s o)
  search_frames-Holds t k last s (some frame) i h = emit_one-Holds av path_of cap frame _ s h
  search_frames-Holds t k last s none i h =
      if_elim (Holds av path_of cap) (is_eagain last) _ _ (λ e. i s h)
        (λ e. ignore-Holds av path_of cap is_eof (some last, s) h)

  search-Holds :
      (t : T) (last : AvError) (pkts : List Packet)
      → Kept av path_of cap (search (watched av) path_of cap t last pkts)
  unfolding search
  search-Holds t last [] s h = ignore-Holds av path_of cap is_eof (some last, s) h
  search-Holds t last (pkt ∷ pkts) (f, (w, files)) h =
      if_elim (Holds av path_of cap) (not (pkt.stream_index ==ℤ av.vstream)) _ _
        (λ e. search-Holds t last pkts (f, (w, files)) h)
        (λ e.
          decoded (search (watched av) path_of cap t last pkts) (search-Holds t last pkts)
            (av.decode pkt w).0 (av.decode pkt w).1)
    where
      decoded :
          (k : State av path_of cap → Option AvError × State av path_of cap)
          → Kept av path_of cap k
          → (r : Result (Drained Frame)) (v : S)
          → Holds av path_of cap (search_packet (watched av) path_of cap t k f (r, (v, files)))
      decoded k i (err code) v = ignore-Holds av path_of cap is_eof (some code, (f, (v, files))) h
      decoded k i (ok d) v =
          search_frames-Holds t k d.last (f, (v, files))
            (first_from (watched av) path_of cap (av.start t) d.items) i h

  grab_at-Holds : (t : T) → Kept av path_of cap (grab_at (watched av) path_of cap t)
  unfolding grab_at
  grab_at-Holds t (f, (w, files)) h = sought-Holds (av.seek (av.start t) w)
    where
      sought-Holds :
          (o : Option S)
          → Holds av path_of cap
              (sought (watched av) path_of cap t (f, (w, files)) (with_files files o))
      sought-Holds none = h
      sought-Holds (some v) = search-Holds t _ _ (f, (v, files)) h

  -- From a state in which what follows holds already, such as the one with nothing written: whatever the
  -- decoder, the graph, the encoder and the file system answer, and for any list of
  -- targets, the files that the seeks of op_frames have written without an error are at most `cap`, and
  -- the reply lists exactly their paths, in the order in which they were written, numbered from 0 and
  -- each as the template gives it for its number.
  pub grab_targets-IsFaithful :
      (targets : List T) (s : State av path_of cap)
      → IsFaithful av path_of cap s
      → IsFaithful av path_of cap (grab_targets (watched av) path_of cap targets s).1
  unfolding grab_targets
  grab_targets-IsFaithful [] s h = h
  grab_targets-IsFaithful (t ∷ ts) s h =
      if_elim (Holds av path_of cap) (leb cap s.0.written) _ _ (λ e. h)
        (λ e.
          on_ok-Holds av path_of cap (grab_targets (watched av) path_of cap ts)
            (grab_at (watched av) path_of cap t s) (grab_at-Holds t s h)
            (λ r i. grab_targets-IsFaithful ts r i))

  emitted-Holds :
      (k : State av path_of cap → Option AvError × State av path_of cap)
      → Kept av path_of cap k
      → Kept av path_of cap (emitted (watched av) path_of cap k)
  emitted-Holds k i s h =
      if_elim (Holds av path_of cap) (leb cap s.0.written) (none, s) (k s) (λ e. h) (λ e. i s h)

  emit_all-Holds :
      (last : AvError) (frames : List Frame)
      → Kept av path_of cap (emit_all (watched av) path_of cap last frames)
  unfolding emit_all
  emit_all-Holds last [] s h = h
  emit_all-Holds last (frame ∷ frames) s h =
      on_ok-Holds av path_of cap
        (emitted (watched av) path_of cap (emit_all (watched av) path_of cap last frames))
        (emit_one (watched av) path_of cap frame (timestamp_of (watched av) path_of cap frame) s)
        (emit_one-Holds av path_of cap frame (timestamp_of (watched av) path_of cap frame) s h)
        (emitted-Holds (emit_all (watched av) path_of cap last frames) (emit_all-Holds last frames))

  scene_packet-Holds :
      (f : Frames T) (r : Result (Drained Frame)) (w : S × List Bytes)
      → IsFaithful av path_of cap (f, w)
      → Holds av path_of cap (scene_packet (watched av) path_of cap f (r, w))
  scene_packet-Holds f (err code) w h = h
  scene_packet-Holds f (ok d) w h =
      ignore-Holds av path_of cap is_eagain
        (emit_all (watched av) path_of cap d.last d.items (f, w))
        (emit_all-Holds d.last d.items (f, w) h)

  scan-Holds :
      (last : AvError) (pkts : List Packet)
      → Kept av path_of cap (scan (watched av) path_of cap last pkts)
  unfolding scan
  scan-Holds last [] s h =
      if_elim (Holds av path_of cap) (leb cap s.0.written) _ _ (λ e. h) (λ e. h)
  scan-Holds last (pkt ∷ pkts) (f, (w, files)) h =
      if_elim (Holds av path_of cap) (leb cap f.written) _ _ (λ e. h)
        (λ e.
          if_elim (Holds av path_of cap) (not (pkt.stream_index ==ℤ av.vstream)) _ _
            (λ n. scan-Holds last pkts (f, (w, files)) h)
            (λ n.
              on_ok-Holds av path_of cap (scan (watched av) path_of cap last pkts)
                (scene_packet (watched av) path_of cap f ((watched av).decode pkt (w, files)))
                (scene_packet-Holds f (av.decode pkt w).0 ((av.decode pkt w).1, files) h)
                (scan-Holds last pkts)))

  drain_scene-Holds : Kept av path_of cap (drain_scene (watched av) path_of cap)
  drain_scene-Holds (f, (w, files)) h =
      if_elim (Holds av path_of cap) (leb cap f.written) _ _ (λ e. h)
        (λ e. told-Holds (av.add none w).0 (av.add none w).1)
    where
      told-Holds :
          (o : Option AvError) (v : S)
          → Holds av path_of cap (told (watched av) path_of cap f (o, (v, files)))
      told-Holds none v =
          sink_loop-Holds av path_of cap _ none (cap - f.written) f v files (omega arith) h
      told-Holds (some code) v =
          if_elim (Holds av path_of cap) (is_eof code) _ _
            (λ e. sink_loop-Holds av path_of cap _ none (cap - f.written) f v files (omega arith) h)
            (λ e. h)

  flush_scene-Holds :
      (f : Frames T) (d : Drained Frame) (w : S × List Bytes)
      → IsFaithful av path_of cap (f, w)
      → Holds av path_of cap (flush_scene (watched av) path_of cap f (d, w))
  flush_scene-Holds f d w h =
      ignore-Holds av path_of cap is_end
        (emitted (watched av) path_of cap (emit_all (watched av) path_of cap d.last d.items) (f, w))
        (emitted-Holds (emit_all (watched av) path_of cap d.last d.items)
          (emit_all-Holds d.last d.items) (f, w) h)

  -- From a state in which what follows holds already, such as the one with nothing written: whatever the
  -- decoder, the graph, the encoder and the file system answer, the files that grab_scene
  -- has written without an error are at most `cap`, those of the frames from the decoder and from the
  -- graph at the end of the input included, and the reply lists exactly their paths, in the order in
  -- which they were written, numbered from 0 and each as the template gives it for its number.
  pub grab_scene-IsFaithful :
      (s : State av path_of cap)
      → IsFaithful av path_of cap s
      → IsFaithful av path_of cap (grab_scene (watched av) path_of cap s).1
  unfolding grab_scene
  grab_scene-IsFaithful (f, (w, files)) h =
      on_ok-Holds av path_of cap (drain_scene (watched av) path_of cap) flushed
        (on_ok-Holds av path_of cap flushing scanned
          (ignore-Holds av path_of cap is_eof
            (scan (watched av) path_of cap (av.packets w).last (av.packets w).items (f, (w, files)))
            (scan-Holds (av.packets w).last (av.packets w).items (f, (w, files)) h))
          (λ r i. flush_scene-Holds r.0 (av.flush r.1.0).0 ((av.flush r.1.0).1, r.1.1) i))
        drain_scene-Holds
    where
      flushing : State av path_of cap → Option AvError × State av path_of cap
      flushing s = flush_scene (watched av) path_of cap s.0 ((watched av).flush s.1)

      scanned : Option AvError × State av path_of cap
      scanned =
          ignore is_eof
            (scan (watched av) path_of cap (av.packets w).last (av.packets w).items (f, (w, files)))

      flushed : Option AvError × State av path_of cap
      flushed = on_ok flushing scanned
