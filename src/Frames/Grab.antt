-- ===== src/Frames/Grab.antt =====
-- src/frames.c: how frames are picked and written: expand_path, write_frame, emit_one, grab_at and
-- grab_scene. The state is what the engine counts and reports, with the state S of libav's objects;
-- every function answers with an error, if there is one, and the state after it. A time in seconds
-- is a double, an element of T.
mod Tests
pub mod Watched
pub mod Numbered
use ffmpeg_wasi.Base.{
  ℕ, zero, suc, ◌+◌, ◌-◌, Bool, true, false, not, ◌&&◌, ◌||◌, List, [], ◌∷◌, ◌++◌, Option, none,
  some, ltb, leb, ◌==◌, if◌then◌else◌, length,
}
use ffmpeg_wasi.Base.Int.{ℤ, pos, ltb_ℤ, ◌==ℤ◌}
use ffmpeg_wasi.Base.Text.{Bytes}
use ffmpeg_wasi.Av.{AvError, enametoolong, is_eof, is_eagain, Result, ok, err}
use ffmpeg_wasi.Process.Mux.{Packet, is_set}
use ffmpeg_wasi.Process.Graph.{Frame, Drained}
use ffmpeg_wasi.Process.Graph.Push.{time_of}

-- An element of the reply's "frames".
pub record Entry (T : Type 0) : Type 0 where
  pub path : Bytes
  pub index : ℕ
  pub timestamp : Option T

-- The fields of a Frames that change.
pub record Frames (T : Type 0) : Type 0 where
  pub pts_counter : ℕ
  pub written : ℕ
  pub jframes : List (Entry T)

-- sizeof(path)
abbrev pub path_size : ℕ
path_size = 1024

-- `print` is snprintf with one integer argument, `none` for its error, and `tmpl` the template, with
-- `ntok` conversions.
unfoldable pub expand_path : (Bytes → ℕ → Option Bytes) → Bytes → ℕ → ℕ → Result Bytes
expand_path print tmpl ntok index =
    let text = if ntok == 1 then print tmpl index else some tmpl in
    elim text [
      | none ↦ err enametoolong
      | some s ↦ if leb path_size (length s) then err enametoolong else ok s
    ]

-- The calls of libav, and afio_write_file.
pub record Calls (T S : Type 0) : Type 0 where
  pub image : Frame → S → Result Bytes × S  -- the image encoder: one packet for a frame
  pub write_file : Bytes → Bytes → S → Option AvError × S
  pub add : Option Frame → S → Option AvError × S  -- av_buffersrc_add_frame_flags
  pub get : S → Result Frame × S  -- av_buffersink_get_frame
  pub decode : Packet → S → Result (Drained Frame) × S
  pub flush : S → Drained Frame × S  -- the decoder's frames after a NULL packet
  pub seek : ℤ → S → Option S  -- av_seek_frame and avcodec_flush_buffers, `none` if it fails
  pub packets : S → Drained Packet  -- what av_read_frame yields from here on
  pub start : T → ℤ  -- a time in the stream's time base
  pub seconds : ℤ → T
  pub is_nonneg : T → Bool
  pub vstream : ℤ

-- `if (rc < 0) break;`, and on to the rest.
abbrev pub on_ok {κ} :
    {A : Type κ} → (A → Option AvError × A) → Option AvError × A → Option AvError × A
on_ok k (none, s) = k s
on_ok k (some code, s) = (some code, s)

-- A code that is not an error here.
abbrev pub ignore {κ} : {A : Type κ} → (AvError → Bool) → Option AvError × A → Option AvError × A
ignore p (none, s) = (none, s)
ignore p (some code, s) = if p code then (none, s) else (some code, s)

abbrev pub is_end : AvError → Bool
is_end code = is_eagain code || is_eof code

module _ {T S : Type 0} (av : Calls T S) (path_of : ℕ → Result Bytes) (cap : ℕ) where
  abbrev pub Outcome : Type 0
  Outcome = Option AvError × (Frames T × S)

  abbrev pub noted : Bytes → Option T → Frames T → Frames T
  noted path t f = record f {
    jframes = f.jframes ++ (record { path = path; index = f.written; timestamp = t } ∷ []);
    written = suc f.written;
  }

  abbrev pub wrote : Bytes → Option T → Frames T → Option AvError × S → Outcome
  wrote path t f (none, w) = (none, (noted path t f, w))
  wrote path t f (some code, w) = (some code, (f, w))

  abbrev pub write_image : Bytes → Option T → Frames T → Result Bytes × S → Outcome
  write_image path t f (err code, w) = (some code, (f, w))
  write_image path t f (ok bytes, w) = wrote path t f (av.write_file path bytes w)

  unfoldable pub write_frame : Frame → Bytes → Option T → Frames T × S → Outcome
  write_frame frame path t (f, w) = write_image path t f (av.image frame w)

  -- A frame of the sink, under the path of the number of frames written.
  abbrev pub write_at : Option T → Frame → Frames T × S → Result Bytes → Outcome
  write_at t frame s (err code) = (some code, s)
  write_at t frame s (ok path) = write_frame frame path t s

  -- One turn of the loops over the sink's frames; `stops` tells which codes end them quietly.
  abbrev pub take_sink :
      (AvError → Bool) → (Frames T × S → Outcome) → Option T → Frames T → Result Frame × S → Outcome
  take_sink stops k t f (err code, w) = if stops code then (none, (f, w)) else (some code, (f, w))
  take_sink stops k t f (ok frame, w) = on_ok k (write_at t frame (f, w) (path_of f.written))

  -- The loop, with the number of frames that may still be written: every turn that goes on writes one.
  unfoldable pub sink_loop : (AvError → Bool) → Option T → ℕ → Frames T × S → Outcome
  sink_loop stops t zero s = (none, s)
  sink_loop stops t (suc n) (f, w) = take_sink stops (sink_loop stops t n) t f (av.get w)

  abbrev pub added : Option T → Frames T → Option AvError × S → Outcome
  added t f (some code, w) = (some code, (f, w))
  added t f (none, w) = sink_loop is_end t (cap - f.written) (f, w)

  unfoldable pub emit_one : Frame → Option T → Frames T × S → Outcome
  emit_one decoded t (f, w) =
      added t (record f { pts_counter = suc f.pts_counter })
        (av.add (some (record decoded { pts = pos f.pts_counter })) w)

  -- `t_sec >= 0`
  abbrev pub recorded : T → Option T
  recorded t = if av.is_nonneg t then some t else none

  -- The first frame at or after the target, if one of these is.
  unfoldable pub first_from : ℤ → List Frame → Option Frame
  first_from ts [] = none
  first_from ts (frame ∷ frames) =
      if is_set (time_of frame) && ltb_ℤ (time_of frame) ts
      then first_from ts frames
      else some frame

  abbrev pub actual : T → Frame → T
  actual t_sec frame = if is_set (time_of frame) then av.seconds (time_of frame) else t_sec

  -- The frames that one packet gives: a frame is emitted and ends the search, or `k` goes on.
  abbrev pub search_frames :
      T → (Frames T × S → Outcome) → AvError → Frames T × S → Option Frame → Outcome
  search_frames t_sec k last s (some frame) = emit_one frame (recorded (actual t_sec frame)) s
  search_frames t_sec k last s none = if is_eagain last then k s else ignore is_eof (some last, s)

  abbrev pub search_packet :
      T → (Frames T × S → Outcome) → Frames T → Result (Drained Frame) × S → Outcome
  search_packet t_sec k f (err code, w) = ignore is_eof (some code, (f, w))
  search_packet t_sec k f (ok d, w) =
      search_frames t_sec k d.last (f, w) (first_from (av.start t_sec) d.items)

  -- The packets from the keyframe on.
  unfoldable pub search : T → AvError → List Packet → Frames T × S → Outcome
  search t_sec last [] s = ignore is_eof (some last, s)
  search t_sec last (pkt ∷ pkts) (f, w) =
      let rest = search t_sec last pkts in
      if not (pkt.stream_index ==ℤ av.vstream)
      then rest (f, w)
      else search_packet t_sec rest f (av.decode pkt w)

  abbrev pub sought : T → Frames T × S → Option S → Outcome
  sought t_sec s none = (none, s)
  sought t_sec (f, w) (some w') = search t_sec (av.packets w').last (av.packets w').items (f, w')

  unfoldable pub grab_at : T → Frames T × S → Outcome
  grab_at t_sec (f, w) = sought t_sec (f, w) (av.seek (av.start t_sec) w)

  abbrev pub timestamp_of : Frame → Option T
  timestamp_of frame =
      if is_set frame.best_effort_timestamp
      then recorded (av.seconds frame.best_effort_timestamp)
      else none

  -- Every frame is emitted, until the cap; then the code that ended the drain.
  abbrev pub emitted : (Frames T × S → Outcome) → Frames T × S → Outcome
  emitted k s = if leb cap s.0.written then (none, s) else k s

  unfoldable pub emit_all : AvError → List Frame → Frames T × S → Outcome
  emit_all last [] s = (some last, s)
  emit_all last (frame ∷ frames) s =
      on_ok (emitted (emit_all last frames)) (emit_one frame (timestamp_of frame) s)

  abbrev pub scene_packet : Frames T → Result (Drained Frame) × S → Outcome
  scene_packet f (err code, w) = (some code, (f, w))
  scene_packet f (ok d, w) = ignore is_eagain (emit_all d.last d.items (f, w))

  -- The packets of the input, until the cap.
  unfoldable pub scan : AvError → List Packet → Frames T × S → Outcome
  scan last [] s = if leb cap s.0.written then (none, s) else (some last, s)
  scan last (pkt ∷ pkts) (f, w) =
      let rest = scan last pkts in
      if leb cap f.written
      then (none, (f, w))
      else if not (pkt.stream_index ==ℤ av.vstream)
      then rest (f, w)
      else on_ok rest (scene_packet f (av.decode pkt w))

  -- The frames that the decoder still holds.
  abbrev pub flush_scene : Frames T → Drained Frame × S → Outcome
  flush_scene f (d, w) = ignore is_end (emitted (emit_all d.last d.items) (f, w))

  abbrev pub told : Frames T → Option AvError × S → Outcome
  told f (none, w) = sink_loop (λ code. true) none (cap - f.written) (f, w)
  told f (some code, w) =
      if is_eof code
      then sink_loop (λ c. true) none (cap - f.written) (f, w)
      else (some code, (f, w))

  -- The frames that the graph still holds.
  abbrev pub drain_scene : Frames T × S → Outcome
  drain_scene (f, w) = if leb cap f.written then (none, (f, w)) else told f (av.add none w)

  unfoldable pub grab_scene : Frames T × S → Outcome
  grab_scene (f, w) = on_ok drain_scene (
      on_ok (λ (s : Frames T × S). flush_scene s.0 (av.flush s.1))
        (ignore is_eof (scan (av.packets w).last (av.packets w).items (f, w))))

  -- The loop of op_frames over the targets.
  unfoldable pub grab_targets : List T → Frames T × S → Outcome
  grab_targets [] s = (none, s)
  grab_targets (t ∷ ts) s =
      if leb cap s.0.written then (none, s) else on_ok (grab_targets ts) (grab_at t s)
