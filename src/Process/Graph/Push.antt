-- ===== src/Process/Graph/Push.antt =====
-- src/process.c: push_frame, which rebases a decoded frame and feeds it into the graph.
-- `add` is av_buffersrc_add_frame_flags on the state of the graph: `none` for success.
use ffmpeg_wasi.Base.{
  ◌≡◌, refl, ap, ◌∙◌, Bool, true, not, ◌&&◌, ◌||◌, List, [], ◌∷◌, Option, none, some, ltb,
  if◌then◌else◌, if_true,
}
use ffmpeg_wasi.Base.Int.{ℤ, pos, ◌-ℤ◌, ltb_ℤ}
use ffmpeg_wasi.Av.{AvError, is_eof, Rational, Result, ok, err, ◌>>=◌}
use ffmpeg_wasi.Process.Mux.{is_set, time_base_q}
use ffmpeg_wasi.Process.Graph.{Frame, GIn, Units}

-- What push_frame reads of the pad's input: its seek, and the time base of the stream.
pub record Seek : Type 0 where
  pub seek_us : ℤ
  pub accurate : Bool
  pub time_base : Rational

abbrev pub time_of : Frame → ℤ
time_of f = if is_set f.best_effort_timestamp then f.best_effort_timestamp else f.pts

abbrev pub start_of : Units → Seek → ℤ
start_of u s = u.rescale_q s.seek_us time_base_q s.time_base

-- The frame moved to the pad's time zero.
abbrev pub rebased : ℤ → Frame → Frame
rebased base f = if is_set f.pts then record f { pts = time_of f -ℤ base } else f

-- The seek window: the pad's base and the frame after it, `none` if the frame is discarded.
unfoldable pub seek_frame : Units → Seek → ℤ → Frame → Option (ℤ × Frame)
seek_frame u s base f =
    if not (is_set s.seek_us) || not (is_set (time_of f))
    then some (base, f)
    else if s.accurate && ltb_ℤ (time_of f) (start_of u s)
    then none
    else (let base' =
          if is_set base then base else if s.accurate then start_of u s else time_of f in
        some (base', rebased base' f))

abbrev pub is_positive : Rational → Bool
is_positive r = ltb 0 r.num && ltb 0 r.den

-- The frame in the time base that the buffersrc was declared with.
unfoldable pub to_src_tb : Units → GIn → Frame → Frame
to_src_tb u g f =
    if is_positive g.pkt_timebase && is_positive g.src_tb && u.differ g.pkt_timebase g.src_tb
    then record f {
      pts = if is_set f.pts then u.rescale_q f.pts g.pkt_timebase g.src_tb else f.pts;
      duration =
          if ltb_ℤ (pos 0) f.duration
          then u.rescale_q f.duration g.pkt_timebase g.src_tb
          else f.duration;
    }
    else f

-- The pad after the graph's answer.
unfoldable pub settle {κ} : {S : Type κ} → GIn → Option AvError × S → Result (GIn × S)
settle g (none, w) = ok (g, w)
settle g (some code, w) = if is_eof code then ok (record g { closed = true }, w) else err code

module _ {S : Type 0} (u : Units) (add : Frame → S → Option AvError × S) (s : Seek) where
  -- push_frame from the test of `closed` on.
  unfoldable pub push_into : GIn → Frame → S → Result (GIn × S)
  push_into g f w = if g.closed then ok (g, w) else settle g (add (to_src_tb u g f) w)

  -- push_frame behind the seek window.
  unfoldable pub push_kept : GIn → S → Option (ℤ × Frame) → Result (GIn × S)
  unfolding push_into
  push_kept g w none = ok (g, w)
  push_kept g w (some (base, f)) = push_into (record g { rebase = base }) f w

  unfoldable pub push_frame : GIn → Frame → S → Result (GIn × S)
  unfolding push_kept
  push_frame g f w = push_kept g w (seek_frame u s g.rebase f)

  -- The loop over the frames that a decoder hands out.
  unfoldable pub push_frames : GIn → List Frame → S → Result (GIn × S)
  push_frames g [] w = ok (g, w)
  push_frames g (f ∷ fs) w = push_frame g f w >>= λ (x : GIn × S). push_frames x.0 fs x.1

  push_kept_closed :
      (g : GIn) (w : S) (o : Option (ℤ × Frame))
      → g.closed ≡ true
      → (r : ℤ) × (push_kept g w o ≡ ok (record g { rebase = r }, w))
  unfolding push_kept push_into
  push_kept_closed g w none h = (g.rebase, refl)
  push_kept_closed g w (some (base, f)) h = (base, if_true _ _ h)

  -- A pad that the graph has closed takes no frame: whatever frames are decoded for it, they are
  -- dropped without an error, the graph's state is as before, and the pad stays closed.
  pub push_frames_closed :
      (g : GIn) (fs : List Frame) (w : S)
      → g.closed ≡ true
      → (r : ℤ) × (push_frames g fs w ≡ ok (record g { rebase = r }, w))
  unfolding push_frames push_frame
  push_frames_closed g [] w h = (g.rebase, refl)
  push_frames_closed g (f ∷ fs) w h =
      let (r, e) = push_kept_closed g w (seek_frame u s g.rebase f) h in
      let (r', e') = push_frames_closed (record g { rebase = r }) fs w h in
      (r', ap (λ m. m >>= λ (x : GIn × S). push_frames x.0 fs x.1) e ∙ e')
