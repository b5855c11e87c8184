-- ===== src/Process/Graph/Rebase.antt =====
-- src/process.c: the frames of one pad, in the order in which they are decoded, under push_frame.
use ffmpeg_wasi.Base.{
  ltb, ◌≡◌, sym, ap, ◌∙◌, ◌⊎◌, inl, inr, Bool, true, false, not, ◌&&◌, ◌||◌, List, [], ◌∷◌, ◌++◌,
  Option, none, some, if◌then◌else◌, if_true, if_false, Bool-cases, arith, append-nil, append_assoc,
}
use ffmpeg_wasi.Base.Int.{ℤ, pos, ◌-ℤ◌, ltb_ℤ}
use ffmpeg_wasi.Av.{AvError, ok, ◌>>=◌}
use ffmpeg_wasi.Process.Timestamps.{nopts}
use ffmpeg_wasi.Process.Mux.{is_set, time_base_q}
use ffmpeg_wasi.Process.Graph.{Frame, GIn, Units}
use ffmpeg_wasi.Process.Graph.Push.{
  Seek, time_of, start_of, rebased, seek_frame, to_src_tb, push_into, push_kept, push_frame,
  push_frames, settle,
}

-- A graph that takes every frame and notes it.
abbrev pub take_all : Frame → List Frame → Option AvError × List Frame
take_all f fs = (none, fs ++ (f ∷ []))

module _ (u : Units) (s : Seek) where
  -- When a frame is shown: its best effort timestamp, or else its pts.
  abbrev pub shown_at : Frame → ℤ
  shown_at f = if is_set f.best_effort_timestamp then f.best_effort_timestamp else f.pts

  -- The position that was sought to, in the stream's time base.
  abbrev pub sought : ℤ
  sought = u.rescale_q s.seek_us time_base_q s.time_base

  abbrev pub is_windowed : Frame → Bool
  is_windowed f = is_set s.seek_us && is_set (shown_at f)

  -- A frame before the start that an accurate seek asks for.
  abbrev pub is_early : Frame → Bool
  is_early f = is_windowed f && (s.accurate && ltb_ℤ (shown_at f) sought)

  -- The first time that a decoded frame carries.
  abbrev pub first_time : List Frame → ℤ
  first_time [] = nopts
  first_time (f ∷ fs) = if is_set (shown_at f) then shown_at f else first_time fs

  -- Where the pad's timeline begins: at the start asked for, or at the frame that was landed on.
  abbrev pub origin_of : List Frame → ℤ
  origin_of fs = if s.accurate then sought else first_time fs

  -- Both time bases of the pad are known, and are not the same.
  abbrev pub converts : GIn → Bool
  converts g =
      (ltb 0 g.pkt_timebase.num && ltb 0 g.pkt_timebase.den)
      && (ltb 0 g.src_tb.num && ltb 0 g.src_tb.den)
      && u.differ g.pkt_timebase g.src_tb

  -- A time of the decoder's, in the time base of the buffersrc.
  abbrev pub in_src : GIn → ℤ → ℤ
  in_src g t = if converts g then u.rescale_q t g.pkt_timebase g.src_tb else t

  -- The pts that a frame reaches the graph with, before it is converted.
  abbrev pub counted_from : ℤ → Frame → ℤ
  counted_from base f = if is_windowed f && is_set f.pts then shown_at f -ℤ base else f.pts

  abbrev pub arrived : GIn → ℤ → Frame → Frame
  arrived g base f = record f {
    pts =
        if is_set (counted_from base f)
        then in_src g (counted_from base f)
        else counted_from base f;
    duration = if ltb_ℤ (pos 0) f.duration then in_src g f.duration else f.duration;
  }

  -- The frames that reach the graph, each taken by itself.
  abbrev pub clip : GIn → ℤ → List Frame → List Frame
  clip g base [] = []
  clip g base (f ∷ fs) = if is_early f then clip g base fs else arrived g base f ∷ clip g base fs

  to_src_tb-arrived :
      (g : GIn) (base : ℤ) (f : Frame)
      → to_src_tb u g (if is_windowed f then rebased base f else f) ≡ arrived g base f
  unfolding to_src_tb
  to_src_tb-arrived g base f = ground arith

  abbrev origin_from : ℤ → List Frame → ℤ
  origin_from r fs = if is_set r || not (is_set s.seek_us) then r else origin_of fs

  Step : ℤ → Frame → List Frame → Type 0
  Step r f fs =
      ((seek_frame u s r f ≡ none)
        × (is_early f ≡ true)
        × (origin_from r fs ≡ origin_from r (f ∷ fs)))
      ⊎ ((r' : ℤ) × (seek_frame u s r f
            ≡ some (r', if is_windowed f then rebased (origin_from r (f ∷ fs)) f else f))
          × (is_early f ≡ false)
          × (origin_from r' fs ≡ origin_from r (f ∷ fs)))

  seek_frame-Step : (r : ℤ) (f : Frame) (fs : List Frame) → Step r f fs
  unfolding Step seek_frame
  seek_frame-Step r f fs = elim (Bool-cases (is_windowed f)) [
    | inr n ↦ inr (r, ground (arith, n), ground (arith, n), ground (arith, n))
    | inl w ↦ elim (Bool-cases (s.accurate && ltb_ℤ (time_of f) (start_of u s))) [
      | inl e ↦ inl (ground (arith, w, e), ground (arith, w, e), ground (arith, w, e))
      | inr e ↦
          inr (
            origin_from r (f ∷ fs),
            ground (arith, w, e),
            ground (arith, w, e),
            ground (arith, w, e),
          )
    ]
  ]

  push_open :
      (g : GIn) (f : Frame) (w : List Frame)
      → g.closed ≡ false
      → push_into u take_all s g f w ≡ ok (g, w ++ (to_src_tb u g f ∷ []))
  unfolding push_into settle
  push_open g f w h = if_false _ _ h

  push_frames-clip_from :
      (g : GIn) (fs : List Frame) (w : List Frame)
      → g.closed ≡ false
      → (r : ℤ) × (push_frames u take_all s g fs w
          ≡ ok (record g { rebase = r }, w ++ clip g (origin_from g.rebase fs) fs))
  unfolding push_frames push_frame push_kept to_src_tb Step
  push_frames-clip_from g [] w h = (g.rebase, ap (λ x. ok (g, x)) (sym (append-nil w)))
  push_frames-clip_from g (f ∷ fs) w h = elim (seek_frame-Step g.rebase f fs) [
    | inl (e, i, o) ↦
        let (r, p) = push_frames-clip_from g fs w h in
        (
          r,
          ap
                (λ x. push_kept u take_all s g w x >>= λ (y : GIn × List Frame).
                  push_frames u take_all s y.0 fs y.1)
                e
              ∙ p
              ∙ ap (λ x. ok (record g { rebase = r }, w ++ x))
                  (ap (λ b. clip g b fs) o ∙ sym (if_true _ _ i)),
        )
    | inr (r', e, i, o) ↦
        let g' : GIn = record g { rebase = r' } in
        let f' : Frame = if is_windowed f then rebased (origin_from g.rebase (f ∷ fs)) f else f in
        let w' : List Frame = w ++ (to_src_tb u g f' ∷ []) in
        let (r, p) = push_frames-clip_from g' fs w' h in
        (
          r,
          ap
                (λ x. push_kept u take_all s g w x >>= λ (y : GIn × List Frame).
                  push_frames u take_all s y.0 fs y.1)
                e
              ∙ ap (λ x. x >>= λ (y : GIn × List Frame). push_frames u take_all s y.0 fs y.1)
                  (push_open g' f' w h)
              ∙ p
              ∙ ap (λ x. ok (record g { rebase = r }, x))
                  (append_assoc w (to_src_tb u g f' ∷ []) _
                    ∙ ap (λ x. w ++ x)
                        (ap (λ x. x ∷ clip g (origin_from r' fs) fs)
                            (to_src_tb-arrived g (origin_from g.rebase (f ∷ fs)) f)
                          ∙ ap (λ b. arrived g (origin_from g.rebase (f ∷ fs)) f ∷ clip g b fs) o
                          ∙ sym (if_false _ _ i))),
        )
  ]

  -- Under a seek, and from a pad that is open and has no base yet, the frames that reach the graph are
  -- those that the decoder hands out, in order, without those that an accurate seek asks to discard,
  -- each at the time at which it is shown, which is its best effort timestamp or else its pts, counted
  -- from one origin; and this time and the duration are brought to the buffersrc's time base, where it is
  -- known and another than the decoder's. The origin is the start asked for if the seek is accurate, and
  -- the first time that a frame carries if it is not. A frame without a pts stays without one.
  -- The graph is one that takes every frame.
  pub push_frames-clip :
      (g : GIn) (fs : List Frame)
      → is_set s.seek_us ≡ true
      → g.rebase ≡ nopts
      → g.closed ≡ false
      → (r : ℤ) × (push_frames u take_all s g fs []
          ≡ ok (record g { rebase = r }, clip g (origin_of fs) fs))
  push_frames-clip g fs k n h =
      let (r, e) = push_frames-clip_from g fs [] h in
      (r, e ∙ ap (λ b. ok (record g { rebase = r }, clip g b fs)) (fresh k n))
    where
      fresh : is_set s.seek_us ≡ true → g.rebase ≡ nopts → origin_from g.rebase fs ≡ origin_of fs
      fresh k n = ground (arith, k, n)
