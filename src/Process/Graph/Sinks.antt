-- ===== src/Process/Graph/Sinks.antt =====
-- src/process.c: pull_sinks, which takes the frames that the graph has ready and encodes them.
-- `get` is av_buffersink_get_frame on a sink, and `drop_queued` the loop that empties a finished one
-- with AV_BUFFERSINK_FLAG_NO_REQUEST. A filter can go on for ever, so the loop over a sink's frames
-- is on fuel, `none` when it runs out.
use ffmpeg_wasi.Base.{
  ℕ, zero, suc, Bool, true, not, ◌&&◌, List, [], ◌∷◌, Option, none, some, ltb, if◌then◌else◌, all,
  length,
}
use mathlib.Core.Option
use ffmpeg_wasi.Base.Int.{ℤ, pos, leb_ℤ, ◌==ℤ◌, int64_max}
use ffmpeg_wasi.Av.{is_eof, is_eagain, audio, eq_type, Rational, Result, ok, err}
use ffmpeg_wasi.Process.Timestamps.{ts_add}
use ffmpeg_wasi.Process.Mux.{is_set, time_base_q}
use ffmpeg_wasi.Process.Window.{Window, job_seek_offset_us, out_cutoff_us}
use ffmpeg_wasi.Process.Graph.{Frame, GOut, Units}

-- How long a frame of audio is, in the sink's time base.
abbrev pub samples_of : Units → GOut → Frame → ℤ
samples_of u g f =
    if ltb 0 g.sink_rate
    then u.rescale_q f.nb_samples (record { num = 1; den = g.sink_rate }) g.sink_tb
    else f.nb_samples

-- The sink and the frame after the continuation of an audio timeline.
unfoldable pub continue_timeline : Units → GOut → Frame → GOut × Frame
continue_timeline u g f =
    if eq_type g.type audio
    then (let pts' = if is_set f.pts then f.pts else g.next_pts in
        (record g { next_pts = ts_add pts' (samples_of u g f) }, record f { pts = pts' }))
    else (g, f)

-- The offset from the sink's timeline to the output's, and where a frame lies on the latter.
abbrev pub sink_offset : List ℤ → Window → ℤ
sink_offset seeks out = if out.copy_ts then job_seek_offset_us seeks else pos 0

abbrev pub time_us : Units → List ℤ → Window → GOut → Frame → ℤ
time_us u seeks out g f = ts_add (u.rescale_q f.pts g.sink_tb time_base_q) (sink_offset seeks out)

-- Whether a frame lies past the window of the sink's output.
unfoldable pub is_beyond : Units → List ℤ → Window → GOut → Frame → Bool
is_beyond u seeks out g f =
    let cutoff = out_cutoff_us seeks out in
    not (cutoff ==ℤ int64_max) && (is_set f.pts && leb_ℤ cutoff (time_us u seeks out g f))

abbrev pub finished : GOut → GOut
finished g = record g { done = true }

-- What one turn of the loop over a sink's frames comes to.
pub data Turn (S : Type 0) : Type 0 where
  leave : Result (GOut × S) → Turn S
  again : GOut → S → Turn S

module _ {S : Type 0} (u : Units) (seeks : List ℤ) (window_of : ℕ → Window)
    (get : ℕ → S → Result Frame × S) (drop_queued : ℕ → S → S) (collect : Rational → Frame → S → S)
    (encode : GOut → Option Frame → S → Result S) where
  abbrev pub encoded : GOut → Result S → Turn S
  encoded g (err code) = leave (err code)
  encoded g (ok w) = again g w

  abbrev pub use_frame : GOut × Frame → S → Turn S
  use_frame (g, f) w =
      if is_beyond u seeks (window_of g.out_idx) g f
      then leave (ok (finished g, w))
      else encoded g (encode g (some f) (collect g.sink_tb f w))

  -- What is done with one answer of the sink.
  unfoldable pub take_frame : GOut → Result Frame × S → Turn S
  take_frame g (err code, w) =
      if is_eof code
      then leave (ok (finished g, w))
      else if is_eagain code
      then leave (ok (g, w))
      else leave (err code)
  take_frame g (ok f, w) = use_frame (continue_timeline u g f) w

  abbrev pub go_on : (GOut → S → Option (Result (GOut × S))) → Turn S → Option (Result (GOut × S))
  go_on k (leave r) = some r
  go_on k (again g w) = k g w

  -- The loop over the frames of sink `i`.
  unfoldable pub pull_sink : ℕ → ℕ → GOut → S → Option (Result (GOut × S))
  pull_sink zero i g w = none
  pull_sink (suc n) i g w = go_on (pull_sink n i) (take_frame g (get i w))

  -- One sink: a finished one is emptied, and asked for nothing.
  unfoldable pub visit : ℕ → ℕ → GOut → S → Option (Result (GOut × S))
  visit n i g w = if g.done then some (ok (g, drop_queued i w)) else pull_sink n i g w

  abbrev pub and_sink : GOut → Result (List GOut × S) → Result (List GOut × S)
  and_sink g (err code) = err code
  and_sink g (ok (gs, w)) = ok (g ∷ gs, w)

  abbrev pub and_then :
      (S → Option (Result (List GOut × S)))
      → Option (Result (GOut × S))
      → Option (Result (List GOut × S))
  and_then k none = none
  and_then k (some (err code)) = some (err code)
  and_then k (some (ok (g, w))) = Option.map (and_sink g) (k w)

  -- The sinks from number `i` on.
  unfoldable pub pull_all : ℕ → ℕ → List GOut → S → Option (Result (List GOut × S))
  pull_all n i [] w = some (ok ([], w))
  pull_all n i (g ∷ gs) w = and_then (pull_all n (suc i) gs) (visit n i g w)

  unfoldable pub pull_sinks : ℕ → List GOut → S → Option (Result (List GOut × S))
  pull_sinks n gout w =
      if ltb 0 (length gout) && all (λ (g : GOut). g.done) gout
      then some (ok (gout, w))
      else pull_all n 0 gout w
