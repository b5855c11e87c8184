-- ===== src/Process/Graph/Bounded.antt =====
-- src/process.c: pull_sinks comes to an end on a graph that never does, if every output has a window.
use ffmpeg_wasi.Base.{
  ℕ, zero, suc, ◌-◌, ◌<◌, ◌≤◌, leb, ◌≡◌, refl, ap, ◌∙◌, ◌⊎◌, inl, inr, true, false, ◌&&◌, List, [],
  ◌∷◌, Option, none, some, if_true, Bool-cases, if_elim, All, arith, all, length, ltb,
}
use mathlib.Core.Option
use ffmpeg_wasi.Base.Int.{ℤ, pos, ◌==ℤ◌, ◌≤ℤ◌, int64_max, ≤ℤ_trans}
use ffmpeg_wasi.Av.{AvError, is_eof, is_eagain, audio, eq_type, Rational, Result, ok, err}
use ffmpeg_wasi.Process.Timestamps.{ts_add}
use ffmpeg_wasi.Process.Mux.{is_set, time_base_q}
use ffmpeg_wasi.Process.Window.{Window, out_cutoff_us}
use ffmpeg_wasi.Process.Graph.{Frame, GOut, Units}
use ffmpeg_wasi.Process.Graph.Sinks.{
  continue_timeline, sink_offset, is_beyond, Turn, leave, again, take_frame, go_on, and_then,
  pull_sink, visit, pull_all, pull_sinks, use_frame, encoded, and_sink,
}

module _ {S : Type 0} (u : Units) (seeks : List ℤ) (window_of : ℕ → Window)
    (get : ℕ → S → Result Frame × S) (drop_queued : ℕ → S → S) (collect : Rational → Frame → S → S)
    (encode : GOut → Option Frame → S → Result S) (age : ℕ → S → ℕ) where
  -- Sink `i`, with time base `tb` and output `o`, moves on: each of its frames has a time, at least
  -- the sink's age in microseconds of the output, and raises the age, which encoding does not lower.
  abbrev pub Advances : ℕ → Rational → ℕ → Type 0
  Advances i tb o =
      ((w w' : S) (f : Frame)
        → get i w ≡ (ok f, w')
        → (is_set f.pts ≡ true)
          × (age i w < age i w')
          × (pos (age i w)
              ≤ℤ ts_add (u.rescale_q f.pts tb time_base_q) (sink_offset seeks (window_of o))))
      × ((h : GOut) (w w' : S) (f : Frame)
          → encode h (some f) (collect h.sink_tb f w) ≡ ok w'
          → age i w ≤ age i w')

  -- The window of an output ends, at most `c` microseconds in.
  abbrev pub EndsBy : ℕ → ℕ → Type 0
  EndsBy c o =
      (d : ℕ) × (out_cutoff_us seeks (window_of o) ≡ pos d)
      × (d ≤ c)
      × ((pos d ==ℤ int64_max) ≡ false)

  abbrev turn : GOut → Result Frame × S → Turn S
  turn = take_frame u seeks window_of get drop_queued collect encode

  abbrev pull : ℕ → ℕ → GOut → S → Option (Result (GOut × S))
  pull = pull_sink u seeks window_of get drop_queued collect encode

  -- A sink that only its `next_pts` tells from one with these, and a frame with the same time.
  abbrev Alike : Rational → ℕ → GOut → Type 0
  Alike tb o h = (h.sink_tb ≡ tb) × (h.out_idx ≡ o)

  Moves : Rational → ℕ → ℤ → GOut × Frame → Type 0
  Moves tb o t (h, f) = (f.pts ≡ t) × Alike tb o h

  continue_timeline-pts :
      (tb : Rational) (o : ℕ) (g : GOut) (f : Frame)
      → Alike tb o g
      → is_set f.pts ≡ true
      → Moves tb o f.pts (continue_timeline u g f)
  unfolding continue_timeline Moves
  continue_timeline-pts tb o g f a h =
      if_elim (λ x. Moves tb o f.pts x) (eq_type g.type audio) _ _ (λ e. (if_true _ _ h, a))
        (λ e. (refl, a))

  is_beyond-past :
      (d : ℕ) (tb : Rational) (o : ℕ) (t : ℤ) (g : GOut) (f : Frame)
      → out_cutoff_us seeks (window_of o) ≡ pos d
      → (pos d ==ℤ int64_max) ≡ false
      → is_set t ≡ true
      → pos d ≤ℤ ts_add (u.rescale_q t tb time_base_q) (sink_offset seeks (window_of o))
      → f.pts ≡ t
      → Alike tb o g
      → is_beyond u seeks (window_of g.out_idx) g f ≡ true
  unfolding is_beyond
  is_beyond-past d tb o t g f e m s l p (q, r) = rw (p, q, r, e) (ground (arith, m, s, l))

  err_leaves :
      (g : GOut) (code : AvError) (w : S)
      → (r : Result (GOut × S)) × (turn g (err code, w) ≡ leave r)
  unfolding take_frame
  err_leaves g code w =
      if_elim (λ t. (r : Result (GOut × S)) × (t ≡ leave r)) (is_eof code) _ _ (λ e. (_, refl))
        (λ e.
          if_elim (λ t. (r : Result (GOut × S)) × (t ≡ leave r)) (is_eagain code) _ _
            (λ k. (_, refl)) (λ k. (_, refl)))

  -- A turn of the loop at a sink of age `a`: it leaves, or the sink has grown before the window's end.
  abbrev Grown : ℕ → ℕ → Rational → ℕ → ℕ → Turn S → Type 0
  Grown d i tb o a t =
      ((r : Result (GOut × S)) × (t ≡ leave r))
      ⊎ ((h : GOut) × (w : S) × (t ≡ again h w) × Alike tb o h × (a < d) × (a < age i w))

  encoded-Grown :
      (d i : ℕ) (tb : Rational) (o a : ℕ) (h : GOut) (m : Result S)
      → Alike tb o h
      → a < d
      → ((w : S) → m ≡ ok w → a < age i w)
      → Grown d i tb o a (encoded u seeks window_of get drop_queued collect encode h m)
  encoded-Grown d i tb o a h (err code) k l q = inl (err code, refl)
  encoded-Grown d i tb o a h (ok w) k l q = inr (h, w, refl, k, l, q w refl)

  use_frame-Grown :
      (d i : ℕ) (tb : Rational) (o : ℕ) (w w' : S) (f : Frame) (x : GOut × Frame)
      → Advances i tb o
      → out_cutoff_us seeks (window_of o) ≡ pos d
      → (pos d ==ℤ int64_max) ≡ false
      → get i w ≡ (ok f, w')
      → Moves tb o f.pts x
      → Grown d i tb o (age i w) (use_frame u seeks window_of get drop_queued collect encode x w')
  unfolding Moves
  use_frame-Grown d i tb o w w' f (h, f') (grow, keep) e m q (p, k) =
      let (s, l, t) = grow w w' f q in
      elim (Bool-cases (leb d (age i w))) [
        | inl c ↦ inl (
          _,
          if_true _ _ (
              is_beyond-past d tb o f.pts h f' e m s
                (≤ℤ_trans (pos d) (pos (age i w)) _ (ground (arith, c)) t) p k),
        )
        | inr c ↦
            if_elim (λ z. Grown d i tb o (age i w) z) (is_beyond u seeks (window_of h.out_idx) h f')
              _ _ (λ b. inl (_, refl))
              (λ b.
                encoded-Grown d i tb o (age i w) h _ k (ground (arith, c))
                  (λ v ev. omega (arith, l, keep h w' v f' ev)))
      ]

  abbrev Ends {κ} : {A : Type κ} → Option A → Type κ
  Ends {A = A} m = (r : A) × (m ≡ some r)

  abbrev on : ℕ → ℕ → Turn S → Option (Result (GOut × S))
  on n i = go_on u seeks window_of get drop_queued collect encode (pull n i)

  turn-Grown :
      (d i : ℕ) (tb : Rational) (o : ℕ) (g : GOut) (w : S) (x : Result Frame × S)
      → Advances i tb o
      → out_cutoff_us seeks (window_of o) ≡ pos d
      → (pos d ==ℤ int64_max) ≡ false
      → Alike tb o g
      → get i w ≡ x
      → Grown d i tb o (age i w) (turn g x)
  unfolding take_frame is_beyond
  turn-Grown d i tb o g w (err code, w') ad e m k q = inl (err_leaves g code w')
  turn-Grown d i tb o g w (ok f, w') ad e m k q =
      use_frame-Grown d i tb o w w' f (continue_timeline u g f) ad e m q
        (continue_timeline-pts tb o g f k (ad.0 w w' f q).0)

  pull_sink-Ends :
      (n d i : ℕ) (tb : Rational) (o : ℕ) (g : GOut) (w : S)
      → Advances i tb o
      → out_cutoff_us seeks (window_of o) ≡ pos d
      → (pos d ==ℤ int64_max) ≡ false
      → Alike tb o g
      → d - age i w < n
      → Ends (pull n i g w)
  unfolding pull_sink
  pull_sink-Ends zero d i tb o g w ad e m k l = ground (arith, l)
  pull_sink-Ends (suc n) d i tb o g w ad e m k l =
      elim (turn-Grown d i tb o g w (get i w) ad e m k refl) [
        | inl (r, q) ↦ (r, ap (on n i) q)
        | inr (h, v, q, k', b, c) ↦
            let (r, p) = pull_sink-Ends n d i tb o h v ad e m k' (omega (arith, b, c, l)) in
            (r, ap (on n i) q ∙ p)
      ]

  -- The sinks from number `i` on, each with its time base and its output.
  abbrev pub AllAdvance : ℕ → List GOut → Type 0
  AllAdvance i [] = Unit
  AllAdvance i (g ∷ gs) = Advances i g.sink_tb g.out_idx × AllAdvance (suc i) gs

  and_then-Ends :
      (k : S → Option (Result (List GOut × S))) (m : Option (Result (GOut × S)))
      → ((v : S) → Ends (k v))
      → Ends m
      → Ends (and_then u seeks window_of get drop_queued collect encode k m)
  and_then-Ends k none h (r, e) = ground (arith, e)
  and_then-Ends k (some (err code)) h e = (err code, refl)
  and_then-Ends k (some (ok (g, v))) h e =
      let (r, q) = h v in
      (_, ap (Option.map (and_sink u seeks window_of get drop_queued collect encode g)) q)

  pull_all-Ends :
      (c i : ℕ) (gout : List GOut) (w : S)
      → AllAdvance i gout
      → All (λ (g : GOut). EndsBy c g.out_idx) gout
      → Ends (pull_all u seeks window_of get drop_queued collect encode (suc c) i gout w)
  unfolding pull_all visit
  pull_all-Ends c i [] w ad e = (_, refl)
  pull_all-Ends c i (g ∷ gs) w (a, ad) ((d, e, l, m), es) =
      and_then-Ends _ _ (λ v. pull_all-Ends c (suc i) gs v ad es)
        (if_elim Ends g.done _ _ (λ b. (_, refl))
          (λ b.
            pull_sink-Ends (suc c) d i g.sink_tb g.out_idx g w a e m (refl, refl)
              (omega (arith, l))))

  -- If the window of every output ends, at most `c` microseconds in, and every sink moves on, then
  -- pull_sinks returns with fuel for `c + 1` frames of each sink, though the graph may have frames for
  -- ever. A sink moves on if each of its frames has a timestamp, lies no earlier in the output than the
  -- sink's age in microseconds, and raises that age, which encoding a frame does not lower.
  pub pull_sinks_ends :
      (c : ℕ) (gout : List GOut) (w : S)
      → AllAdvance 0 gout
      → All (λ (g : GOut). EndsBy c g.out_idx) gout
      → (r : Result (List GOut × S)) × (pull_sinks u seeks window_of get drop_queued collect encode
            (suc c)
            gout
            w
          ≡ some r)
  unfolding pull_sinks
  pull_sinks_ends c gout w ad e =
      if_elim Ends (ltb 0 (length gout) && all (λ (g : GOut). g.done) gout) _ _ (λ b. (_, refl))
        (λ b. pull_all-Ends c 0 gout w ad e)
