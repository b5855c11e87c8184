-- ===== src/Process/Setup/Ready.antt =====
-- src/process.c: the graph when its encoders are open.
use ffmpeg_wasi.Base.{
  ◌≡◌, refl, sym, ap, ◌∙◌, ◌≢◌, subst, ℕ, suc, ◌≤◌, false, List, [], ◌∷◌, Option, none, some, arith,
  length, if_elim, if_false, Pairwise, Pairwise-length, get_elem?,
}
use ffmpeg_wasi.Base.Int.{pos}
use ffmpeg_wasi.Base.Text.{Bytes}
use ffmpeg_wasi.Av.{
  MediaType, video, eq_type, Rational, Result, ok, err, ◌>>=◌, IfOk, IfOk-bind, IfOk-behind,
}
use ffmpeg_wasi.Process.Mux.{max_gout}
use ffmpeg_wasi.Process.Graph.{Encoder, GIn, GOut}
use ffmpeg_wasi.Process.Lanes.{Output}
use ffmpeg_wasi.Process.Spec.Options.{Dictionary}
use ffmpeg_wasi.Process.Setup.{InStream, Sink, Negotiated, OutPad, Filters}
use ffmpeg_wasi.Process.Setup.Sources.{max_gin, add_sources}
use ffmpeg_wasi.Process.Setup.Sinks.{add_sinks}
use ffmpeg_wasi.Process.Setup.Encoders.{
  set_or, configured, after_encoder, open_found, encoder_of, open_encoder, and_gout, open_encoders,
}
use ffmpeg_wasi.Process.Setup.Whole.{with_gin, wire}
use ffmpeg_wasi.Process.Setup.Wired.{IsSource, GInExtends, add_sources-GInExtends}
use ffmpeg_wasi.Process.Setup.Routed.{Takes, IsRouted, SinksExtend, add_sinks-SinksExtend}

module _ {C D S : Type 0} (av : Filters C D S) (dict : Dictionary D)
    (codec_opts : ℕ → MediaType → D × D) (best : ℕ → MediaType → Result ℕ)
    (inputs : List (List InStream)) (outs : List Output) where
  -- A graph output whose encoder and stream have the time base of its sink, if that has one, at the
  -- start of its timeline.
  abbrev pub IsTimed : GOut → Type 0
  IsTimed g =
      (g.ost.time_base ≡ g.enc.time_base)
      × (g.sink_tb.num ≢ 0 → g.enc.time_base ≡ g.sink_tb)
      × (g.enc.codec_type ≡ g.type)
      × (g.next_pts ≡ pos 0)
      × (g.done ≡ false)

  -- A graph output, to its pad.
  abbrev pub IsSink : OutPad → GOut → Type 0
  IsSink pad g = Takes av outs pad g.out_idx × (g.type ≡ pad.type) × IsTimed g

  set_or_lem : (r d : Rational) → r.num ≢ 0 → set_or r d ≡ r
  set_or_lem r d h = if_false d r (ground (arith, h))

  -- What the encoder of a kind is configured to.
  abbrev Fits : MediaType → Negotiated → Encoder → Type 0
  Fits type n enc = (n.time_base.num ≢ 0 → enc.time_base ≡ n.time_base) × (enc.codec_type ≡ type)

  configured-Fits :
      (type : MediaType) (n : Negotiated) → Fits type n (configured av dict codec_opts type n)
  unfolding configured
  configured-Fits type n =
      if_elim (Fits type n) (eq_type type video) _ _
        (λ e. (
          set_or_lem n.time_base (av.inv_q (set_or n.frame_rate (record { num = 25; den = 1 }))),
          refl,
        ))
        (λ e. (set_or_lem n.time_base (record { num = 1; den = n.sample_rate }), refl))

  -- What open_encoder makes of a sink.
  abbrev Opened : Sink → GOut × S → Type 0
  Opened k x = (x.0.out_idx ≡ k.out_idx) × (x.0.type ≡ k.type) × (k.next_pts ≡ pos 0 → IsTimed x.0)

  after_encoder-Opened :
      (i : ℕ) (k : Sink) (n : Negotiated) (enc : C) (r : Result (Unit {0}) × S)
      → IfOk (Opened k) (after_encoder av dict codec_opts i k n enc r)
  after_encoder-Opened i k n enc (err code, w) = tt
  after_encoder-Opened i k n enc (ok u, w) =
      let (base, type) = configured-Fits k.type n in (refl, refl, λ z. (refl, base, type, z, refl))

  open_encoder-Opened :
      (i : ℕ) (k : Sink) (w : S) → IfOk (Opened k) (open_encoder av dict codec_opts outs i k w)
  unfolding open_encoder
  open_encoder-Opened i k w =
      found (encoder_of av dict codec_opts k.type (get_elem? outs k.out_idx))
    where
      found :
          (c : Option C)
          → IfOk (Opened k) (open_found av dict codec_opts i k (av.negotiated i w) w c)
      found none = tt
      found (some enc) = after_encoder-Opened i k (av.negotiated i w) enc _

  -- The sinks' pads, as they are when their encoders are open.
  AllOpened : List OutPad → List GOut × S → Type 0
  AllOpened pads x = Pairwise IsSink pads x.0 × (length x.0 ≡ length pads)

  open_encoders-AllOpened :
      (i : ℕ) (pads : List OutPad) (ks : List Sink) (w : S)
      → Pairwise (IsRouted av outs) pads ks
      → IfOk (AllOpened pads) (open_encoders av dict codec_opts outs i ks w)
  unfolding open_encoders AllOpened
  open_encoders-AllOpened i [] [] w p = (tt, refl)
  open_encoders-AllOpened i [] (k ∷ ks) w p = absurd p
  open_encoders-AllOpened i (pad ∷ pads) [] w p = absurd p
  open_encoders-AllOpened i (pad ∷ pads) (k ∷ ks) w ((t, e, z), p) =
      IfOk-bind (Opened k) (AllOpened (pad ∷ pads)) (open_encoder av dict codec_opts outs i k w)
        (λ (x : GOut × S).
          and_gout av dict codec_opts x.0 (open_encoders av dict codec_opts outs (suc i) ks x.1))
        (open_encoder-Opened i k w)
        (λ x (o, f, m).
          and_gout-AllOpened x.0 (subst (Takes av outs pad) (sym o) t, f ∙ e, m z)
            (open_encoders av dict codec_opts outs (suc i) ks x.1)
            (open_encoders-AllOpened (suc i) pads ks x.1 p))
    where
      and_gout-AllOpened :
          (g : GOut)
          → IsSink pad g
          → (r : Result (List GOut × S)) → IfOk (AllOpened pads) r
          → IfOk (AllOpened (pad ∷ pads)) (and_gout av dict codec_opts g r)
      and_gout-AllOpened g s (err code) q = tt
      and_gout-AllOpened g s (ok (gs, w')) (q, l) = ((s, q), ap suc l)

  abbrev pub IsReady : List (Option Bytes) → List OutPad → List GIn × List GOut × S → Type 0
  IsReady pads out_pads (gin, gout, w) =
      Pairwise (IsSource av best inputs) pads gin
      × (length gin ≤ max_gin)
      × Pairwise IsSink out_pads gout
      × (length gout ≤ max_gout)

  with_gin-IsReady :
      (pads : List (Option Bytes)) (out_pads : List OutPad) (gin : List GIn)
      (r : Result (List GOut × S))
      → Pairwise (IsSource av best inputs) pads gin × (length gin ≤ max_gin)
      → length out_pads ≤ max_gout
      → IfOk (AllOpened out_pads) r
      → IfOk (IsReady pads out_pads) (with_gin av dict codec_opts best inputs outs gin r)
  unfolding AllOpened
  with_gin-IsReady pads out_pads gin (err code) (p, l) b q = tt
  with_gin-IsReady pads out_pads gin (ok (gout, w)) (p, l) b (q, e) = (p, l, q, omega (arith, e))

  -- A set-up that op_process accepts has wired every open pad of the graph, in order, 32 inputs and 16
  -- outputs at most. The name of an input's pad is a selector, of an existing stream, which the input
  -- reads; it is open, and declared with that stream's time base if it is a video. An output belongs to
  -- the output file that find_output_for_pad gives for its pad's name, which has a codec of its kind with
  -- an encoder; its encoder and its stream have the time base of its sink, if that has one, and its
  -- timeline starts at 0.
  pub wire-IsReady :
      (pads : List (Option Bytes)) (out_pads : List OutPad) (w : S)
      → IfOk (IsReady pads out_pads) (wire av dict codec_opts best inputs outs (pads, out_pads, w))
  unfolding wire
  wire-IsReady pads out_pads w =
      let P = IsReady pads out_pads in
      IfOk-bind (GInExtends av best inputs pads []) P (add_sources av best inputs pads ([], w))
        (λ (x : List GIn × S). add_sinks av outs out_pads ([], x.1) >>= after_sinks x.0)
        (add_sources-GInExtends av best inputs pads [] w (omega arith))
        (λ x (gin, e, p, l).
          IfOk-bind (SinksExtend av outs out_pads []) P (add_sinks av outs out_pads ([], x.1))
            (after_sinks x.0) (add_sinks-SinksExtend av outs out_pads [] x.1 (omega arith))
            (λ y (ks, f, q, m). IfOk-behind P (av.graph_config y.1) _ (λ w1.
              with_gin-IsReady pads out_pads x.0 (open_encoders av dict codec_opts outs 0 y.0 w1)
                (subst (Pairwise (IsSource av best inputs) pads) (sym e) p, l)
                (omega (arith, ap length f, Pairwise-length (IsRouted av outs) out_pads ks q, m))
                (open_encoders-AllOpened 0 out_pads y.0 w1
                  (subst (Pairwise (IsRouted av outs) out_pads) (sym f) q)))))
    where
      after_sinks : List GIn → List Sink × S → Result (List GIn × List GOut × S)
      after_sinks gin y = av.graph_config y.1 >>= λ (w1 : S).
          with_gin av dict codec_opts best inputs outs gin
            (open_encoders av dict codec_opts outs 0 y.0 w1)
