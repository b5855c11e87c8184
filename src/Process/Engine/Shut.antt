-- ===== src/Process/Engine/Shut.antt =====
-- src/process.c: when the demux loop has ended, the graph knows that no frame follows.
use ffmpeg_wasi.Base.{
  ℕ, zero, suc, length, ◌≡◌, refl, sym, ap, ◌∙◌, inl, inr, Bool, true, false, ◌&&◌, List, [], ◌∷◌,
  Option, none, some, ◌==◌, if_elim, arith, all, subst, replicate, length-replicate,
}
use ffmpeg_wasi.Base.Int.{pos, ◌==ℤ◌}
use ffmpeg_wasi.Av.{AvError, Result, ok, err, ◌>>=◌, IfOk, IfOk-bind, IfOk-weaken}
use ffmpeg_wasi.Process.Mux.{Packet}
use ffmpeg_wasi.Process.Graph.{GIn, GOut}
use ffmpeg_wasi.Process.Graph.Feed.{and_pads, feed_pads}
use ffmpeg_wasi.Process.Graph.Closing.{Kept, Flushed, flush_pads-Flushed, decode_pad-Kept}
use ffmpeg_wasi.Process.Copying.{Offsets}
use ffmpeg_wasi.Process.Run.{is_late, next_packet, cut_off, end_input, unless_failed, route, demux}
use ffmpeg_wasi.Process.Run.Machine.{
  Step, packet, close, later, Steps, Steps-length, rest, step, IfDone, Through, demux-Steps,
  IfDone-weaken,
}
use ffmpeg_wasi.Process.Run.Ends.{live-replicate}
use ffmpeg_wasi.Process.Engine.{
  Libav, Setting, Ctx, spent, with_lib, with_sinks, with_pads, with_offsets, pull_ctx, feed,
  copy_lane, sub_lane, flush_decoders, job_of,
}
use ffmpeg_wasi.Process.Engine.Pads.{
  ShutFor, ShutAll, ShutFrom, Moved, Kept-refl, Moved-refl, Moved-ShutAll, Flushed-Moved,
  Moved-trans,
}

module _ {S : Type 0} (av : Libav S) (job : Setting) where
  abbrev Onward : Ctx S → Ctx S → Type 0
  Onward c d = Moved c.gin d.gin

  and_pads-Moved :
      (g h : GIn) (gs : List GIn) (m : Result (List GIn × S))
      → Kept g h
      → IfOk (λ (x : List GIn × S). Moved gs x.0) m
      → IfOk (λ (x : List GIn × S). Moved (g ∷ gs) x.0) (and_pads h m)
  and_pads-Moved g h gs (err code) k n = tt
  and_pads-Moved g h gs (ok (hs, w)) k n = (k, n)

  feed_pads-Moved :
      (in_idx : ℕ) (pkt : Packet) (i : ℕ) (gs : List GIn) (w : S)
      → IfOk
          (λ (x : List GIn × S). Moved gs x.0)
          (feed_pads av.units av.decode av.add job.seek_of in_idx pkt i gs w)
  unfolding feed_pads
  feed_pads-Moved in_idx pkt i [] w = tt
  feed_pads-Moved in_idx pkt i (g ∷ gs) w =
      if_elim (IfOk (λ (x : List GIn × S). Moved (g ∷ gs) x.0))
        (g.in_idx == in_idx && pos g.st_idx ==ℤ pkt.stream_index) _ _
        (λ e.
          IfOk-bind (λ (x : GIn × S). Kept g x.0) (λ (x : List GIn × S). Moved (g ∷ gs) x.0) _ _
            (decode_pad-Kept av.units av.decode av.add job.seek_of i (some pkt) g w)
            (λ x k. and_pads-Moved g x.0 gs _ k (feed_pads-Moved in_idx pkt (suc i) gs x.1)))
        (λ e. and_pads-Moved g g gs _ (Kept-refl g) (feed_pads-Moved in_idx pkt (suc i) gs w))

  with_pads-IfOk :
      (P : List GIn → Type 0) (c : Ctx S) (m : Result (List GIn × S))
      → IfOk (λ (x : List GIn × S). P x.0) m
      → IfOk (λ (d : Ctx S). P d.gin) (with_pads av job c m)
  with_pads-IfOk P c (err code) p = tt
  with_pads-IfOk P c (ok (gs, w)) p = p

  with_sinks-IfOk :
      (P : List GIn → Type 0) (c : Ctx S) (m : Result (List GOut × S))
      → P c.gin
      → IfOk (λ (d : Ctx S). P d.gin) (with_sinks av job c m)
  with_sinks-IfOk P c (err code) p = tt
  with_sinks-IfOk P c (ok x) p = p

  with_lib-IfOk :
      (P : List GIn → Type 0) (c : Ctx S) (m : Result S)
      → P c.gin
      → IfOk (λ (d : Ctx S). P d.gin) (with_lib av job c m)
  with_lib-IfOk P c (err code) p = tt
  with_lib-IfOk P c (ok w) p = p

  with_offsets-IfOk :
      (P : List GIn → Type 0) (c : Ctx S) (m : Result (Offsets × S))
      → P c.gin
      → IfOk (λ (d : Ctx S). P d.gin) (with_offsets av job c m)
  with_offsets-IfOk P c (err code) p = tt
  with_offsets-IfOk P c (ok x) p = p

  route-Moved : (i : ℕ) (pkt : Packet) (c : Ctx S) → IfOk (Onward c) (route (job_of av job) i pkt c)
  unfolding route job_of feed pull_ctx copy_lane sub_lane
  route-Moved i pkt c =
      IfOk-bind (Onward c) (Onward c) _ _
        (IfOk-bind (Onward c) (Onward c) _ _
          (IfOk-bind (Onward c) (Onward c) _ _
            (with_pads-IfOk (Moved c.gin) c _ (feed_pads-Moved i pkt 0 c.gin c.lib))
            (λ d m. with_sinks-IfOk (Moved c.gin) d _ m))
          (λ d m. with_offsets-IfOk (Moved c.gin) d _ m))
        (λ d m. with_lib-IfOk (Moved c.gin) d _ m)

  abbrev Closing : ℕ → List GIn → List GIn → Type 0
  Closing i gs hs = Moved gs hs × ShutFor i hs

  flush_decoders-Shut :
      (i : ℕ) (c : Ctx S)
      → IfOk (λ (d : Ctx S). Closing i c.gin d.gin) (flush_decoders av job i c >>= pull_ctx av job)
  unfolding flush_decoders pull_ctx
  flush_decoders-Shut i c =
      IfOk-bind (λ (d : Ctx S). Closing i c.gin d.gin) (λ (d : Ctx S). Closing i c.gin d.gin) _ _
        (IfOk-bind (λ (d : Ctx S). Closing i c.gin d.gin) (λ (d : Ctx S). Closing i c.gin d.gin) _ _
          (with_pads-IfOk (Closing i c.gin) c _ (
            IfOk-weaken (λ (x : List GIn × S). Flushed i c.gin x.0)
              (λ (x : List GIn × S). Closing i c.gin x.0) _ (λ x f. Flushed-Moved i c.gin x.0 f)
              (flush_pads-Flushed av.units av.decode av.add job.seek_of i 0 c.gin c.lib)))
          (λ d m. with_lib-IfOk (Closing i c.gin) d _ m))
        (λ d m. with_sinks-IfOk (Closing i c.gin) d _ m)

  end_input-Shut :
      (i : ℕ) (b : Bool) (c : Ctx S)
      → IfOk (λ (d : Ctx S). Closing i c.gin d.gin) (end_input (job_of av job) i b c)
  unfolding end_input job_of flush_decoders pull_ctx
  end_input-Shut i b c =
      if_elim (IfOk (λ (d : Ctx S). Closing i c.gin d.gin)) b _ _ (λ e. flush_decoders-Shut i c)
        (λ e. unless_failed-Shut (av.io_error i c.lib))
    where
      unless_failed-Shut :
          (o : Option AvError)
          → IfOk
              (λ (d : Ctx S). Closing i c.gin d.gin)
              (unless_failed (job_of av job) o (flush_decoders av job i c >>= pull_ctx av job))
      unless_failed-Shut none = flush_decoders-Shut i c
      unless_failed-Shut (some code) = tt

  cut_off-gin : (i : ℕ) (x : Result Packet × Ctx S) → (cut_off (job_of av job) i x).1.gin ≡ x.1.gin
  cut_off-gin i (err code, c) = refl
  cut_off-gin i (ok pkt, c) =
      if_elim (λ (y : Result Packet × Ctx S). y.1.gin ≡ c.gin) (is_late (job_of av job) i pkt) _ _
        (λ e. refl) (λ e. refl)

  next_packet-gin : (i : ℕ) (c : Ctx S) → (next_packet (job_of av job) i c).1.gin ≡ c.gin
  unfolding next_packet job_of
  next_packet-gin i c =
      if_elim (λ (y : Result Packet × Ctx S). y.1.gin ≡ c.gin) (spent av job i c) _ _ (λ e. refl)
        (λ e. cut_off-gin i _)

  after : (P : Ctx S → Type 0) (m : Result (Ctx S)) (d : Ctx S) → m ≡ ok d → IfOk P m → P d
  after P m d e p = subst (IfOk P) e p

  read_gin :
      (i : ℕ) (c c1 : Ctx S) (r : Result Packet)
      → next_packet (job_of av job) i c ≡ (r, c1)
      → c1.gin ≡ c.gin
  read_gin i c c1 r e = sym (ap (λ (x : Result Packet × Ctx S). x.1.gin) e) ∙ next_packet-gin i c

  abbrev Shuts : ℕ → List Bool → Ctx S → List Bool → Ctx S → Type 0
  Shuts i es c es' d = Moved c.gin d.gin × (ShutAll i es c.gin → ShutAll i es' d.gin)

  Step-Shuts :
      (i : ℕ) (es es' : List Bool) (c d : Ctx S)
      → Step (job_of av job) i es c es' d
      → Shuts i es c es' d
  Step-Shuts i es es' c d (packet _ fs _ c1 _ pkt p q) =
      let m : Moved c.gin d.gin =
        subst (λ gs. Moved gs d.gin) (read_gin i c c1 (ok pkt) p)
          (after (Onward c1) _ d q (route-Moved i pkt c1)) in
      (m, λ s. Moved-ShutAll i (false ∷ fs) c.gin d.gin m s)
  Step-Shuts i es es' c d (close _ fs _ c1 _ code k p q) =
      let (m, s) : Closing i c.gin d.gin =
        subst (λ gs. Closing i gs d.gin) (read_gin i c c1 (err code) p)
          (after (λ (x : Ctx S). Closing i c1.gin x.gin) _ d q
            (end_input-Shut i ((job_of av job).spent i c) c1)) in
      (m, λ t. (inr s, Moved-ShutAll (suc i) fs c.gin d.gin m t.1))
  Step-Shuts i es es' c d (later _ b fs gs _ _ p) =
      let (m, f) = Step-Shuts (suc i) fs gs c d p in
      (m, λ t. ((Moved-ShutAll i (b ∷ []) c.gin d.gin m (t.0, tt)).0, f t.1))

  Steps-Shuts :
      (i : ℕ) (es es' : List Bool) (c d : Ctx S)
      → Steps (job_of av job) i es c es' d
      → Shuts i es c es' d
  Steps-Shuts i es es' c d (rest _ _ _) = (Moved-refl c.gin, λ t. t)
  Steps-Shuts i es es' c d (step _ _ fs _ _ v _ s p) =
      let (m, f) = Step-Shuts i es fs c v s in
      let (n, h) = Steps-Shuts i fs es' v d p in (Moved-trans c.gin v.gin d.gin m n, λ t. h (f t))

  none_shut : (i n : ℕ) (gs : List GIn) → ShutAll i (replicate n false) gs
  none_shut i zero gs = tt
  none_shut i (suc n) gs = (inl refl, none_shut (suc i) n gs)

  all_shut :
      (i : ℕ) (es : List Bool) (gs : List GIn)
      → all (λ b. b) es ≡ true
      → ShutAll i es gs
      → ShutFrom i (length es) gs
  all_shut i [] gs a s = tt
  all_shut i (true ∷ es) gs a (inr f, s) = (f, all_shut (suc i) es gs a s)
  all_shut i (true ∷ es) gs a (inl e, s) = ground (arith, e)
  all_shut i (false ∷ es) gs a s = ground (arith, a)

  -- When the demux loop of a job with `n_in` inputs has ended without an error, no pad of the graph
  -- that one of them feeds is still open.
  pub demux-ShutFrom :
      (fuel n_in : ℕ) (c : Ctx S)
      → IfDone
          (job_of av job)
          (λ (x : List Bool × ℕ × Ctx S). ShutFrom 0 n_in x.2.gin)
          (demux (job_of av job) fuel (replicate n_in false) n_in c)
  demux-ShutFrom fuel n_in c =
      IfDone-weaken (job_of av job) (Through (job_of av job) (replicate n_in false) c)
        (λ (x : List Bool × ℕ × Ctx S). ShutFrom 0 n_in x.2.gin) _
        (λ x t.
          subst (λ n. ShutFrom 0 n x.2.gin)
            (Steps-length (job_of av job) 0 (replicate n_in false) x.0 c x.2 t.0
              ∙ length-replicate n_in false)
            (all_shut 0 x.0 x.2.gin t.2
              ((Steps-Shuts 0 (replicate n_in false) x.0 c x.2 t.0).1 (none_shut 0 n_in c.gin))))
        (demux-Steps (job_of av job) fuel (replicate n_in false) n_in c
          (live-replicate (job_of av job) (λ d. 0) n_in))
