-- ===== src/Process/Run/Ends.antt =====
-- src/process.c: the demux loop comes to an end, and what a job comes to then.
use ffmpeg_wasi.Base.{
  ℕ, zero, suc, ◌+◌, ◌≤◌, ◌<◌, ◌≡◌, refl, sym, ap, ◌∙◌, ◌⊎◌, inl, inr, Bool, true, false, List, [],
  ◌∷◌, Option, some, ltb, if_elim, arith, replicate,
}
use mathlib.Core.Option
use ffmpeg_wasi.Av.{AvError, Result, ok, err, IfOk, IfOk-bind, IfOk-weaken}
use ffmpeg_wasi.Process.Mux.{Packet}
use ffmpeg_wasi.Process.Run.{
  Job, next_packet, end_input, route, visit, and_flags, counted, round, next_round, demux, finished,
  run_job,
}
use ffmpeg_wasi.Process.Run.Machine.{
  Step, packet, close, later, live, Reached, visit-Visited, round-Reached,
}

module _ {S : Type 0} (job : Job S) (left : S → ℕ) where
  -- What is left to read goes down with every packet that is read of an input that still has a
  -- consumer and is not past its windows, and never up: an endless input is one that is not read
  -- any more when its consumers have finished.
  abbrev pub Bounded : Type 0
  Bounded =
      ((i : ℕ) (w w' : S) (pkt : Packet) → next_packet job i w ≡ (ok pkt, w') → left w' < left w)
      × ((i : ℕ) (w w' : S) (code : AvError)
          → next_packet job i w ≡ (err code, w')
          → left w' ≤ left w)
      × ((i : ℕ) (w w' : S) (pkt : Packet) → route job i pkt w ≡ ok w' → left w' ≤ left w)
      × ((i : ℕ) (b : Bool) (w w' : S) → end_input job i b w ≡ ok w' → left w' ≤ left w)

  Step-left :
      (i : ℕ) (es es' : List Bool) (w w' : S)
      → Bounded
      → Step job i es w es' w'
      → left w' + live job es' < left w + live job es
  Step-left i es es' w w' (r, s, t, u) (packet _ fs _ w1 _ pkt p q) =
      omega (arith, r i w w1 pkt p, t i w1 w' pkt q)
  Step-left i es es' w w' (r, s, t, u) (close _ fs _ w1 _ code c p q) =
      omega (arith, s i w w1 code p, u i (job.spent i w) w1 w' q)
  Step-left i es es' w w' h (later _ b fs gs _ _ p) =
      omega (arith, Step-left (suc i) fs gs w w' h p)

  -- A round does not add to what is left, and takes from it if some input has not ended.
  abbrev Less : List Bool → S → List Bool × ℕ × S → Type 0
  Less es w (es', n, w') =
      (left w' + live job es' ≤ left w + live job es)
      × ((live job es ≡ 0) ⊎ (left w' + live job es' < left w + live job es))

  and_flags-Less :
      (b b' : Bool) (es : List Bool) (w v : S) (m : Result (List Bool × ℕ × S))
      → ((b ≡ true) × (b' ≡ true) × (left v ≤ left w))
        ⊎ (left v + live job (b' ∷ es) < left w + live job (b ∷ es))
      → IfOk (Less es v) m
      → IfOk (Less (b ∷ es) w) (and_flags job b' m)
  and_flags-Less b b' es w v (err code) h k = tt
  and_flags-Less true true es w v (ok (es', n, w')) (inl (p, q, l)) (x, y) =
      (omega (arith, l, x), ground (arith, l, x, y))
  and_flags-Less false b' es w v (ok (es', n, w')) (inl (p, q, l)) k = ground (arith, p)
  and_flags-Less true false es w v (ok (es', n, w')) (inl (p, q, l)) k = ground (arith, q)
  and_flags-Less b b' es w v (ok (es', n, w')) (inr l) (x, y) =
      (omega (arith, l, x), inr (omega (arith, l, x)))

  round-Less :
      (i : ℕ) (es : List Bool) (n : ℕ) (w : S) → Bounded → IfOk (Less es w) (round job i es n w)
  unfolding round
  round-Less i [] n w h = (omega arith, inl refl)
  round-Less i (true ∷ es) n w h =
      and_flags-Less true true es w w _ (inl (refl, refl, omega arith))
        (round-Less (suc i) es n w h)
  round-Less i (false ∷ es) n w h =
      IfOk-bind (λ (x : Bool × S). (fs : List Bool) → Step job i (false ∷ fs) w (x.0 ∷ fs) x.1)
        (Less (false ∷ es) w) (visit job i w) _ (visit-Visited job i w)
        (λ x s.
          and_flags-Less false x.0 es w x.1 _ (inr (Step-left i _ _ w x.1 h (s es)))
            (round-Less (suc i) es (counted job x.0 n) x.1 h))

  abbrev pub Done {κ} : {A : Type κ} → Option A → Type κ
  Done {A = A} m = (r : A) × (m ≡ some r)

  next_round-Done :
      (es : List Bool) (w : S) (f : ℕ) (k : List Bool → ℕ → S → Option (Result (List Bool × ℕ × S)))
      (m : Result (List Bool × ℕ × S))
      → 0 < live job es
      → left w + live job es ≤ f
      → IfOk (λ (x : List Bool × ℕ × S). x.1 ≡ live job x.0) m
      → IfOk (Less es w) m
      → ((es1 : List Bool) (n1 : ℕ) (w1 : S)
          → n1 ≡ live job es1
          → left w1 + live job es1 < f
          → Done (k es1 n1 w1))
      → Done (next_round job k m)
  next_round-Done es w f k (err code) l b p q h = (err code, refl)
  next_round-Done es w f k (ok (es1, n1, w1)) l b p (x, y) h =
      h es1 n1 w1 p (ground (arith, l, b, x, y))

  pub demux-Done :
      (fuel : ℕ) (es : List Bool) (n : ℕ) (w : S)
      → Bounded
      → n ≡ live job es
      → left w + live job es < fuel
      → Done (demux job fuel es n w)
  unfolding demux
  demux-Done zero es n w h e l = ground (arith, l)
  demux-Done (suc f) es n w h e l =
      if_elim Done (ltb 0 n) _ _
        (λ b.
          next_round-Done es w f (demux job f) (round job 0 es n w) (ground (arith, b, e))
            (omega (arith, l))
            (IfOk-weaken (Reached job 0 es w 0) (λ (x : List Bool × ℕ × S). x.1 ≡ live job x.0)
              (round job 0 es n w) (λ x p. p.1 ∙ omega arith)
              (round-Reached job 0 es n w 0 (omega (arith, e))))
            (round-Less 0 es n w h) (λ es1 n1 w1 e1 l1. demux-Done f es1 n1 w1 h e1 l1))
        (λ b. (_, refl))

  pub live-replicate : (n : ℕ) → n ≡ live job (replicate n false)
  live-replicate zero = refl
  live-replicate (suc n) = omega (arith, live-replicate n)

  -- If what is left to read is bounded, then more rounds than there are packets left and inputs are
  -- enough for the demux loop, and the run of the job comes to an end, with a result or an error.
  pub run_job_ends :
      (fuel n_in n_out : ℕ) (w : S)
      → Bounded
      → left w + n_in < fuel
      → (r : Result S) × (run_job job fuel n_in n_out w ≡ some r)
  unfolding run_job
  run_job_ends fuel n_in n_out w h l =
      let (r, e) =
        demux-Done fuel (replicate n_in false) n_in w h (live-replicate n_in)
          (rw (sym (live-replicate n_in)) l) in
      (finished job n_out r, ap (Option.map (finished job n_out)) e)
