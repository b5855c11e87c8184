-- ===== src/Process/Run/Machine.antt =====
-- src/process.c: the demux loop as a machine that, in any order, takes a packet of an input that has
-- not ended, or ends one.
use ffmpeg_wasi.Base.{
  ℕ, zero, suc, ◌+◌, ◌≡◌, refl, ap, ◌∙◌, length, Bool, true, false, not, List, [], ◌∷◌, Option,
  none, some, ltb, if_elim, count, all, arith,
}
use ffmpeg_wasi.Av.{AvError, is_eof, Result, ok, err, IfOk, IfOk-bind}
use ffmpeg_wasi.Process.Mux.{Packet}
use ffmpeg_wasi.Process.Run.{
  Job, next_packet, end_input, route, with_flag, take_packet, visit, and_flags, counted, round,
  next_round, demux,
}

module _ {S : Type 0} (job : Job S) where
  -- A step of the machine; the flags are those of the inputs from a number on.
  pub data Step : ℕ → List Bool → S → List Bool → S → Type 0 where
    packet :
        (i : ℕ) (es : List Bool) (w w1 w2 : S) (pkt : Packet)
        → next_packet job i w ≡ (ok pkt, w1)
        → route job i pkt w1 ≡ ok w2
        → Step i (false ∷ es) w (false ∷ es) w2
    close :
        (i : ℕ) (es : List Bool) (w w1 w2 : S) (code : AvError)
        → is_eof code ≡ true
        → next_packet job i w ≡ (err code, w1)
        → end_input job i (job.spent i w) w1 ≡ ok w2
        → Step i (false ∷ es) w (true ∷ es) w2
    later :
        (i : ℕ) (b : Bool) (es es' : List Bool) (w w' : S)
        → Step (suc i) es w es' w'
        → Step i (b ∷ es) w (b ∷ es') w'

  pub data Steps : ℕ → List Bool → S → List Bool → S → Type 0 where
    rest : (i : ℕ) (es : List Bool) (w : S) → Steps i es w es w
    step :
        (i : ℕ) (es es1 es2 : List Bool) (w w1 w2 : S)
        → Step i es w es1 w1
        → Steps i es1 w1 es2 w2
        → Steps i es w es2 w2

  Steps-trans :
      (i : ℕ) (es es1 es2 : List Bool) (w w1 w2 : S)
      → Steps i es w es1 w1
      → Steps i es1 w1 es2 w2
      → Steps i es w es2 w2
  Steps-trans i es es1 es2 w w1 w2 (rest _ _ _) q = q
  Steps-trans i es es1 es2 w w1 w2 (step _ _ fs _ _ v _ s p) q =
      step i es fs es2 w v w2 s (Steps-trans i fs es1 es2 v w1 w2 p q)

  Steps-later :
      (i : ℕ) (b : Bool) (es es' : List Bool) (w w' : S)
      → Steps (suc i) es w es' w'
      → Steps i (b ∷ es) w (b ∷ es') w'
  Steps-later i b es es' w w' (rest _ _ _) = rest i (b ∷ es) w
  Steps-later i b es es' w w' (step _ _ fs _ _ v _ s p) =
      step i (b ∷ es) (b ∷ fs) (b ∷ es') w v w' (later i b es fs w v s)
        (Steps-later i b fs es' v w' p)

  Step-length :
      (i : ℕ) (es es' : List Bool) (w w' : S) → Step i es w es' w' → length es' ≡ length es
  Step-length i es es' w w' (packet _ _ _ _ _ _ _ _) = refl
  Step-length i es es' w w' (close _ _ _ _ _ _ _ _ _) = refl
  Step-length i es es' w w' (later _ b fs gs _ _ p) = ap suc (Step-length (suc i) fs gs w w' p)

  pub Steps-length :
      (i : ℕ) (es es' : List Bool) (w w' : S) → Steps i es w es' w' → length es' ≡ length es
  Steps-length i es es' w w' (rest _ _ _) = refl
  Steps-length i es es' w w' (step _ _ fs _ _ v _ s p) =
      Steps-length i fs es' v w' p ∙ Step-length i es fs w v s

  -- An input whose flag is down, after a visit that leaves it at `b`.
  abbrev pub Visited : ℕ → S → Bool × S → Type 0
  Visited i w (b, w') = (es : List Bool) → Step i (false ∷ es) w (b ∷ es) w'

  with_flag-IfOk :
      (P : Bool × S → Type 0) (b : Bool) (m : Result S)
      → ((w : S) → m ≡ ok w → P (b, w))
      → IfOk P (with_flag job b m)
  with_flag-IfOk P b (err code) h = tt
  with_flag-IfOk P b (ok w) h = h w refl

  take_packet-Visited :
      (i : ℕ) (w : S) (x : Result Packet × S)
      → next_packet job i w ≡ x
      → IfOk (Visited i w) (take_packet job i (job.spent i w) x)
  unfolding take_packet
  take_packet-Visited i w (ok pkt, w1) h =
      with_flag-IfOk (Visited i w) false (route job i pkt w1)
        (λ w2 e. λ es. packet i es w w1 w2 pkt h e)
  take_packet-Visited i w (err code, w1) h =
      if_elim (IfOk (Visited i w)) (is_eof code) _ _
        (λ c.
          with_flag-IfOk (Visited i w) true (end_input job i (job.spent i w) w1)
            (λ w2 e. λ es. close i es w w1 w2 code c h e))
        (λ c. tt)

  pub visit-Visited : (i : ℕ) (w : S) → IfOk (Visited i w) (visit job i w)
  unfolding visit
  visit-Visited i w = take_packet-Visited i w (next_packet job i w) refl

  abbrev pub live : List Bool → ℕ
  live es = count not es

  -- Steps lead here, and `remaining` counts the inputs that have not ended, besides `k` others.
  abbrev pub Reached : ℕ → List Bool → S → ℕ → List Bool × ℕ × S → Type 0
  Reached i es w k (es', n, w') = Steps i es w es' w' × (n ≡ k + live es')

  and_flags-Reached :
      (i : ℕ) (b b' : Bool) (es : List Bool) (w v : S) (k k' : ℕ) (m : Result (List Bool × ℕ × S))
      → Steps i (b ∷ es) w (b' ∷ es) v
      → k' ≡ k + live (b' ∷ [])
      → IfOk (Reached (suc i) es v k') m
      → IfOk (Reached i (b ∷ es) w k) (and_flags job b' m)
  and_flags-Reached i b b' es w v k k' (err code) s e h = tt
  and_flags-Reached i b b' es w v k k' (ok (es', n, w')) s e (p, q) = (
    Steps-trans i (b ∷ es) (b' ∷ es) (b' ∷ es') w v w' s (Steps-later i b' es es' v w' p),
    omega (arith, q, e),
  )

  pub round-Reached :
      (i : ℕ) (es : List Bool) (n : ℕ) (w : S) (k : ℕ)
      → n ≡ k + live es
      → IfOk (Reached i es w k) (round job i es n w)
  unfolding round
  round-Reached i [] n w k e = (rest i [] w, e)
  round-Reached i (true ∷ es) n w k e =
      and_flags-Reached i true true es w w k k _ (rest i (true ∷ es) w) (omega arith)
        (round-Reached (suc i) es n w k (omega (arith, e)))
  round-Reached i (false ∷ es) n w k e =
      IfOk-bind (Visited i w) (Reached i (false ∷ es) w k) _ _ (visit-Visited i w) (λ x s.
        and_flags-Reached i false x.0 es w x.1 k (k + live (x.0 ∷ [])) _
          (step i (false ∷ es) (x.0 ∷ es) (x.0 ∷ es) w x.1 x.1 (s es) (rest i (x.0 ∷ es) x.1)) refl
          (round-Reached (suc i) es (counted job x.0 n) x.1 (k + live (x.0 ∷ []))
            (counted_lem x.0 n (live es) k e)))
    where
      counted_lem :
          (b : Bool) (n l k : ℕ) → n ≡ k + (1 + l) → counted job b n ≡ k + live (b ∷ []) + l
      counted_lem true n l k e = omega (arith, e)
      counted_lem false n l k e = omega (arith, e)

  -- Where the loop has come to, if it has ended without an error.
  abbrev pub IfDone {κ} : {A : Type κ} → (A → Type 0) → Option (Result A) → Type 0
  IfDone P none = Unit
  IfDone P (some (err code)) = Unit
  IfDone P (some (ok a)) = P a

  abbrev pub Through : List Bool → S → List Bool × ℕ × S → Type 0
  Through es w (es', n, w') = Steps 0 es w es' w' × (n ≡ 0) × (all (λ b. b) es' ≡ true)

  none_live : (es : List Bool) → live es ≡ 0 → all (λ b. b) es ≡ true
  none_live [] e = refl
  none_live (true ∷ es) e = none_live es (omega (arith, e))
  none_live (false ∷ es) e = ground (arith, e)

  pub IfDone-weaken {κ} :
      {A : Type κ} (P Q : A → Type 0) (m : Option (Result A))
      → ((a : A) → P a → Q a)
      → IfDone P m
      → IfDone Q m
  IfDone-weaken P Q none f p = tt
  IfDone-weaken P Q (some (err code)) f p = tt
  IfDone-weaken P Q (some (ok a)) f p = f a p

  next_round-IfDone :
      (es : List Bool) (w : S) (k : List Bool → ℕ → S → Option (Result (List Bool × ℕ × S)))
      (m : Result (List Bool × ℕ × S))
      → IfOk (Reached 0 es w 0) m
      → ((es1 : List Bool) (w1 : S) (n1 : ℕ)
          → n1 ≡ live es1
          → IfDone (Through es1 w1) (k es1 n1 w1))
      → IfDone (Through es w) (next_round job k m)
  next_round-IfDone es w k (err code) p q = tt
  next_round-IfDone es w k (ok (es1, n1, w1)) (s, e) q =
      IfDone-weaken (Through es1 w1) (Through es w) (k es1 n1 w1)
        (λ x y. (Steps-trans 0 es es1 x.0 w w1 x.2 s y.0, y.1, y.2))
        (q es1 w1 n1 (omega (arith, e)))

  -- The demux loop does what the machine allows: if it ends without an error, the machine has come in
  -- steps from the state before it to the state after it, in each of which an input that has not ended
  -- gives a packet to the three lanes or ends for good, every input has ended, and `remaining` is 0.
  pub demux-Steps :
      (fuel : ℕ) (es : List Bool) (n : ℕ) (w : S)
      → n ≡ live es
      → IfDone (Through es w) (demux job fuel es n w)
  unfolding demux
  demux-Steps zero es n w e = tt
  demux-Steps (suc f) es n w e =
      if_elim (IfDone (Through es w)) (ltb 0 n) _ _
        (λ h.
          next_round-IfDone es w (demux job f) _ (round-Reached 0 es n w 0 (omega (arith, e)))
            (λ es1 w1 n1 e1. demux-Steps f es1 n1 w1 e1))
        (λ h. (rest 0 es w, ground (arith, h), none_live es (ground (arith, h, e))))
