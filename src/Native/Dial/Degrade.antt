-- ===== src/Native/Dial/Degrade.antt =====
-- src/nativeio.c: the fallback to version 1.
use ffmpeg_wasi.Base.{
  ℕ, suc, ◌+◌, ◌≤◌, ◌<◌, ◌≡◌, ◌≢◌, ◌⊎◌, inl, inr, refl, sym, ap, ◌∙◌, subst, true, List, [], ◌∷◌,
  Option, none, some, length, ◌==◌, if◌then◌else◌, arith,
}
use ffmpeg_wasi.Base.Int.{ℤ}
use ffmpeg_wasi.Base.Text.{Bytes}
use ffmpeg_wasi.Av.{ok}
use ffmpeg_wasi.Native.Socket.{
  Sock, rd_full, wr_full, FullRead, rd_full-exact, wr_full-sent, stream,
}
use ffmpeg_wasi.Native.Avio.{proto_min, proto_negotiated}
use ffmpeg_wasi.Native.Dial.{
  Config, Bridge, connect, Attempt, refused, unanswered, opened, greet, agree, session_of,
  fall_back, attempt, set_timeouts, afio_dial,
}

connect-conns :
    (cfg : Config) (b : Bridge)
    → let (c, b') = connect cfg b in
      (b'.announce ≡ b.announce) × (length b.conns ≤ length b'.conns + 1)
unfolding connect
connect-conns cfg b = ground arith

-- Version 1 has no answer to wait for.
greet-answered : (name : Bytes) (mode : ℕ) (s : Sock) → (greet name mode proto_min s).0 ≢ unanswered
unfolding greet
greet-answered name mode s = ground arith

-- An attempt keeps to the version it is given and takes one connection at most.
attempt_lem :
    (cfg : Config) (name : Bytes) (mode ver : ℕ) (b : Bridge)
    → let (r, b') = attempt cfg name mode ver b in
      (b'.announce ≡ ver)
      × (length b.conns ≤ length b'.conns + 1)
      × (r ≡ unanswered → ver ≢ proto_min)
unfolding attempt
attempt_lem cfg name mode ver b = go (connect cfg b0).0 (connect cfg b0).1 (connect-conns cfg b0)
  where
    b0 : Bridge
    b0 = record b { announce = ver }

    offered : (s : Sock) → (greet name mode ver s).0 ≡ unanswered → ver ≢ proto_min
    offered s e one =
        greet-answered name mode s (subst (λ v. (greet name mode v s).0 ≡ unanswered) one e)

    go :
        (c : Option Sock) (b1 : Bridge)
        → (b1.announce ≡ b0.announce) × (length b0.conns ≤ length b1.conns + 1)
        → let (r, b') =
            (let o : Attempt × Bridge = elim c [
              | none ↦ (refused, b1)
              | some s ↦ let (x, v) = greet name mode ver s in (x, agree b1 v)
            ] in
              o) in
          (b'.announce ≡ ver)
          × (length b.conns ≤ length b'.conns + 1)
          × (r ≡ unanswered → ver ≢ proto_min)
    go none b1 (v, l) = (v, l, λ e. absurd (refused-ne e))
      where
        refused-ne : refused ≡ unanswered → ⊥
        refused-ne e = cc
    go (some s) b1 (v, l) = agreed (greet name mode ver s).1
      where
        agreed :
            (o : Option ℕ)
            → ((agree b1 o).announce ≡ ver)
              × (length b.conns ≤ length (agree b1 o).conns + 1)
              × ((greet name mode ver s).0 ≡ unanswered → ver ≢ proto_min)
        agreed none = (v, l, offered s)
        agreed (some w) = (v, l, offered s)

-- The dials of a job, one for each file that it opens.
unfoldable pub dial_all : Config → List (Bytes × ℕ) → Bridge → Bridge
dial_all cfg [] b = b
dial_all cfg ((name, mode) ∷ r) b = dial_all cfg r (afio_dial cfg name mode b).1

-- The one connection that a fallback may still cost.
abbrev pub spare : ℕ → ℕ
spare v = if v == proto_min then 0 else 1

-- What one dial may cost, and what it may do to the version.
abbrev Cost : Bridge → Bridge → Type 0
Cost b b' =
    (length b.conns + spare b'.announce ≤ length b'.conns + 1 + spare b.announce)
    × ((b'.announce ≡ b.announce) ⊎ (b'.announce ≡ proto_min))

session_of-bridge : (r : Attempt) (b : Bridge) → (session_of (r, b)).1 ≡ b
session_of-bridge refused b = refl
session_of-bridge unanswered b = refl
session_of-bridge (opened s) b = refl

fall_back-Cost :
    (cfg : Config) (name : Bytes) (mode : ℕ) (b : Bridge) (r : Attempt) (b1 : Bridge)
    → b1.announce ≡ b.announce
    → length b.conns ≤ length b1.conns + 1
    → (r ≡ unanswered → b.announce ≢ proto_min)
    → Cost b (fall_back cfg name mode (r, b1)).1
fall_back-Cost cfg name mode b refused b1 v l u = (rw v (omega arith), inl v)
fall_back-Cost cfg name mode b (opened s) b1 v l u = (rw v (omega arith), inl v)
fall_back-Cost cfg name mode b unanswered b1 v l u =
    let again = attempt cfg name mode proto_min b1 in
    let (v2, l2, _) = attempt_lem cfg name mode proto_min b1 in
    let ne : b.announce ≢ proto_min = u refl in
    subst (Cost b) (sym (session_of-bridge again.0 again.1)) (ground (arith, v2, l2, ne), inr v2)

afio_dial-Cost :
    (cfg : Config) (name : Bytes) (mode : ℕ) (b : Bridge) → Cost b (afio_dial cfg name mode b).1
unfolding afio_dial
afio_dial-Cost cfg name mode b =
    let (v, l, u) = attempt_lem cfg name mode b.announce b in
    fall_back-Cost cfg name mode b (attempt cfg name mode b.announce b).0
      (attempt cfg name mode b.announce b).1 v l u

-- A job takes one connection for each file and one more at most, and a version that it falls back to
-- is version 1.
dial_all-cost :
    (cfg : Config) (files : List (Bytes × ℕ)) (b : Bridge)
    → let b' = dial_all cfg files b in
      (length b.conns ≤ length b'.conns + length files + spare b.announce)
      × ((b'.announce ≡ b.announce) ⊎ (b'.announce ≡ proto_min))
unfolding dial_all
dial_all-cost cfg [] b = (omega arith, inl refl)
dial_all-cost cfg ((name, mode) ∷ r) b =
    let b1 : Bridge = (afio_dial cfg name mode b).1 in
    ground (arith, afio_dial-Cost cfg name mode b, dial_all-cost cfg r b1)

-- A connection whose host takes the preamble, and ends or is silent before it has answered a byte.
abbrev pub IsSilent : ℕ → Sock → Type 0
IsSilent ver s = ((wr_full (ver ∷ []) s).0 ≡ true) × (stream s.incoming ≡ [])

-- The environment lets a session be dialled.
abbrev pub CanDial : Config → Type 0
CanDial cfg =
    (path : Bytes) × (secs : ℤ) × (cfg.socket ≡ some path)
    × (set_timeouts cfg.timeout ≡ ok secs)
    × (length path < cfg.sun_path_size)

connect-next :
    (cfg : Config) (b : Bridge) (c : Option Sock) (cs : List (Option Sock))
    → CanDial cfg
    → b.conns ≡ c ∷ cs
    → connect cfg b ≡ (c, record b { conns = cs })
unfolding connect
connect-next cfg b c cs (path, secs, p, q, l) e = ground (arith, p, q, l, e)

greet-silent :
    (name : Bytes) (mode ver : ℕ) (s : Sock)
    → proto_negotiated ≤ ver
    → IsSilent ver s
    → greet name mode ver s ≡ (unanswered, none)
unfolding greet
greet-silent name mode ver s v (sent, quiet) =
    go (wr_full (ver ∷ []) s).1 (ap (λ x. (x, (wr_full (ver ∷ []) s).1)) sent)
  where
    unread :
        (s1 : Sock) (o : Option (Bytes × Sock))
        → stream s1.incoming ≡ []
        → FullRead 1 s1 o
        → o ≡ none
    unread s1 none e f = refl
    unread s1 (some ([], s2)) e (up, l, j, out, acc, up') = absurd (omega (arith, l))
    unread s1 (some (c ∷ x, s2)) e (up, l, j, out, acc, up') = absurd (cc (j ∙ e))

    go :
        (s1 : Sock) → wr_full (ver ∷ []) s ≡ (true, s1) → greet name mode ver s ≡ (unanswered, none)
    go s1 p =
        let inc = (wr_full-sent (ver ∷ []) s s1 p).1 in
        ground (arith, p, v, unread s1 (rd_full 1 s1) (ap stream inc ∙ quiet) (rd_full-exact 1 s1))

answered_already :
    (cfg : Config) (name : Bytes) (mode : ℕ) (x : Attempt × Bridge)
    → x.0 ≢ unanswered
    → fall_back cfg name mode x ≡ session_of x
answered_already cfg name mode (refused, b) h = refl
answered_already cfg name mode (opened s, b) h = refl
answered_already cfg name mode (unanswered, b) h = absurd (h refl)

module _ (cfg : Config) (b : Bridge) (s : Sock) (cs : List (Option Sock)) (can : CanDial cfg)
    (next : b.conns ≡ some s ∷ cs) (new : proto_negotiated ≤ b.announce)
    (silent : IsSilent b.announce s) where
  -- The bridge at version 1, with the silent connection used up.
  abbrev pub degraded : Bridge
  degraded = record b { announce = proto_min; conns = cs }

  attempt-silent :
      (name : Bytes) (mode : ℕ)
      → attempt cfg name mode b.announce b ≡ (unanswered, record b { conns = cs })
  unfolding attempt
  attempt-silent name mode =
      let c = connect-next cfg (record b { announce = b.announce }) (some s) cs can next in
      let g = greet-silent name mode b.announce s new silent in ground (arith, c, g)

  afio_dial-degraded :
      (name : Bytes) (mode : ℕ) → afio_dial cfg name mode b ≡ afio_dial cfg name mode degraded
  unfolding afio_dial attempt
  afio_dial-degraded name mode =
      ap (fall_back cfg name mode) (attempt-silent name mode)
      ∙ sym (
          answered_already cfg name mode (attempt cfg name mode proto_min degraded)
            (λ e. (attempt_lem cfg name mode proto_min degraded).2 e refl))

  -- Where the environment lets a session be dialled, a host that takes the preamble of a version from 2 on
  -- over the next connection and leaves it unanswered costs the job that
  -- connection and nothing else: the dial has the outcome that a dial which offers version 1 has over
  -- the next connection, whatever file it is for, and so have all the dials after it. These offer
  -- version 1 to the end of the job, and take one connection at most for each file.
  pub dial_all-degraded :
      (name : Bytes) (mode : ℕ) (files : List (Bytes × ℕ))
      → (afio_dial cfg name mode b ≡ afio_dial cfg name mode degraded)
        × (dial_all cfg ((name, mode) ∷ files) b ≡ dial_all cfg ((name, mode) ∷ files) degraded)
        × ((dial_all cfg ((name, mode) ∷ files) b).announce ≡ proto_min)
        × (length cs ≤ length (dial_all cfg ((name, mode) ∷ files) b).conns + suc (length files))
  dial_all-degraded name mode files =
      let e = afio_dial-degraded name mode in
      let all_same : dial_all cfg ((name, mode) ∷ files) b
          ≡ dial_all cfg ((name, mode) ∷ files) degraded =
        unfold dial_all in ap (λ x. dial_all cfg files x.1) e in
      let (l, v) = dial_all-cost cfg ((name, mode) ∷ files) degraded in
      (
        e,
        all_same,
        ap (λ x. x.announce) all_same ∙ elim v [ inl p ↦ p | inr p ↦ p ],
        subst (λ x. length cs ≤ length x.conns + suc (length files)) (sym all_same)
            (omega (arith, l)),
      )
