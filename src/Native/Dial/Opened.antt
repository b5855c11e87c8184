-- ===== src/Native/Dial/Opened.antt =====
-- src/nativeio.c: a session that opens has gone through the whole handshake.
use ffmpeg_wasi.Base.{
  ℕ, ◌≤◌, ◌<◌, ◌≡◌, ◌⊎◌, subst, inl, inr, refl, sym, ap, ◌∙◌, Bool, true, false, not, ◌||◌, [], ◌∷◌,
  ◌++◌, Option, none, some, length, ltb, leb, ◌==◌, if◌then◌else◌, if_true, if_false, Bool-cases,
  arith, append_assoc,
}
use ffmpeg_wasi.Base.Text.{Bytes}
use ffmpeg_wasi.Native.Codec.{put32}
use ffmpeg_wasi.Native.Socket.{
  Sock, rd_full, wr_full, rd_full-exact, FullRead, wr_full-sent, stream, next_byte,
}
use ffmpeg_wasi.Native.Avio.{proto_negotiated, proto_min}
use ffmpeg_wasi.Native.Dial.{Attempt, refused, unanswered, opened, open_frame, greet}

-- The Open frame for a name.
abbrev pub open_request : Bytes → ℕ → Bytes
open_request name mode = (b'O' ∷ mode ∷ put32 (length name)) ++ name

refused-ne-opened : {s : Sock} → refused ≡ opened s → ⊥
refused-ne-opened e = cc

opened-eq : {s t : Sock} → opened s ≡ opened t → s ≡ t
opened-eq e = cc

-- The frame went out whole, and the host's status, the next byte that it sent, is 0.
abbrev FrameTaken : Bytes → ℕ → Sock → Sock → Type 0
FrameTaken name mode s s' =
    (s'.sent ≡ s.sent ++ open_request name mode)
    × (stream s.incoming ≡ 0 ∷ stream s'.incoming)
    × (s'.shut ≡ false)

open_frame-opened :
    (name : Bytes) (mode : ℕ) (s s' : Sock)
    → open_frame name mode s ≡ opened s'
    → FrameTaken name mode s s'
unfolding open_frame
open_frame-opened name mode s s' e = first (wr_full hdr s).0 (wr_full hdr s).1 refl e
  where
    hdr : Bytes
    hdr = b'O' ∷ mode ∷ put32 (length name)

    status :
        (s1 s2 : Sock) (o : Option (Bytes × Sock))
        → wr_full hdr s ≡ (true, s1)
        → wr_full name s1 ≡ (true, s2)
        → FullRead 1 s2 o
        → (let r : Attempt = elim o [
          | none ↦ refused
          | some ([], s3) ↦ refused
          | some (st ∷ _, s3) ↦ if not (st == 0) then refused else opened s3
        ] in
            r)
          ≡ opened s'
        → FrameTaken name mode s s'
    status s1 s2 none p q f e = absurd (cc)
    status s1 s2 (some ([], s3)) p q f e = absurd (cc)
    status s1 s2 (some (st ∷ x, s3)) p q (up, l, j, out, acc, up') e =
        let a = wr_full-sent hdr s s1 p in
        let b = wr_full-sent name s1 s2 q in
        elim (Bool-cases (not (st == 0))) [
          | inl z ↦ absurd (refused-ne-opened (sym (if_true _ _ z) ∙ e))
          | inr z ↦
              let at : s3 ≡ s' = opened-eq (sym (if_false _ _ z) ∙ e) in
              let zero_st : st ≡ 0 = ground (arith, z) in
              subst (FrameTaken name mode s) at (
                out ∙ b.0 ∙ ap (◌++ name) a.0 ∙ append_assoc s.sent hdr name,
                ap stream (sym (b.1 ∙ a.1))
                    ∙ next_byte st x (stream s3.incoming) (stream s2.incoming) l j
                    ∙ ap (◌∷ stream s3.incoming) zero_st,
                up',
              )
        ]

    second :
        (s1 : Sock) (b : Bool) (s2 : Sock)
        → wr_full hdr s ≡ (true, s1)
        → wr_full name s1 ≡ (b, s2)
        → (if not b
            then refused
            else (let r : Attempt = elim (rd_full 1 s2) [
              | none ↦ refused
              | some ([], s3) ↦ refused
              | some (st ∷ _, s3) ↦ if not (st == 0) then refused else opened s3
            ] in
                r))
          ≡ opened s'
        → FrameTaken name mode s s'
    second s1 false s2 p q e = absurd (cc)
    second s1 true s2 p q e = status s1 s2 (rd_full 1 s2) p q (rd_full-exact 1 s2) e

    first :
        (b : Bool) (s1 : Sock)
        → wr_full hdr s ≡ (b, s1)
        → (if not b
            then refused
            else (let (named, s2) = wr_full name s1 in
                if not named then refused else elim (rd_full 1 s2) [
                  | none ↦ refused
                  | some ([], s3) ↦ refused
                  | some (st ∷ _, s3) ↦ if not (st == 0) then refused else opened s3
                ]))
          ≡ opened s'
        → FrameTaken name mode s s'
    first false s1 p e = absurd (cc)
    first true s1 p e = second s1 (wr_full name s1).0 (wr_full name s1).1 p refl e

not_opened :
    {s : Sock} {v : Option ℕ} → ◌≡◌ {A = Attempt × Option ℕ} (refused, none) (opened s, v) → ⊥
not_opened e = cc

-- What the host has answered: from version 2 on the version it agrees to and then a status of 0, and
-- under version 1 the status of 0 alone. What it sends after that is still to be read.
abbrev pub Answered : ℕ → ℕ → Sock → Sock → Type 0
Answered ver agreed s s' =
    ((proto_negotiated ≤ ver) × (stream s.incoming ≡ agreed ∷ 0 ∷ stream s'.incoming))
    ⊎ ((ver < proto_negotiated) × (agreed ≡ ver) × (stream s.incoming ≡ 0 ∷ stream s'.incoming))

-- A dial that opens a session has sent the preamble and then the Open frame, and nothing else; the
-- host has sent the version that is recorded as agreed, where the announced one is 2 or more, and a
-- status of 0, and no byte behind these has been read; and the agreed version is one that both sides
-- know, from AFIO_PROTO_MIN to the version announced. The session is not shut down.
pub greet-opened :
    (name : Bytes) (mode ver : ℕ) (s s' : Sock) (v : Option ℕ)
    → proto_min ≤ ver
    → greet name mode ver s ≡ (opened s', v)
    → (agreed : ℕ) × (v ≡ some agreed)
      × (proto_min ≤ agreed)
      × (agreed ≤ ver)
      × (s'.sent ≡ s.sent ++ (ver ∷ open_request name mode))
      × Answered ver agreed s s'
      × (s'.shut ≡ false)
unfolding greet
greet-opened name mode ver s s' v low e =
    first (wr_full (ver ∷ []) s).0 (wr_full (ver ∷ []) s).1 refl e
  where
    Goal : Type 0
    Goal =
        (agreed : ℕ) × (v ≡ some agreed)
        × (proto_min ≤ agreed)
        × (agreed ≤ ver)
        × (s'.sent ≡ s.sent ++ (ver ∷ open_request name mode))
        × Answered ver agreed s s'
        × (s'.shut ≡ false)

    frame :
        (s1 s2 : Sock) (a : ℕ)
        → wr_full (ver ∷ []) s ≡ (true, s1)
        → s2.sent ≡ s1.sent
        → proto_min ≤ a
        → a ≤ ver
        → (stream s2.incoming ≡ 0 ∷ stream s'.incoming → Answered ver a s s')
        → open_frame name mode s2 ≡ opened s'
        → v ≡ some a
        → Goal
    frame s1 s2 a p q lo hi ans e w =
        let (x, r, y) = open_frame-opened name mode s2 s' e in
        let z = wr_full-sent (ver ∷ []) s s1 p in
        (
          a,
          w,
          lo,
          hi,
          x
              ∙ ap (◌++ open_request name mode) (q ∙ z.0)
              ∙ append_assoc s.sent (ver ∷ []) (open_request name mode),
          ans r,
          y,
        )

    status :
        (s1 : Sock) (o : Option (Bytes × Sock))
        → proto_negotiated ≤ ver
        → wr_full (ver ∷ []) s ≡ (true, s1)
        → FullRead 1 s1 o
        → (let r : Attempt × Option ℕ = elim o [
          | none ↦ (unanswered, none)
          | some ([], s2) ↦ (unanswered, none)
          | some (agreed ∷ _, s2) ↦
              if ltb agreed proto_min || ltb ver agreed
              then (refused, none)
              else (open_frame name mode s2, some agreed)
        ] in
            r)
          ≡ (opened s', v)
        → Goal
    status s1 none hi p f e = absurd (cc)
    status s1 (some ([], s2)) hi p f e = absurd (cc)
    status s1 (some (a ∷ x, s2)) hi p (up, l, j, out, acc, up') e =
        elim (Bool-cases (ltb a proto_min || ltb ver a)) [
          | inl b ↦ absurd (not_opened (sym (if_true _ _ b) ∙ e))
          | inr b ↦
              frame s1 s2 a p out (ground (arith, b)) (ground (arith, b))
                (λ r. inl (
                  hi,
                  ap stream (sym (wr_full-sent (ver ∷ []) s s1 p).1)
                      ∙ next_byte a x (stream s2.incoming) (stream s1.incoming) l j
                      ∙ ap (a ∷◌) r,
                ))
                (ap (λ (r : Attempt × Option ℕ). r.0) (sym (if_false _ _ b) ∙ e))
                (sym (ap (λ (r : Attempt × Option ℕ). r.1) (sym (if_false _ _ b) ∙ e)))
        ]

    first :
        (b : Bool) (s1 : Sock)
        → wr_full (ver ∷ []) s ≡ (b, s1)
        → (if not b
            then (refused, none)
            else if leb proto_negotiated ver
            then (let r : Attempt × Option ℕ = elim (rd_full 1 s1) [
              | none ↦ (unanswered, none)
              | some ([], s2) ↦ (unanswered, none)
              | some (agreed ∷ _, s2) ↦
                  if ltb agreed proto_min || ltb ver agreed
                  then (refused, none)
                  else (open_frame name mode s2, some agreed)
            ] in
                r)
            else (open_frame name mode s1, some ver))
          ≡ (opened s', v)
        → Goal
    first false s1 p e = absurd (cc)
    first true s1 p e = elim (Bool-cases (leb proto_negotiated ver)) [
      | inl b ↦
          status s1 (rd_full 1 s1) (ground (arith, b)) p (rd_full-exact 1 s1)
            (sym (if_true _ _ b) ∙ e)
      | inr b ↦
          frame s1 s1 ver p refl low (omega arith)
            (λ r.
              inr (ground (arith, b), refl, ap stream (sym (wr_full-sent (ver ∷ []) s s1 p).1) ∙ r))
            (ap (λ (r : Attempt × Option ℕ). r.0) (sym (if_false _ _ b) ∙ e))
            (sym (ap (λ (r : Attempt × Option ℕ). r.1) (sym (if_false _ _ b) ∙ e)))
    ]
