-- ===== src/Native/Avio/Exchange.antt =====
-- src/nativeio.c: the callbacks against a host that answers, however its answer is cut up.
use ffmpeg_wasi.Base.{
  ℕ, ◌≤◌, ◌<◌, ◌^◌, ◌≡◌, ◌⊎◌, inl, inr, refl, sym, ◌∙◌, ap, subst, true, false, ◌∷◌, ◌++◌, Option,
  none, some, length, length-append, append_cancel, arith,
}
use ffmpeg_wasi.Base.Text.{Bytes}
use ffmpeg_wasi.Av.{Result, ok, err, eio, eof}
use ffmpeg_wasi.Native.Codec.{put32, get32, get-put, length-put}
use ffmpeg_wasi.Native.Socket.{
  Sock, rd_full, wr_full, afio_fail, rd_full-exact, wr_full-exact, FullRead, FullWrite, stream,
}
use ffmpeg_wasi.Native.Avio.{exchange, read_reply, afio_read, proto_negotiated}

-- The socket holds `xs` for the next calls, and then `rest`.
record Holds (s : Sock) (xs rest : Bytes) : Type 0 where
  up : s.shut ≡ false
  queued : stream s.incoming ≡ xs ++ rest

-- A socket after `sent` went out and the reply was taken in, with `rest` next.
pub record InStep (s : Sock) (req rest : Bytes) (s' : Sock) : Type 0 where
  pub still_up : s'.shut ≡ false
  pub next : stream s'.incoming ≡ rest
  pub requested : s'.sent ≡ s.sent ++ req

rd_full-delivers :
    (n : ℕ) (s : Sock) (xs rest : Bytes)
    → Holds s xs rest
    → length xs ≡ n
    → (s' : Sock) × (rd_full n s ≡ some (xs, s'))
      × (stream s'.incoming ≡ rest)
      × (s'.sent ≡ s.sent)
      × (s'.shut ≡ false)
rd_full-delivers n s xs rest h l = go (rd_full n s) refl (rd_full-exact n s)
  where
    go :
        (o : Option (Bytes × Sock))
        → rd_full n s ≡ o
        → FullRead n s o
        → (s' : Sock) × (rd_full n s ≡ some (xs, s'))
          × (stream s'.incoming ≡ rest)
          × (s'.sent ≡ s.sent)
          × (s'.shut ≡ false)
    go none e (inl gone) = let up = h.up in cc
    go none e (inr short) =
        let q = ap length h.queued in absurd (omega (arith, length-append xs rest))
    go (some (bs, s')) e (up, len, joined, out, acc, up') =
        let (same, left) =
          append_cancel bs xs (stream s'.incoming) rest (joined ∙ h.queued) (len ∙ sym l) in
        (s', e ∙ ap (λ b. some (b, s')) same, left, out, up')

-- The request went out whole.
abbrev Sends : Bytes → Sock → Sock → Type 0
Sends req s s1 = wr_full req s ≡ (true, s1)

module _ (s s1 : Sock) (b : ℕ) (bs : Bytes) (sends : Sends (b ∷ bs) s s1) where
  sent_ok : FullWrite (b ∷ bs) s (true, s1)
  sent_ok = subst (FullWrite (b ∷ bs) s) sends (wr_full-exact b bs s)

  -- A whole exchange: the continuation gets the reply, and the rest stays for it.
  exchange-delivers {ℓ} :
      {A : Type ℓ} (n : ℕ) (xs rest : Bytes) (k : Bytes → Sock → Result A × Sock)
      → Holds s xs rest
      → length xs ≡ n
      → (s2 : Sock) × (exchange (b ∷ bs) n s k ≡ k xs s2) × InStep s (b ∷ bs) rest s2
  unfolding exchange
  exchange-delivers n xs rest k h l =
      let (out, inc, shut_same) = sent_ok in
      let (s2, e, left, out2, up2) =
        rd_full-delivers n s1 xs rest
          (record { up = shut_same ∙ h.up; queued = ap stream inc ∙ h.queued }) l in
      (s2, rw (sends, e), record { still_up = up2; next = left; requested = out2 ∙ out })

-- What afio_read does with a reply is settled by its count.
read_reply_data :
    (agreed size : ℕ) (nb buf rest : Bytes) (s : Sock)
    → get32 nb ≡ length buf
    → 0 < length buf
    → length buf ≤ size
    → size < 2 ^ 31
    → Holds s buf rest
    → (s' : Sock) × (read_reply agreed size nb s ≡ (ok buf, s'))
      × (stream s'.incoming ≡ rest)
      × (s'.sent ≡ s.sent)
      × (s'.shut ≡ false)
unfolding read_reply
read_reply_data agreed size nb buf rest s c lo hi top h =
    let (s', e, left, out, up) = rd_full-delivers (get32 nb) s buf rest h (sym c) in
    (s', ground (arith, e), left, out, up)

-- A read that the host answers with a count and as many bytes, one at least and no more than asked
-- for, returns those bytes, and leaves the session in step: it is up, the host got exactly the read
-- frame, and what it sends next stays for the next call. So under either protocol version.
pub afio_read-delivers :
    (agreed size : ℕ) (buf rest : Bytes) (s s1 : Sock)
    → s.shut ≡ false
    → wr_full (b'R' ∷ put32 size) s ≡ (true, s1)
    → stream s.incoming ≡ put32 (length buf) ++ (buf ++ rest)
    → 0 < length buf
    → length buf ≤ size
    → size < 2 ^ 31
    → (s' : Sock) × (afio_read agreed size s ≡ (ok buf, s')) × InStep s (b'R' ∷ put32 size) rest s'
unfolding afio_read
afio_read-delivers agreed size buf rest s s1 up sends q lo hi top =
    let (s2, e, i) =
      exchange-delivers s s1 b'R' (put32 size) sends 4 (put32 (length buf)) (buf ++ rest)
        (read_reply agreed size) (record { up = up; queued = q }) (length-put (length buf)).0 in
    let (s3, e', left, out, up') =
      read_reply_data agreed size (put32 (length buf)) buf rest s2
        ((get-put (length buf) 0 (omega arith) (omega arith)).0) lo hi top
        (record { up = i.still_up; queued = i.next }) in
    (s3, e ∙ e', record { still_up = up'; next = left; requested = out ∙ i.requested })

-- A count that no honest host sends: past the buffer, or, from version 2 on, negative.
abbrev pub IsBadCount : ℕ → ℕ → ℕ → Type 0
IsBadCount agreed size n = (size < n) ⊎ ((proto_negotiated ≤ agreed) × (2 ^ 31 ≤ n))

module _ (agreed size n : ℕ) (rest : Bytes) (s s1 : Sock) (up : s.shut ≡ false)
    (sends : wr_full (b'R' ∷ put32 size) s ≡ (true, s1)) (q : stream s.incoming ≡ put32 n ++ rest)
    (top : n < 2 ^ 32) where
  read_counted :
      (s2 : Sock) × (afio_read agreed size s ≡ read_reply agreed size (put32 n) s2)
      × InStep s (b'R' ∷ put32 size) rest s2
  unfolding afio_read
  read_counted =
      exchange-delivers s s1 b'R' (put32 size) sends 4 (put32 n) rest (read_reply agreed size)
        (record { up = up; queued = q }) (length-put n).0

  -- A reply whose count is past the buffer, or negative from version 2 on, ends the session with an
  -- I/O error.
  pub afio_read-refuses :
      IsBadCount agreed size n
      → (s' : Sock) × (afio_read agreed size s ≡ (err eio, s')) × (s'.shut ≡ true)
  unfolding read_reply afio_fail
  afio_read-refuses bad =
      let (s2, e, i) = read_counted in
      let c : get32 (put32 n) ≡ n = (get-put n 0 top (omega arith)).0 in
      (record s2 { shut = true }, e ∙ ground (arith, c, bad), refl)

  -- A reply with the count 0 is the end of the file, and leaves the session in step.
  pub afio_read-end :
      n ≡ 0
      → (s' : Sock) × (afio_read agreed size s ≡ (err eof, s'))
        × InStep s (b'R' ∷ put32 size) rest s'
  unfolding read_reply
  afio_read-end z =
      let (s2, e, i) = read_counted in
      let c : get32 (put32 n) ≡ n = (get-put n 0 top (omega arith)).0 in
      (s2, e ∙ ground (arith, c, z), i)
