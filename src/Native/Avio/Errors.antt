-- ===== src/Native/Avio/Errors.antt =====
-- src/nativeio.c: what a callback that succeeds has said to the host and heard from it, and that one
-- that fails ends the session.
use ffmpeg_wasi.Base.{
  ℕ, suc, ◌-◌, ◌%◌, ◌≤◌, ◌<◌, ◌^◌, ◌≡◌, ◌≢◌, ◌⊎◌, inl, inr, refl, sym, ap, ◌∙◌, Bool, true, false,
  not, ◌&&◌, [], ◌∷◌, ◌++◌, Option, none, some, length, ltb, leb, ◌==◌, if◌then◌else◌, if_elim,
  append_assoc, arith,
}
use ffmpeg_wasi.Base.Int.{ℤ, pos, negsuc}
use ffmpeg_wasi.Base.Text.{Bytes}
use ffmpeg_wasi.Av.{Result, ok, err, eio, eof}
use ffmpeg_wasi.Native.Codec.{put32, put64, get32, get64}
use ffmpeg_wasi.Native.Socket.{
  Sock, rd_full, wr_full, afio_fail, FullRead, rd_full-exact, wr_full-sent, stream,
}
use ffmpeg_wasi.Native.Avio.{
  fail, exchange, read_reply, afio_read, write_reply, afio_write, afio_seek, avseek_size,
  proto_negotiated, clear_force, to_u64, of_u64,
}

-- The outcome is a value that `P` holds of, with the socket after it, the end of the file, or an I/O
-- error with the session shut down.
abbrev pub Ends {ℓ} : {A : Type ℓ} → (A → Sock → Type 0) → Result A × Sock → Type 0
Ends P (ok a, s) = P a s
Ends P (err e, s) = (e ≡ eof) ⊎ ((e ≡ eio) × (s.shut ≡ true))

-- From `s` to `s'` the request went out whole and the reply was taken in, and nothing else.
abbrev pub Exchanged : Sock → Bytes → Bytes → Sock → Type 0
Exchanged s req reply s' =
    (s'.sent ≡ s.sent ++ req)
    × (stream s.incoming ≡ reply ++ stream s'.incoming)
    × (s'.shut ≡ false)

fail-Ends {ℓ} : {A : Type ℓ} (P : A → Sock → Type 0) (s : Sock) → Ends P (fail s)
unfolding afio_fail
fail-Ends P s = inr (refl, refl)

-- The continuation gets the reply of the length asked for, after the request.
exchange-Ends {ℓ} :
    {A : Type ℓ} (P : A → Sock → Type 0) (req : Bytes) (n : ℕ) (s : Sock)
    (k : Bytes → Sock → Result A × Sock)
    → ((reply : Bytes) (s' : Sock)
        → length reply ≡ n
        → Exchanged s req reply s'
        → Ends P (k reply s'))
    → Ends P (exchange req n s k)
unfolding exchange
exchange-Ends P req n s k h = sent (wr_full req s).0 (wr_full req s).1 refl
  where
    got :
        (s1 : Sock) (o : Option (Bytes × Sock))
        → wr_full req s ≡ (true, s1)
        → FullRead n s1 o
        → Ends P (elim o [ none ↦ fail s1 | some (reply, s2) ↦ k reply s2 ])
    got s1 none w f = fail-Ends P s1
    got s1 (some (reply, s2)) w (up, l, j, out, acc, up') =
        let (sent_all, inc, _) = wr_full-sent req s s1 w in
        h reply s2 l (out ∙ sent_all, ap stream (sym inc) ∙ sym j, up')

    sent :
        (b : Bool) (s1 : Sock)
        → wr_full req s ≡ (b, s1)
        → Ends P (
            if not b
            then fail s1
            else elim (rd_full n s1) [ none ↦ fail s1 | some (reply, s2) ↦ k reply s2 ])
    sent false s1 w = fail-Ends P s1
    sent true s1 w = got s1 (rd_full n s1) w (rd_full-exact n s1)

-- A read that returned `buf`: the host sent a count and as many bytes, one at least, and no more than
-- the buffer holds.
abbrev pub Filled : Sock → ℕ → Bytes → Sock → Type 0
Filled s size buf s' =
    (0 < length buf)
    × (length buf ≤ size)
    × (nb : Bytes) × (length nb ≡ 4)
    × (get32 nb ≡ length buf)
    × Exchanged s (b'R' ∷ put32 size) (nb ++ buf) s'

-- A write of `buf` that returned `w`: the host got all the bytes and then sent their number.
abbrev pub Taken : Sock → Bytes → ℕ → Sock → Type 0
Taken s buf w s' =
    (w ≡ length buf)
    × (nb : Bytes) × (length nb ≡ 4)
    × (get32 nb ≡ length buf)
    × Exchanged s ((b'W' ∷ put32 (length buf)) ++ buf) nb s'

-- A word of 64 bits as an int64_t, and an int64_t as such a word.
abbrev pub ReadsAs : ℕ → ℤ → Type 0
ReadsAs n (pos k) = (n ≡ k) × (n < 2 ^ 63)
ReadsAs n (negsuc k) = (2 ^ 63 ≤ n) × (k ≡ 2 ^ 64 - 1 - n)

abbrev pub WrittenAs : ℤ → ℕ → Type 0
WrittenAs (pos k) n = n ≡ k
WrittenAs (negsuc k) n = n ≡ 2 ^ 64 - suc k

-- What a seek asks the host: for the size, or for a position and whence.
abbrev pub AsksFor : ℤ → ℕ → Bytes → Type 0
AsksFor offset whence req =
    ((whence ≡ avseek_size) × (req ≡ b'Z' ∷ []))
    ⊎ ((whence ≢ avseek_size)
        × ((n : ℕ) × WrittenAs offset n × (req ≡ b'S' ∷ (put64 n ++ (whence % 256 ∷ [])))))

-- A seek that returned `off`, which the host sent.
abbrev pub Positioned : Sock → ℤ → ℕ → ℤ → Sock → Type 0
Positioned s offset whence off s' =
    (req : Bytes) × (reply : Bytes) × AsksFor offset whence req
    × (length reply ≡ 8)
    × ReadsAs (get64 reply) off
    × Exchanged s req reply s'

read_reply-Ends :
    (agreed size : ℕ) (nb : Bytes) (s0 s : Sock)
    → length nb ≡ 4
    → Exchanged s0 (b'R' ∷ put32 size) nb s
    → Ends (Filled s0 size) (read_reply agreed size nb s)
unfolding read_reply
read_reply-Ends agreed size nb s0 s four (out0, in0, up0) =
    if_elim (Ends (Filled s0 size)) (leb proto_negotiated agreed && leb (2 ^ 31) (get32 nb)) _ _
      (λ e. fail-Ends (Filled s0 size) s)
      (λ e.
        if_elim (Ends (Filled s0 size)) (get32 nb == 0) _ _ (λ z. inl refl)
          (λ z.
            if_elim (Ends (Filled s0 size)) (ltb size (get32 nb)) _ _
              (λ l. fail-Ends (Filled s0 size) s)
              (λ l.
                got (rd_full (get32 nb) s) (ground (arith, z)) (ground (arith, l))
                  (rd_full-exact (get32 nb) s))))
  where
    got :
        (o : Option (Bytes × Sock))
        → 0 < get32 nb
        → get32 nb ≤ size
        → FullRead (get32 nb) s o
        → Ends (Filled s0 size) (elim o [ none ↦ fail s | some (buf, s') ↦ (ok buf, s') ])
    got none lo hi f = fail-Ends (Filled s0 size) s
    got (some (buf, s')) lo hi (up, l, j, out, acc, up') = (
      omega (arith, l, lo),
      omega (arith, l, hi),
      nb,
      four,
      sym l,
      (out ∙ out0, in0 ∙ ap (nb ++◌) (sym j) ∙ sym (append_assoc nb buf (stream s'.incoming)), up'),
    )

write_reply-Ends :
    (buf nb : Bytes) (s0 s : Sock)
    → length nb ≡ 4
    → Exchanged s0 ((b'W' ∷ put32 (length buf)) ++ buf) nb s
    → Ends (Taken s0 buf) (write_reply (length buf) nb s)
unfolding write_reply
write_reply-Ends buf nb s0 s four x =
    if_elim (Ends (Taken s0 buf)) (not (get32 nb == length buf)) _ _
      (λ e. fail-Ends (Taken s0 buf) s)
      (λ e. let same : get32 nb ≡ length buf = ground (arith, e) in (same, nb, four, same, x))

of_u64-ReadsAs : (n : ℕ) → ReadsAs n (of_u64 n)
of_u64-ReadsAs n =
    if_elim (ReadsAs n) (ltb n (2 ^ 63)) _ _ (λ e. (refl, ground (arith, e)))
      (λ e. (ground (arith, e), refl))

to_u64-WrittenAs : (z : ℤ) → WrittenAs z (to_u64 z)
to_u64-WrittenAs (pos k) = refl
to_u64-WrittenAs (negsuc k) = omega arith

clear_force-mod : (w : ℕ) → clear_force w % 256 ≡ w % 256
clear_force-mod w = ground arith

-- A callback that returns a value has kept to its contract. A read that returns bytes, one or more
-- and never past the size asked for, returns what the host sent behind a count of just these; a
-- write was confirmed by the host for exactly the bytes handed over, which all went out; a seek was
-- answered with the position returned, as an int64_t. Each sent its request, took in the answer, and
-- neither sent nor took in anything else. Any other outcome is the end of the file, or an I/O error
-- that leaves the session shut down.
pub callbacks-Ends :
    (agreed size : ℕ) (buf : Bytes) (offset : ℤ) (whence : ℕ) (s : Sock)
    → Ends (Filled s size) (afio_read agreed size s)
      × Ends (Taken s buf) (afio_write buf s)
      × Ends (Positioned s offset whence) (afio_seek offset whence s)
unfolding afio_read afio_write afio_seek
callbacks-Ends agreed size buf offset whence s = (
  exchange-Ends (Filled s size) _ 4 s (read_reply agreed size)
      (λ nb s' l x. read_reply-Ends agreed size nb s s' l x),
  written (wr_full hdr s).0 (wr_full hdr s).1 refl,
  if_elim (Ends (Positioned s offset whence)) (whence == avseek_size) _ _
      (λ z.
        exchange-Ends (Positioned s offset whence) _ 8 s _
          (λ b s' l x. (_, b, inl (ground (arith, z), refl), l, of_u64-ReadsAs (get64 b), x)))
      (λ z. exchange-Ends (Positioned s offset whence) _ 8 s _ (λ b s' l x. (
        _,
        b,
        inr (
          ground (arith, z),
          (
            to_u64 offset,
            to_u64-WrittenAs offset,
            ap (λ w. b'S' ∷ (put64 (to_u64 offset) ++ (w ∷ []))) (clear_force-mod whence),
          ),
        ),
        l,
        of_u64-ReadsAs (get64 b),
        x,
      ))),
)
  where
    hdr : Bytes
    hdr = b'W' ∷ put32 (length buf)

    written :
        (b : Bool) (s1 : Sock)
        → wr_full hdr s ≡ (b, s1)
        → Ends
            (Taken s buf)
            (if not b then fail s1 else exchange buf 4 s1 (write_reply (length buf)))
    written false s1 e = fail-Ends (Taken s buf) s1
    written true s1 e =
        let (out, inc, _) = wr_full-sent hdr s s1 e in
        exchange-Ends (Taken s buf) buf 4 s1 (write_reply (length buf)) (λ nb s' l (o, i, up).
          write_reply-Ends buf nb s s' l
            (o ∙ ap (λ x. x ++ buf) out ∙ append_assoc s.sent hdr buf, ap stream (sym inc) ∙ i, up))

-- Once a session is shut down every callback fails at once with an I/O error, sends nothing and
-- reads nothing.
pub callbacks_shut :
    (agreed size : ℕ) (buf : Bytes) (offset : ℤ) (whence : ℕ) (s : Sock)
    → s.shut ≡ true
    → (afio_read agreed size s ≡ (err eio, s))
      × (afio_write buf s ≡ (err eio, s))
      × (afio_seek offset whence s ≡ (err eio, s))
unfolding afio_read afio_write afio_seek exchange wr_full afio_fail
callbacks_shut agreed size buf offset whence s gone = (ground arith, ground arith, ground arith)
