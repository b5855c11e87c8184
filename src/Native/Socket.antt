-- ===== src/Native/Socket.antt =====
-- src/nativeio.c: rd_full, wr_full and afio_fail, over a model of one connected socket.
-- The peer is what the socket will deliver and accept: `incoming` holds what the reads to come will
-- find, in the pieces in which the kernel hands it over, and `accepts` how much each send to come
-- will take. An end of file, an error and a timeout are one to the code, which tests `r <= 0`.
use ffmpeg_wasi.Base.{
  ℕ, zero, suc, ◌+◌, ◌-◌, ◌≤◌, ◌<◌, ◌≡◌, refl, sym, ap, ◌∙◌, subst, Bool, true, false, List, [],
  ◌∷◌, ◌++◌, append-nil, append_assoc, ◌⊎◌, inl, inr, Option, none, some, take, drop, length,
  length-drop, if_true, if_false, Bool-cases, length-append, take-append-drop, length-take, arith,
  if◌then◌else◌,
}
use ffmpeg_wasi.Base.Text.{Bytes}

pub data Chunk : Type 0 where
  piece : Bytes → Chunk
  broken : Chunk

pub record Sock : Type 0 where
  pub incoming : List Chunk
  pub accepts : List ℕ
  pub sent : Bytes
  pub shut : Bool  -- after shutdown(fd, SHUT_RDWR)

-- What a read leaves of the piece stays first in line.
unfoldable pub put_back : Bytes → List Chunk → List Chunk
put_back [] r = r
put_back (b ∷ bs) r = piece (b ∷ bs) ∷ r

-- read(fd, _, n) with 0 < n: at most n bytes of the next piece, or `none` for r <= 0.
unfoldable pub read_some : ℕ → List Chunk → Option (Bytes × List Chunk)
read_some n [] = none
read_some n (broken ∷ r) = none
read_some n (piece [] ∷ r) = none
read_some zero (piece (b ∷ bs) ∷ r) = none
read_some (suc n) (piece (b ∷ bs) ∷ r) = some (b ∷ take n bs, put_back (drop n bs) r)

-- The bytes got so far in front of those that the further rounds get.
unfoldable pub got_before : Bytes → Option (Bytes × List Chunk) → Option (Bytes × List Chunk)
got_before bs none = none
got_before bs (some (rest, inc)) = some (bs ++ rest, inc)

-- The loop of rd_full with `n` bytes still to get; each round gets one byte at least, so `n` rounds
-- are enough.
unfoldable pub rd_loop : ℕ → ℕ → List Chunk → Option (Bytes × List Chunk)
unfolding got_before read_some put_back
rd_loop fuel zero inc = some ([], inc)
rd_loop zero (suc n) inc = none
rd_loop (suc fuel) (suc n) inc = elim (read_some (suc n) inc) [
  | none ↦ none
  | some (bs, inc') ↦ got_before bs (rd_loop fuel (suc n - length bs) inc')
]

-- On a failure the socket has lost what was read; no caller reads on from it.
unfoldable pub rd_full : ℕ → Sock → Option (Bytes × Sock)
rd_full n s = if s.shut then none else elim (rd_loop n n s.incoming) [
  | none ↦ none
  | some (bs, inc) ↦ some (bs, record s { incoming = inc })
]

-- What the reads to come can deliver before the first end of file or error.
abbrev pub stream : List Chunk → Bytes
stream [] = []
stream (broken ∷ r) = []
stream (piece [] ∷ r) = []
stream (piece (b ∷ bs) ∷ r) = b ∷ (bs ++ stream r)

stream-put_back : (bs : Bytes) (r : List Chunk) → stream (put_back bs r) ≡ bs ++ stream r
unfolding put_back
stream-put_back [] r = refl
stream-put_back (b ∷ bs) r = refl

-- What a call for `n` bytes has to answer: exactly the next n bytes of the stream, whose rest stays
-- to be read, or a failure where the stream holds fewer.
abbrev pub Reads : ℕ → List Chunk → Option (Bytes × List Chunk) → Type 0
Reads n inc none = length (stream inc) < n
Reads n inc (some (bs, inc')) = (length bs ≡ n) × (bs ++ stream inc' ≡ stream inc)

got_before-Reads :
    (n : ℕ) (bs : Bytes) (inc inc' : List Chunk) (o : Option (Bytes × List Chunk))
    → bs ++ stream inc' ≡ stream inc
    → length bs ≤ n
    → Reads (n - length bs) inc' o
    → Reads n inc (got_before bs o)
unfolding got_before
got_before-Reads n bs inc inc' none e h r =
    let l : length (stream inc) ≡ length bs + length (stream inc') =
      ap length (sym e) ∙ length-append bs (stream inc') in
    omega arith
got_before-Reads n bs inc inc' (some (rest, inc'')) e h (l, r) =
    (omega (arith, length-append bs rest), append_assoc bs rest (stream inc'') ∙ ap (◌++◌ bs) r ∙ e)

rd_loop-Reads : (fuel n : ℕ) (inc : List Chunk) → n ≤ fuel → Reads n inc (rd_loop fuel n inc)
unfolding rd_loop read_some
rd_loop-Reads fuel zero inc h = (refl, refl)
rd_loop-Reads zero (suc n) inc h = absurd (omega arith)
rd_loop-Reads (suc fuel) (suc n) [] h = omega arith
rd_loop-Reads (suc fuel) (suc n) (broken ∷ r) h = omega arith
rd_loop-Reads (suc fuel) (suc n) (piece [] ∷ r) h = omega arith
rd_loop-Reads (suc fuel) (suc n) (piece (b ∷ x) ∷ r) h =
    got_before-Reads (suc n) (b ∷ take n x) (piece (b ∷ x) ∷ r) (put_back (drop n x) r) _
      (ap (◌∷◌ b) (
        ap (◌++◌ (take n x)) (stream-put_back (drop n x) r)
        ∙ sym (append_assoc (take n x) (drop n x) (stream r))
        ∙ ap (λ y. y ++ stream r) (take-append-drop n x)))
      (omega (arith, length-take n x))
      (rd_loop-Reads fuel (suc n - length (b ∷ take n x)) (put_back (drop n x) r) (omega arith))

abbrev pub FullRead : ℕ → Sock → Option (Bytes × Sock) → Type 0
FullRead n s none = (s.shut ≡ true) ⊎ (length (stream s.incoming) < n)
FullRead n s (some (bs, s')) =
    (s.shut ≡ false)
    × (length bs ≡ n)
    × (bs ++ stream s'.incoming ≡ stream s.incoming)
    × (s'.sent ≡ s.sent)
    × (s'.accepts ≡ s.accepts)
    × (s'.shut ≡ false)

rd_full-split :
    (n : ℕ) (s : Sock) (o : Option (Bytes × List Chunk)) (b : Bool)
    → s.shut ≡ b
    → Reads n s.incoming o
    → FullRead n s (
        if b
        then none
        else elim o [ none ↦ none | some (bs, inc) ↦ some (bs, record s { incoming = inc }) ])
rd_full-split n s o true e r = inl e
rd_full-split n s none false e r = inr r
rd_full-split n s (some (bs, inc)) false e (l, r) = (e, l, r, refl, refl, e)

-- However the kernel cuts up what the peer sends, rd_full returns exactly the next n bytes of the
-- stream and leaves the bytes behind them, in order, for the next call. It fails exactly where the
-- stream ends, or the session was shut down, before n bytes.
pub rd_full-exact : (n : ℕ) (s : Sock) → FullRead n s (rd_full n s)
unfolding rd_full
rd_full-exact n s =
    rd_full-split n s (rd_loop n n s.incoming) s.shut refl
      (rd_loop-Reads n n s.incoming (omega arith))

-- A read of one byte takes the next byte of the stream.
pub next_byte :
    (c : ℕ) (cs rest all : Bytes) → length (c ∷ cs) ≡ 1 → (c ∷ cs) ++ rest ≡ all → all ≡ c ∷ rest
next_byte c [] rest all l e = sym e
next_byte c (d ∷ cs) rest all l e = absurd (omega (arith, l))

-- The loop of wr_full over the bytes still to put; each send takes one byte at least.
unfoldable pub wr_loop : ℕ → Bytes → List ℕ → Bytes → Bool × List ℕ × Bytes
wr_loop fuel [] acc out = (true, acc, out)
wr_loop zero (b ∷ bs) acc out = (false, acc, out)
wr_loop (suc fuel) (b ∷ bs) [] out = (false, [], out)
wr_loop (suc fuel) (b ∷ bs) (zero ∷ acc) out = (false, acc, out)
wr_loop (suc fuel) (b ∷ bs) (suc k ∷ acc) out =
    wr_loop fuel (drop k bs) acc (out ++ (b ∷ take k bs))

-- wr_full: whether all of `p` was sent, and the socket after it.
unfoldable pub wr_full : Bytes → Sock → Bool × Sock
wr_full p s =
    if s.shut
    then (false, s)
    else (let (done, acc, out) = wr_loop (length p) p s.accepts s.sent in
        (done, record s { accepts = acc; sent = out }))

-- A send that reports success has put all the bytes; one that fails has put a part from the front,
-- and not the whole.
abbrev pub Writes : Bytes → Bytes → Bool × List ℕ × Bytes → Type 0
Writes p out (true, _, out') = out' ≡ out ++ p
Writes p out (false, _, out') =
    (front : Bytes) × (back : Bytes) × (p ≡ front ++ back)
    × (0 < length back)
    × (out' ≡ out ++ front)

before-Writes :
    (front p out : Bytes) (o : Bool × List ℕ × Bytes)
    → Writes p (out ++ front) o
    → Writes (front ++ p) out o
before-Writes f p out (true, acc, out') e = e ∙ append_assoc out f p
before-Writes f p out (false, acc, out') (x, y, e, l, w) =
    (f ++ x, y, ap (◌++◌ f) e ∙ sym (append_assoc f x y), l, w ∙ append_assoc out f x)

wr_loop-Writes :
    (fuel : ℕ) (p : Bytes) (acc : List ℕ) (out : Bytes)
    → length p ≤ fuel
    → Writes p out (wr_loop fuel p acc out)
unfolding wr_loop
wr_loop-Writes fuel [] acc out h = sym (append-nil out)
wr_loop-Writes zero (b ∷ bs) acc out h = absurd (omega arith)
wr_loop-Writes (suc fuel) (b ∷ bs) [] out h = ([], b ∷ bs, refl, omega arith, sym (append-nil out))
wr_loop-Writes (suc fuel) (b ∷ bs) (zero ∷ acc) out h =
    ([], b ∷ bs, refl, omega arith, sym (append-nil out))
wr_loop-Writes (suc fuel) (b ∷ bs) (suc k ∷ acc) out h =
    subst (λ q. Writes q out (wr_loop fuel (drop k bs) acc (out ++ (b ∷ take k bs))))
      (ap (◌∷◌ b) (take-append-drop k bs))
      (before-Writes (b ∷ take k bs) (drop k bs) out _ (
        wr_loop-Writes fuel (drop k bs) acc (out ++ (b ∷ take k bs))
          (omega (arith, length-drop k bs))))

abbrev pub FullWrite : Bytes → Sock → Bool × Sock → Type 0
FullWrite p s (done, s') =
    Writes p s.sent (done, s'.accepts, s'.sent) × (s'.incoming ≡ s.incoming) × (s'.shut ≡ s.shut)

-- wr_full reports success exactly where all the bytes went out, in order and nothing else; on a
-- failure a proper part from the front went out. What is there to be read stays.
pub wr_full-exact : (b : ℕ) (bs : Bytes) (s : Sock) → FullWrite (b ∷ bs) s (wr_full (b ∷ bs) s)
unfolding wr_full
wr_full-exact b bs s = elim (Bool-cases s.shut) [
  | inl gone ↦
      subst (FullWrite (b ∷ bs) s) (sym (if_true _ _ gone))
        (([], b ∷ bs, refl, omega arith, sym (append-nil s.sent)), refl, refl)
  | inr open_still ↦
      subst (FullWrite (b ∷ bs) s) (sym (if_false _ _ open_still))
        (wr_loop-Writes (length (b ∷ bs)) (b ∷ bs) s.accepts s.sent (omega arith), refl, refl)
]

-- afio_fail: the session is unusable from here on.
unfoldable pub afio_fail : Sock → Sock
afio_fail s = record s { shut = true }

-- A successful send, of any bytes, the empty text included.
pub wr_full-sent :
    (p : Bytes) (s s1 : Sock)
    → wr_full p s ≡ (true, s1)
    → (s1.sent ≡ s.sent ++ p) × (s1.incoming ≡ s.incoming) × (s1.shut ≡ s.shut)
wr_full-sent [] s s1 e = unfold wr_full wr_loop in ground (arith, e, append-nil s.sent)
wr_full-sent (b ∷ bs) s s1 e = subst (FullWrite (b ∷ bs) s) e (wr_full-exact b bs s)
