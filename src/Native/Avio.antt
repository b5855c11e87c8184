-- ===== src/Native/Avio.antt =====
-- src/nativeio.c: the callbacks afio_read, afio_write and afio_seek on an open session, and the
-- afmpeg_url_read, _write, _seek that call them. `agreed` is afio_agreed. The buffer that a read
-- fills is its result.
pub mod Errors
pub mod Exchange
use ffmpeg_wasi.Base.{
  ℕ, ◌+◌, ◌-◌, ◌/◌, ◌%◌, ◌^◌, ◌≡◌, Bool, true, false, not, ◌&&◌, ◌||◌, List, [], ◌∷◌, ◌++◌, Option,
  none, some, length, ltb, leb, ◌==◌, if◌then◌else◌,
}
use ffmpeg_wasi.Base.Int.{ℤ, pos, negsuc}
use ffmpeg_wasi.Base.Text.{Bytes}
use ffmpeg_wasi.Av.{Result, ok, err, eio, eof}
use ffmpeg_wasi.Native.Codec.{put32, put64, get32, get64}
use ffmpeg_wasi.Native.Socket.{Sock, rd_full, wr_full, afio_fail}

-- AFIO_PROTO_VERSION, AFIO_PROTO_NEGOTIATED, AFIO_PROTO_MIN
abbrev pub proto_version : ℕ
proto_version = 2

abbrev pub proto_negotiated : ℕ
proto_negotiated = 2

abbrev pub proto_min : ℕ
proto_min = 1

abbrev pub fail {ℓ} : {A : Type ℓ} → Sock → Result A × Sock
fail s = (err eio, afio_fail s)

-- A frame out, then `n` bytes of reply in, then `k`; a failure of either ends the session.
unfoldable pub exchange {ℓ} :
    {A : Type ℓ} → Bytes → ℕ → Sock → (Bytes → Sock → Result A × Sock) → Result A × Sock
exchange req n s k =
    let (sent, s1) = wr_full req s in
    if not sent
    then fail s1
    else elim (rd_full n s1) [ none ↦ fail s1 | some (reply, s2) ↦ k reply s2 ]

-- What afio_read does with the count of the reply.
unfoldable pub read_reply : ℕ → ℕ → Bytes → Sock → Result Bytes × Sock
read_reply agreed size nb s =
    let n = get32 nb in
    if leb proto_negotiated agreed && leb (2 ^ 31) n
    then fail s
    else if n == 0
    then (err eof, s)
    else if ltb size n
    then fail s
    else elim (rd_full n s) [ none ↦ fail s | some (buf, s') ↦ (ok buf, s') ]

unfoldable pub afio_read : ℕ → ℕ → Sock → Result Bytes × Sock
afio_read agreed size s = exchange (b'R' ∷ put32 size) 4 s (read_reply agreed size)

unfoldable pub write_reply : ℕ → Bytes → Sock → Result ℕ × Sock
write_reply size nb s = let w = get32 nb in if not (w == size) then fail s else (ok w, s)

-- The two wr_full calls of afio_write, for the header and for the data, send one after the other;
-- a failed first call leaves the second out.
unfoldable pub afio_write : Bytes → Sock → Result ℕ × Sock
afio_write buf s =
    let (sent, s1) = wr_full (b'W' ∷ put32 (length buf)) s in
    if not sent then fail s1 else exchange buf 4 s1 (write_reply (length buf))

-- AVSEEK_SIZE and AVSEEK_FORCE of libavformat.
abbrev pub avseek_size : ℕ
avseek_size = 0x10000

abbrev pub avseek_force : ℕ
avseek_force = 0x20000

-- `whence &= ~AVSEEK_FORCE`
abbrev pub clear_force : ℕ → ℕ
clear_force w = if w / avseek_force % 2 == 1 then w - avseek_force else w

-- `(uint64_t)offset` and `(int64_t)get64(b)`
abbrev pub to_u64 : ℤ → ℕ
to_u64 (pos n) = n
to_u64 (negsuc n) = 2 ^ 64 - 1 - n

abbrev pub of_u64 : ℕ → ℤ
of_u64 w = if ltb w (2 ^ 63) then pos w else negsuc (2 ^ 64 - 1 - w)

unfoldable pub afio_seek : ℤ → ℕ → Sock → Result ℤ × Sock
afio_seek offset whence s =
    if whence == avseek_size
    then exchange (b'Z' ∷ []) 8 s (λ sz s'. (ok (of_u64 (get64 sz)), s'))
    else exchange (b'S' ∷ (put64 (to_u64 offset) ++ (clear_force whence % 256 ∷ []))) 8 s
        (λ off s'. (ok (of_u64 (get64 off)), s'))
