-- ===== src/Native/Files/Reported.antt =====
-- src/nativeio.c: what a file that was reported as written has gone through, and the sessions it leaves.
use ffmpeg_wasi.Base.{
  ◌≡◌, refl, ap, ◌∙◌, ℕ, ◌+◌, ◌-◌, ◌≤◌, Bool, true, false, Option, none, some, arith, ltb, length,
  if_elim, if◌then◌else◌,
}
use ffmpeg_wasi.Base.Text.{Bytes}
use ffmpeg_wasi.Av.{AvError, einval}
use ffmpeg_wasi.Native.Files.{
  Calls, max_length, afio_ipc_open, afio_ipc_close, close_code, first_code, write_bridged,
  afio_write_file,
}

-- A dial that answers with a descriptor has begun a session.
abbrev pub begun : Option ℕ → ℕ
begun none = 0
begun (some fd) = 1

-- `sessions` counts the open sessions: only a dial begins one and only a close ends it.
pub record IsCalls {S : Type 0} (io : Calls S) (sessions : S → ℕ) : Type 0 where
  pub dial-sessions :
      (name : Bytes) (mode : ℕ) (w : S)
      → sessions (io.dial name mode w).1 ≡ sessions w + begun (io.dial name mode w).0
  pub write-sessions :
      (fd : ℕ) (bytes : Bytes) (w : S) → sessions (io.avio_write fd bytes w) ≡ sessions w
  pub flush-sessions : (fd : ℕ) (w : S) → sessions (io.avio_flush fd w) ≡ sessions w
  pub send-sessions : (fd : ℕ) (w : S) → sessions (io.send_close fd w).1 ≡ sessions w
  pub close-sessions : (fd : ℕ) (w : S) → sessions (io.close fd w) ≡ sessions w - 1

module _ {S : Type 0} (io : Calls S) (sessions : S → ℕ) (laws : IsCalls io sessions) where
  -- Every byte was handed to a context that had no error then, nor when it was flushed, and the host was
  -- told that the file is closed.
  abbrev pub Delivered : Bytes → ℕ → S → Type 0
  Delivered bytes fd w =
      let written = io.avio_write fd bytes w in
      let flushed = io.avio_flush fd written in
      (length bytes ≤ max_length)
      × (io.pb_error fd written ≡ none)
      × (io.pb_error fd flushed ≡ none)
      × ((io.send_close fd flushed).0 ≡ true)

  -- A session that is left open.
  abbrev pub left : Bytes → Option ℕ → ℕ
  left bytes o = if ltb max_length (length bytes) then begun o else 0

  afio_ipc_close-sessions : (fd : ℕ) (w : S) → sessions (afio_ipc_close io fd w).1 ≡ sessions w - 1
  unfolding afio_ipc_close
  afio_ipc_close-sessions fd w =
      laws.close-sessions fd (io.send_close fd (io.avio_flush fd w)).1
      ∙ ap (◌- 1) (laws.send-sessions fd (io.avio_flush fd w) ∙ laws.flush-sessions fd w)

  first_code-none : (a b : Option AvError) → first_code io a b ≡ none → (a ≡ none) × (b ≡ none)
  first_code-none none b e = (refl, e)
  first_code-none (some code) b e = absurd (ground (arith, e))

  close_code-none :
      (a : Option AvError) (sent : Bool) → close_code io a sent ≡ none → (a ≡ none) × (sent ≡ true)
  close_code-none none true e = (refl, refl)
  close_code-none none false e = absurd (ground (arith, e))
  close_code-none (some code) sent e = absurd (ground (arith, e))

  afio_ipc_close-none :
      (fd : ℕ) (w : S)
      → (afio_ipc_close io fd w).0 ≡ none
      → (io.pb_error fd (io.avio_flush fd w) ≡ none)
        × ((io.send_close fd (io.avio_flush fd w)).0 ≡ true)
  unfolding afio_ipc_close
  afio_ipc_close-none fd w e =
      close_code-none (io.pb_error fd (io.avio_flush fd w))
        (io.send_close fd (io.avio_flush fd w)).0 e

  -- What is said of an answer, of the state `w` before and of the context, if there is one.
  abbrev pub Reported : Bytes → S → Option ℕ × S → Option AvError × S → Type 0
  Reported bytes w opened r =
      (r.0 ≡ none → (fd : ℕ) × (opened.0 ≡ some fd) × Delivered bytes fd opened.1)
      × (sessions r.1 ≡ sessions w + left bytes opened.0)

  left-none : (bytes : Bytes) → left bytes none ≡ 0
  left-none bytes = if_elim (λ n. n ≡ 0) (ltb max_length (length bytes)) 0 0 (λ e. refl) (λ e. refl)

  write_bridged-Reported :
      (bytes : Bytes) (w : S) (opened : Option ℕ × S)
      → sessions opened.1 ≡ sessions w + begun opened.0
      → Reported bytes w opened (write_bridged io bytes opened)
  write_bridged-Reported bytes w (none, w1) h =
      ((λ e. absurd (ground (arith, e))), omega (arith, h, left-none bytes))
  write_bridged-Reported bytes w (some fd, w1) h =
      let written = io.avio_write fd bytes w1 in
      if_elim (Reported bytes w (some fd, w1)) (ltb max_length (length bytes)) (some einval, w1)
        (
          first_code io (io.pb_error fd written) (afio_ipc_close io fd written).0,
          (afio_ipc_close io fd written).1,
        )
        (λ e. ((λ n. absurd (ground (arith, n))), ground (arith, h, e)))
        (λ e. (
          (λ n.
              let (p, q) =
                first_code-none (io.pb_error fd written) (afio_ipc_close io fd written).0 n in
              let (f, s) = afio_ipc_close-none fd written q in
              (fd, refl, (ground (arith, e), p, f, s))),
          ground (arith, h, e, afio_ipc_close-sessions fd written, laws.write-sessions fd bytes w1),
        ))

  -- Where a file that goes over the bridge is reported as written, its session was begun, all of its
  -- bytes were handed to it without an error, which then were flushed without one, and the host was told
  -- that it is closed. Whatever is reported, the session is ended, but where there are more bytes than
  -- INT_MAX: it is then left open.
  pub afio_write_file-Reported :
      (path bytes : Bytes) (w : S)
      → Reported bytes w (afio_ipc_open io path true w) (afio_write_file io true path bytes w)
  unfolding afio_write_file afio_ipc_open
  afio_write_file-Reported path bytes w =
      write_bridged-Reported bytes w (io.dial path b'w' w) (laws.dial-sessions path b'w' w)
