-- ===== src/Native/Files.antt =====
-- src/nativeio.c: the files that go over the bridge in one piece or by an AVIO context: afio_ipc_open,
-- afio_ipc_close, mux_io_open, mux_io_close, afio_open_output, afio_close_output and afio_write_file.
-- Calls is what they call, on the state S of the sessions, the AVIO contexts and the C library's files;
-- that an allocation fails is left out.
mod Tests
pub mod Reported
use ffmpeg_wasi.Base.{
  ℕ, ◌-◌, ◌^◌, Bool, true, false, not, ◌||◌, Option, none, some, ltb, ◌==◌, if◌then◌else◌, length,
}
use ffmpeg_wasi.Base.Text.{Bytes}
use ffmpeg_wasi.Av.{AvError, eio, einval, Result, ok, err}

-- A context is known by its session's descriptor.
pub record Calls (S : Type 0) : Type 0 where
  pub dial : Bytes → ℕ → S → Option ℕ × S  -- afio_dial
  pub avio_write : ℕ → Bytes → S → S
  pub avio_flush : ℕ → S → S
  pub pb_error : ℕ → S → Option AvError  -- `pb->error`, if it is negative
  pub send_close : ℕ → S → Bool × S  -- wr_full of the Close frame
  pub close : ℕ → S → S
  pub avio_open : Bytes → S → Result ℕ × S
  pub avio_closep : ℕ → S → S
  pub fopen : Bytes → S → Bool × S
  pub fwrite : Bytes → S → ℕ × S
  pub fclose : S → Bool × S

-- INT_MAX, the most that avio_write takes.
abbrev pub max_length : ℕ
max_length = 2 ^ 31 - 1

module _ {S : Type 0} (io : Calls S) where
  -- `none` is NULL.
  unfoldable pub afio_ipc_open : Bytes → Bool → S → Option ℕ × S
  afio_ipc_open name write w = io.dial name (if write then b'w' else b'r') w

  -- What the final flush recorded, or else the failure of the Close frame.
  abbrev pub close_code : Option AvError → Bool → Option AvError
  close_code (some code) sent = some code
  close_code none sent = if sent then none else some eio

  -- The answer is the code, `none` for 0.
  unfoldable pub afio_ipc_close : ℕ → S → Option AvError × S
  afio_ipc_close fd w =
      let flushed = io.avio_flush fd w in
      let (sent, w1) = io.send_close fd flushed in
      (close_code (io.pb_error fd flushed) sent, io.close fd w1)

  -- The child files of a muxer.
  abbrev pub context_or : AvError → Option ℕ × S → Result ℕ × S
  context_or code (none, w) = (err code, w)
  context_or code (some fd, w) = (ok fd, w)

  unfoldable pub mux_io_open : Bytes → Bool → S → Result ℕ × S
  unfolding afio_ipc_open
  mux_io_open url write w = context_or eio (afio_ipc_open url write w)

  unfoldable pub mux_io_close : ℕ → S → Option AvError × S
  unfolding afio_ipc_close
  mux_io_close fd w = afio_ipc_close fd w

  -- The output of a muxer; `active` is afio_active().
  unfoldable pub afio_open_output : Bool → Bytes → S → Result ℕ × S
  unfolding afio_ipc_open
  afio_open_output true path w = context_or eio (afio_ipc_open path true w)
  afio_open_output false path w = io.avio_open path w

  unfoldable pub afio_close_output : Bool → Option ℕ → S → S
  unfolding afio_ipc_close
  afio_close_output active none w = w
  afio_close_output true (some fd) w = (afio_ipc_close fd w).1
  afio_close_output false (some fd) w = io.avio_closep fd w

  -- The first of two codes.
  abbrev pub first_code : Option AvError → Option AvError → Option AvError
  first_code none code = code
  first_code (some code) _ = some code

  abbrev pub write_bridged : Bytes → Option ℕ × S → Option AvError × S
  write_bridged bytes (none, w) = (some eio, w)
  write_bridged bytes (some fd, w) =
      if ltb max_length (length bytes)
      then (some einval, w)
      else (let written = io.avio_write fd bytes w in
          let (code, w1) = afio_ipc_close fd written in
          (first_code (io.pb_error fd written) code, w1))

  abbrev pub write_plain : Bytes → Bool × S → Option AvError × S
  write_plain bytes (false, w) = (some eio, w)
  write_plain bytes (true, w) =
      let (put, w1) = io.fwrite bytes w in
      let (closed, w2) = io.fclose w1 in
      (if not (put == length bytes) || not closed then some eio else none, w2)

  unfoldable pub afio_write_file : Bool → Bytes → Bytes → S → Option AvError × S
  unfolding afio_ipc_open afio_ipc_close
  afio_write_file true path bytes w = write_bridged bytes (afio_ipc_open path true w)
  afio_write_file false path bytes w = write_plain bytes (io.fopen path w)
