-- ===== src/Native/Url.antt =====
-- src/nativeio.c: the sessions that answer and end (afio_session, with the Move and Exists frames), and
-- the URL layer that libav's file protocol calls: afmpeg_url_open, _check, _move, _delete.
mod Tests
pub mod Confirmed
use ffmpeg_wasi.Base.{
  ◌%◌, ℕ, Bool, true, false, not, ◌&&◌, List, [], ◌∷◌, ◌++◌, Option, none, some, length, ltb, ◌==◌,
  if◌then◌else◌, take, drop,
}
use ffmpeg_wasi.Base.Text.{Bytes, codes, streq}
use ffmpeg_wasi.Av.{Result, ok, err, einval, eio, enoent, enosys}
use ffmpeg_wasi.Native.Codec.{put32}
use ffmpeg_wasi.Native.Socket.{Sock, rd_full, wr_full}
use ffmpeg_wasi.Native.Avio.{proto_version, proto_negotiated}
use ffmpeg_wasi.Native.Dial.{Config, Bridge, connect, afio_dial}

-- A chain of sends: `none` as soon as one fails.
abbrev pub on_sent : (Sock → Option Sock) → Bool × Sock → Option Sock
on_sent k (false, s) = none
on_sent k (true, s) = k s

unfoldable pub send_all : List Bytes → Sock → Option Sock
send_all [] s = some s
send_all (bs ∷ bss) s = on_sent (send_all bss) (wr_full bs s)

-- A name, as a frame carries it; the second one is `none` for NULL.
abbrev pub named : Bytes → List Bytes
named a = put32 (length a) ∷ a ∷ []

abbrev pub second_name : Option Bytes → List Bytes
second_name none = []
second_name (some b) = named b

-- What is sent for a frame: its letter, then its names.
abbrev pub frame_parts : Bytes → Option Bytes → ℕ → List Bytes
frame_parts a b frame = (frame ∷ []) ∷ named a ++ second_name b

-- The host's answer to the version, and the frame.
abbrev pub answered :
    Bytes → Option Bytes → ℕ → Bridge → Option (Bytes × Sock) → Option Sock × Bridge
answered a b frame br none = (none, br)
answered a b frame br (some ([], s)) = (none, br)
answered a b frame br (some (agreed ∷ _, s)) =
    if ltb agreed proto_negotiated
    then (none, br)
    else (send_all (frame_parts a b frame) s, record br { agreed = agreed })

abbrev pub announced : Bytes → Option Bytes → ℕ → Bridge → Bool × Sock → Option Sock × Bridge
announced a b frame br (false, s) = (none, br)
announced a b frame br (true, s) = answered a b frame br (rd_full 1 s)

abbrev pub session_on : Bytes → Option Bytes → ℕ → Option Sock × Bridge → Option Sock × Bridge
session_on a b frame (none, br) = (none, br)
session_on a b frame (some s, br) = announced a b frame br (wr_full (proto_version ∷ []) s)

unfoldable pub afio_session : Config → Bytes → Option Bytes → ℕ → Bridge → Option Sock × Bridge
afio_session cfg a b frame br = session_on a b frame (connect cfg br)

-- The name without libav's prefix.
unfoldable pub host_name : Bytes → Bytes
host_name s = if streq (take 5 s) (codes "file:") then drop 5 s else s

-- The session of a file, or an error.
abbrev pub file_session : Option Sock × Bridge → Result Sock × Bridge
file_session (none, br) = (err enoent, br)
file_session (some s, br) = (ok s, br)

-- `writes` is whether AVIO_FLAG_WRITE is among the flags; `none` for a NULL name.
unfoldable pub afmpeg_url_open : Config → Option Bytes → Bool → Bridge → Result Sock × Bridge
afmpeg_url_open cfg none writes br = (err einval, br)
afmpeg_url_open cfg (some name) writes br =
    file_session (afio_dial cfg (host_name name) (if writes then b'w' else b'r') br)

-- What the host answers to Exists: nine bytes, of which the first is 0 if there is such a file. The
-- code then answers with `mask & (AVIO_FLAG_READ | AVIO_FLAG_WRITE)`, the two lowest bits.
abbrev pub exists_in : ℕ → Option (Bytes × Sock) → Result ℕ
exists_in mask none = err eio
exists_in mask (some ([], s)) = err eio
exists_in mask (some (st ∷ _, s)) = if st == 0 then ok (mask % 4) else err enoent

abbrev pub checked : ℕ → Option Sock × Bridge → Result ℕ × Bridge
checked mask (none, br) = (err eio, br)
checked mask (some s, br) = (exists_in mask (rd_full 9 s), br)

unfoldable pub afmpeg_url_check : Config → Option Bytes → ℕ → Bridge → Result ℕ × Bridge
afmpeg_url_check cfg none mask br = (err einval, br)
afmpeg_url_check cfg (some name) mask br =
    checked mask (afio_session cfg (host_name name) none b'E' br)

-- What the host answers to Move: one byte, 0 if the file has been moved.
abbrev pub moved_in : Option (Bytes × Sock) → Result (Unit {0})
moved_in none = err eio
moved_in (some ([], s)) = err eio
moved_in (some (st ∷ _, s)) = if st == 0 then ok tt else err eio

abbrev pub moved : Option Sock × Bridge → Result (Unit {0}) × Bridge
moved (none, br) = (err eio, br)
moved (some s, br) = (moved_in (rd_full 1 s), br)

unfoldable pub afmpeg_url_move :
    Config → Option Bytes → Option Bytes → Bridge → Result (Unit {0}) × Bridge
afmpeg_url_move cfg none dst br = (err einval, br)
afmpeg_url_move cfg (some src) none br = (err einval, br)
afmpeg_url_move cfg (some src) (some dst) br =
    moved (afio_session cfg (host_name src) (some (host_name dst)) b'M' br)

unfoldable pub afmpeg_url_delete : Option Bytes → Result (Unit {0})
afmpeg_url_delete name = err enosys
