-- ===== src/Native/Dial.antt =====
-- src/nativeio.c: how a session begins. afio_set_timeouts, afio_dial_at, afio_dial, afio_session
-- and the version that they negotiate. The host is the list of the connections to come.
pub mod Degrade
pub mod Opened
use ffmpeg_wasi.Base.{
  ℕ, zero, suc, ◌+◌, ◌≡◌, Bool, true, false, not, ◌&&◌, ◌||◌, List, [], ◌∷◌, ◌++◌, Option, none,
  some, length, ltb, leb, ◌==◌, if◌then◌else◌,
}
use ffmpeg_wasi.Base.Int.{ℤ, pos, ltb_ℤ, leb_ℤ}
use ffmpeg_wasi.Base.Text.{Bytes, streq}
use ffmpeg_wasi.Base.Number.{strto, long_min, long_max}
use ffmpeg_wasi.Av.{Result, ok, err, einval}
use ffmpeg_wasi.Native.Codec.{put32}
use ffmpeg_wasi.Native.Socket.{Sock, rd_full, wr_full}
use ffmpeg_wasi.Native.Avio.{proto_version, proto_negotiated, proto_min}

-- AFIO_TIMEOUT_SECS
abbrev pub timeout_secs : ℤ
timeout_secs = pos 120

-- The value of AFMPEG_NATIVE_TIMEOUT that afio_set_timeouts settles on.
unfoldable pub timeout_of : Option Bytes → ℤ
timeout_of none = timeout_secs
timeout_of (some []) = timeout_secs
timeout_of (some (c ∷ s)) = elim (strto long_min long_max (c ∷ s)) [
  | none ↦ timeout_secs
  | some p ↦ if streq p.rest [] && leb_ℤ (pos 0) p.value then p.value else timeout_secs
]

-- afio_set_timeouts: the deadline that is put on the socket, in seconds.
unfoldable pub set_timeouts : Option Bytes → Result ℤ
unfolding timeout_of
set_timeouts env = if leb_ℤ (timeout_of env) (pos 0) then err einval else ok (timeout_of env)

-- The environment of the process: AFMPEG_NATIVE_SOCKET, AFMPEG_NATIVE_TIMEOUT, and the size of
-- `sun_path` on the platform.
pub record Config : Type 0 where
  pub socket : Option Bytes
  pub timeout : Option Bytes
  pub sun_path_size : ℕ

-- The two statics, and the connections that socket() and connect() will give, `none` for a failure
-- of either.
pub record Bridge : Type 0 where
  pub announce : ℕ
  pub agreed : ℕ
  pub conns : List (Option Sock)

-- The part that both kinds of session begin with, up to the connected socket.
unfoldable pub connect : Config → Bridge → Option Sock × Bridge
connect cfg b = elim cfg.socket [
  | none ↦ (none, b)
  | some path ↦ elim (set_timeouts cfg.timeout) [
    | err e ↦ (none, b)
    | ok secs ↦
        if leb cfg.sun_path_size (length path)
        then (none, b)
        else elim b.conns [ [] ↦ (none, b) | c ∷ cs ↦ (c, record b { conns = cs }) ]
  ]
]

-- How one attempt ends: -1, no answer to the preamble, or the socket after the host's 0.
pub data Attempt : Type 0 where
  refused unanswered : Attempt
  opened : Sock → Attempt

-- The Open frame and the host's status.
unfoldable pub open_frame : Bytes → ℕ → Sock → Attempt
open_frame name mode s =
    let (sent, s1) = wr_full (b'O' ∷ mode ∷ put32 (length name)) s in
    if not sent
    then refused
    else (let (named, s2) = wr_full name s1 in
        if not named then refused else elim (rd_full 1 s2) [
          | none ↦ refused
          | some ([], s3) ↦ refused
          | some (st ∷ _, s3) ↦ if not (st == 0) then refused else opened s3
        ])

-- The preamble on a connected socket, the host's answer from version 2 on, and the Open frame.
-- The second result is the new afio_agreed, if it is set.
unfoldable pub greet : Bytes → ℕ → ℕ → Sock → Attempt × Option ℕ
unfolding open_frame
greet name mode ver s =
    let (sent, s1) = wr_full (ver ∷ []) s in
    if not sent
    then (refused, none)
    else if leb proto_negotiated ver
    then elim (rd_full 1 s1) [
      | none ↦ (unanswered, none)
      | some ([], s2) ↦ (unanswered, none)
      | some (agreed ∷ _, s2) ↦
          if ltb agreed proto_min || ltb ver agreed
          then (refused, none)
          else (open_frame name mode s2, some agreed)
    ]
    else (open_frame name mode s1, some ver)

abbrev pub agree : Bridge → Option ℕ → Bridge
agree b none = b
agree b (some v) = record b { agreed = v }

-- afio_dial_at without its fallback.
unfoldable pub attempt : Config → Bytes → ℕ → ℕ → Bridge → Attempt × Bridge
unfolding connect greet
attempt cfg name mode announce b =
    let (c, b') = connect cfg (record b { announce = announce }) in
    elim c [
      | none ↦ (refused, b')
      | some s ↦ let (a, v) = greet name mode announce s in (a, agree b' v)
    ]

abbrev pub session_of : Attempt × Bridge → Option Sock × Bridge
session_of (opened s, b) = (some s, b)
session_of (refused, b) = (none, b)
session_of (unanswered, b) = (none, b)

-- The recursive call of afio_dial_at, at version 1, where an answer is never waited for.
abbrev pub fall_back : Config → Bytes → ℕ → Attempt × Bridge → Option Sock × Bridge
fall_back cfg name mode (unanswered, b) = session_of (attempt cfg name mode proto_min b)
fall_back cfg name mode (refused, b) = (none, b)
fall_back cfg name mode (opened s, b) = (some s, b)

unfoldable pub afio_dial_at : Config → Bytes → ℕ → ℕ → Bridge → Option Sock × Bridge
unfolding attempt
afio_dial_at cfg name mode announce b = fall_back cfg name mode (attempt cfg name mode announce b)

unfoldable pub afio_dial : Config → Bytes → ℕ → Bridge → Option Sock × Bridge
unfolding afio_dial_at
afio_dial cfg name mode b = afio_dial_at cfg name mode b.announce b
