-- ===== src/Native/Url/Confirmed.antt =====
-- src/nativeio.c: a file that the engine takes for moved has been asked for by its name, and the host
-- has said so.
use ffmpeg_wasi.Base.{ℕ, ◌≤◌, ◌≡◌, List, [], ◌∷◌, ◌++◌, Option, none, some}
use ffmpeg_wasi.Base.Text.{Bytes}
use ffmpeg_wasi.Native.Socket.{Sock, stream}
use ffmpeg_wasi.Native.Avio.{proto_version, proto_negotiated}
use ffmpeg_wasi.Native.Dial.{Config, Bridge, connect}
use ffmpeg_wasi.Native.Url.{frame_parts, afio_session}

abbrev pub joined : List Bytes → Bytes
joined [] = []
joined (bs ∷ bss) = bs ++ joined bss

-- All that a session sends.
abbrev pub session_bytes : Bytes → Option Bytes → ℕ → Bytes
session_bytes a b frame = (proto_version ∷ []) ++ joined (frame_parts a b frame)

abbrev IfSome : (Sock → Type 0) → Option Sock → Type 0
IfSome P none = Unit
IfSome P (some s) = P s

-- From `s` to `s'` the bytes went out, and what there is to read stays.
abbrev Sent : Sock → Bytes → Sock → Type 0
Sent s bs s' = (s'.sent ≡ s.sent ++ bs) × (s'.incoming ≡ s.incoming) × (s'.shut ≡ s.shut)

-- A session over the connected socket `c`, which has sent all of the frame, after the host has sent a
-- version that negotiates; what the host sends next is still to be read.
abbrev pub Asked : Bytes → Option Bytes → ℕ → Option Sock → Sock → Type 0
Asked a b frame c s' =
    (s : Sock) × (v : ℕ) × (c ≡ some s)
    × (s'.sent ≡ s.sent ++ session_bytes a b frame)
    × (proto_negotiated ≤ v)
    × (stream s.incoming ≡ v ∷ stream s'.incoming)

-- The session asked for the frame on the connected socket, and the next byte that its host sends is 0.
abbrev pub Confirmed : Config → Bridge → Bytes → Option Bytes → ℕ → Type 0
Confirmed cfg br a b frame =
    (s : Sock) × (rest : Bytes) × ((afio_session cfg a b frame br).0 ≡ some s)
    × Asked a b frame (connect cfg br).0 s
    × (stream s.incoming ≡ 0 ∷ rest)
