-- ===== src/Native/Tests.antt =====
-- Concrete sessions: one file of three bytes on a host whose answers come in pieces, and two hosts at
-- the handshake.
use ffmpeg_wasi.Base.{
  ℕ, ◌+◌, ◌≤◌, ◌≡◌, ◌⊎◌, refl, true, false, List, [], ◌∷◌, ◌++◌, Option, none, some, length, arith,
  all,
}
use ffmpeg_wasi.Base.Int.{pos}
use ffmpeg_wasi.Base.Text.{Bytes, codes}
use ffmpeg_wasi.Av.{ok, err, einval}
use ffmpeg_wasi.Native.Codec.{put32}
use ffmpeg_wasi.Native.Socket.{
  piece, Sock, put_back, read_some, got_before, rd_loop, rd_full, wr_loop, wr_full, FullRead,
  rd_full-exact,
}
use ffmpeg_wasi.Native.Avio.{afio_read, afio_write, afio_seek, proto_min}
use ffmpeg_wasi.Native.Avio.Errors.{Ends, Filled, Taken, Positioned, callbacks-Ends}
use ffmpeg_wasi.Native.Avio.Exchange.{InStep, afio_read-delivers}
use ffmpeg_wasi.Native.Dial.{
  Config, Bridge, opened, greet, open_frame, set_timeouts, timeout_of, afio_dial,
}
use ffmpeg_wasi.Native.Dial.Degrade.{dial_all, IsSilent, CanDial, dial_all-degraded}
use ffmpeg_wasi.Native.Dial.Opened.{greet-opened, open_request, Answered}
use ffmpeg_wasi.Native.Concat.{playlist, concat_name_is_safe}
use ffmpeg_wasi.Native.Concat.Reading.{segments_of, lines, playlist-segments}

-- A host that answers a read with a count and three bytes, and has one more byte behind them.
abbrev host : Sock
host = record {
  incoming = piece (3 ∷ 0 ∷ []) ∷ piece (0 ∷ 0 ∷ 7 ∷ []) ∷ piece (8 ∷ 9 ∷ 4 ∷ []) ∷ [];
  accepts = 2 ∷ 3 ∷ [];
  sent = [];
  shut = false;
}

abbrev host_asked : Sock
host_asked = record host { accepts = []; sent = b'R' ∷ 16 ∷ 0 ∷ 0 ∷ 0 ∷ [] }

asked : wr_full (b'R' ∷ put32 16) host ≡ (true, host_asked)
unfolding wr_full wr_loop put32
asked = refl

afio_read-delivers_example :
    (s' : Sock) × (afio_read 2 16 host ≡ (ok (7 ∷ 8 ∷ 9 ∷ []), s'))
    × InStep host (b'R' ∷ put32 16) (4 ∷ []) s'
unfolding put32
afio_read-delivers_example =
    afio_read-delivers 2 16 (7 ∷ 8 ∷ 9 ∷ []) (4 ∷ []) host host_asked refl asked refl (omega arith)
      (omega arith) (omega arith)

rd_full-exact_example : FullRead 4 host (rd_full 4 host)
rd_full-exact_example = rd_full-exact 4 host

callbacks-Ends_example :
    Ends (Filled host 16) (afio_read 2 16 host)
    × Ends (Taken host (5 ∷ [])) (afio_write (5 ∷ []) host)
    × Ends (Positioned host (pos 9) 0) (afio_seek (pos 9) 0 host)
callbacks-Ends_example = callbacks-Ends 2 16 (5 ∷ []) (pos 9) 0 host

-- A host that knows version 1 only: the first connection closes, the second opens the file.
abbrev config : Config
config = record { socket = some (codes "/run/host"); timeout = none; sun_path_size = 108 }

abbrev silent : Sock
silent = record { incoming = []; accepts = 1 ∷ []; sent = []; shut = false }

-- A host of version 1 that opens the file.
abbrev willing : Option Sock
willing =
    some
      (record { incoming = piece (0 ∷ []) ∷ []; accepts = 1 ∷ 6 ∷ 5 ∷ []; sent = []; shut = false })

abbrev old_host : Bridge
old_host = record { announce = 2; agreed = 2; conns = some silent ∷ willing ∷ willing ∷ [] }

old_host_silent : IsSilent 2 silent
unfolding wr_full wr_loop
old_host_silent = (refl, refl)

can_dial : CanDial config
unfolding set_timeouts timeout_of
can_dial = (codes "/run/host", pos 120, refl, refl, omega arith)

dial_all-degraded_example :
    let files : List (Bytes × ℕ) = (codes "b.mkv", 0) ∷ [] in
    let v1 : Bridge = record old_host { announce = proto_min; conns = willing ∷ willing ∷ [] } in
    (afio_dial config (codes "a.mkv") 0 old_host ≡ afio_dial config (codes "a.mkv") 0 v1)
    × (dial_all config ((codes "a.mkv", 0) ∷ files) old_host
        ≡ dial_all config ((codes "a.mkv", 0) ∷ files) v1)
    × ((dial_all config ((codes "a.mkv", 0) ∷ files) old_host).announce ≡ proto_min)
    × (2 ≤ length (dial_all config ((codes "a.mkv", 0) ∷ files) old_host).conns + 2)
dial_all-degraded_example =
    dial_all-degraded config old_host silent (willing ∷ willing ∷ []) can_dial refl (omega arith)
      old_host_silent (codes "a.mkv") 0 ((codes "b.mkv", 0) ∷ [])

-- A host that answers version 2 and opens the file.
abbrev new_host : Sock
new_host = record {
  incoming = piece (2 ∷ 0 ∷ []) ∷ [];
  accepts = 1 ∷ 6 ∷ 5 ∷ [];
  sent = [];
  shut = false;
}

abbrev new_session : Sock
new_session = record {
  incoming = [];
  accepts = [];
  sent = 2 ∷ 79 ∷ 0 ∷ 5 ∷ 0 ∷ 0 ∷ 0 ∷ 97 ∷ 46 ∷ 109 ∷ 107 ∷ 118 ∷ [];
  shut = false;
}

greeted : greet (codes "a.mkv") 0 2 new_host ≡ (opened new_session, some 2)
unfolding greet open_frame wr_full wr_loop rd_full rd_loop read_some put_back got_before put32
greeted = refl

greet-opened_example :
    (agreed : ℕ) × (some 2 ≡ some agreed)
    × (proto_min ≤ agreed)
    × (agreed ≤ 2)
    × (new_session.sent ≡ [] ++ (2 ∷ open_request (codes "a.mkv") 0))
    × Answered 2 agreed new_host new_session
    × (new_session.shut ≡ false)
greet-opened_example =
    greet-opened (codes "a.mkv") 0 2 new_host new_session (some 2) (omega arith) greeted

-- Two segments, one with a quote in its name.
abbrev two_segments : List Bytes
two_segments = codes "it's.mp4" ∷ codes "b.mp4" ∷ []

playlist-segments_example :
    ((all concat_name_is_safe two_segments ≡ true)
      × (text : Bytes) × (playlist two_segments ≡ ok (length text, text))
      × (segments_of (lines text) ≡ two_segments))
    ⊎ ((all concat_name_is_safe two_segments ≡ false) × (playlist two_segments ≡ err einval))
playlist-segments_example = playlist-segments two_segments
