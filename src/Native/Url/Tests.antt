-- ===== src/Native/Url/Tests.antt =====
-- A host that moves a file, for src/nativeio.c.
use ffmpeg_wasi.Base.{false, none, [], ◌∷◌, some}
use ffmpeg_wasi.Base.Text.{codes}
use ffmpeg_wasi.Native.Socket.{piece}
use ffmpeg_wasi.Native.Dial.{Config, Bridge}
use ffmpeg_wasi.Native.Url.Confirmed.{Confirmed}

abbrev config : Config
config = record { socket = some (codes "/run/host"); timeout = none; sun_path_size = 108 }

-- The host agrees on version 2 and answers 0.
abbrev mover : Bridge
mover = record {
  announce = 2;
  agreed = 2;
  conns =
      some (record {
        incoming = piece (2 ∷ 0 ∷ []) ∷ [];
        accepts = 1 ∷ 1 ∷ 4 ∷ 1 ∷ 4 ∷ 1 ∷ [];
        sent = [];
        shut = false;
      })
      ∷ [];
}
