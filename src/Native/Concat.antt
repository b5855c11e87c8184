-- ===== src/Native/Concat.antt =====
-- src/nativeio.c: the playlist that afio_open_concat_ipc builds for the concat demuxer and the
-- memory source that it is read from. The demuxer itself is libav's: what it makes of a playlist is
-- described in Concat/Reading. `text` is the buffer up to its terminating NUL.
pub mod Reading
pub mod Memory
use ffmpeg_wasi.Base.{
  ℕ, ◌+◌, ◌≡◌, Bool, true, false, not, ◌&&◌, ◌||◌, List, [], ◌∷◌, ◌++◌, ◌==◌, if◌then◌else◌, length,
  all,
}
use ffmpeg_wasi.Base.Text.{Bytes, codes}
use ffmpeg_wasi.Av.{Result, ok, err, einval}

-- The bytes ', \, line feed and carriage return.
abbrev pub quote : ℕ
quote = 39

abbrev pub backslash : ℕ
backslash = 92

abbrev pub line_feed : ℕ
line_feed = 10

abbrev pub carriage_return : ℕ
carriage_return = 13

unfoldable pub concat_quote_len : Bytes → ℕ
concat_quote_len [] = 0
concat_quote_len (c ∷ s) = (if c == quote || c == backslash then 4 else 1) + concat_quote_len s

-- The bytes that concat_quote writes; the count that it returns is their number.
unfoldable pub concat_quote : Bytes → Bytes
concat_quote [] = []
concat_quote (c ∷ s) =
    let rest = concat_quote s in
    if c == quote || c == backslash then quote ∷ backslash ∷ c ∷ quote ∷ rest else c ∷ rest

unfoldable pub concat_name_is_safe : Bytes → Bool
concat_name_is_safe s = all (λ c. not (c == line_feed)) s && all (λ c. not (c == carriage_return)) s

-- "ffconcat version 1.0\n"
abbrev pub header : Bytes
header = codes "ffconcat version 1.0" ++ (line_feed ∷ [])

abbrev pub file_open : Bytes
file_open = codes "file '"

abbrev pub file_close : Bytes
file_close = quote ∷ line_feed ∷ []

-- The first loop: the size of the text, or -EINVAL at the first name that is not safe.
unfoldable pub playlist_len : ℕ → List Bytes → Result ℕ
playlist_len len [] = ok len
playlist_len len (s ∷ ss) =
    let rest = playlist_len (len + length file_open + concat_quote_len s + length file_close) ss in
    if not (concat_name_is_safe s) then err einval else rest

-- The second loop.
unfoldable pub playlist_body : List Bytes → Bytes
playlist_body [] = []
playlist_body (s ∷ ss) = file_open ++ (concat_quote s ++ (file_close ++ playlist_body ss))

-- The size that is allocated (less the byte for the NUL), with the text that is written.
unfoldable pub playlist : List Bytes → Result (ℕ × Bytes)
playlist segments = elim (playlist_len (length header) segments) [
  | err e ↦ err e
  | ok len ↦ ok (len, header ++ playlist_body segments)
]
