-- ===== src/Native/Concat/Reading.antt =====
-- What a playlist means to the concat demuxer, by the quoting rules that src/nativeio.c cites, and
-- that the playlist of a list of names means those names.
use ffmpeg_wasi.Base.{
  ℕ, ◌+◌, ◌≡◌, refl, sym, ap, ◌∙◌, Bool, true, false, not, List, [], ◌∷◌, ◌++◌, ◌==◌, if◌then◌else◌,
  length, all, drop, take, arith, append-nil, ◌⊎◌, inl, inr, append_assoc, length-append,
}
use ffmpeg_wasi.Base.Text.{Bytes, codes, streq}
use ffmpeg_wasi.Av.{ok, err, einval}
use ffmpeg_wasi.Native.Concat.{
  quote, backslash, line_feed, concat_quote_len, concat_quote, concat_name_is_safe, header,
  file_open, file_close, playlist_len, playlist_body, playlist,
}

pub data Mode : Type 0 where
  bare quoted escaped : Mode

-- The argument that a text stands for. Between single quotes every byte is itself; elsewhere a
-- backslash takes the next byte as itself.
unfoldable pub unquote : Mode → Bytes → Bytes
unquote m [] = []
unquote escaped (c ∷ s) = c ∷ unquote bare s
unquote quoted (c ∷ s) =
    let out = unquote bare s in let on = unquote quoted s in if c == quote then out else c ∷ on
unquote bare (c ∷ s) =
    let into = unquote quoted s in
    let esc = unquote escaped s in
    let on = unquote bare s in if c == quote then into else if c == backslash then esc else c ∷ on

abbrev add_to : ℕ → List Bytes → List Bytes
add_to c [] = (c ∷ []) ∷ []
add_to c (l ∷ ls) = (c ∷ l) ∷ ls

-- The text cut at its line feeds.
unfoldable pub lines : Bytes → List Bytes
lines [] = []
lines (c ∷ s) = let rest = lines s in if c == line_feed then [] ∷ rest else add_to c rest

-- The segments that the lines name: those of the lines that begin with `file `.
unfoldable pub segments_of : List Bytes → List Bytes
unfolding unquote
segments_of [] = []
segments_of (l ∷ ls) =
    let rest = segments_of ls in
    if streq (take 5 l) (codes "file ") then unquote bare (drop 5 l) ∷ rest else rest

-- Quoting is undone by reading, whatever stands behind.
concat_quote-unquote : (s r : Bytes) → unquote quoted (concat_quote s ++ r) ≡ s ++ unquote quoted r
unfolding concat_quote unquote
concat_quote-unquote [] r = refl
concat_quote-unquote (c ∷ s) r = ground (arith, concat_quote-unquote s r)

length-concat_quote : (s : Bytes) → length (concat_quote s) ≡ concat_quote_len s
unfolding concat_quote concat_quote_len
length-concat_quote [] = refl
length-concat_quote (c ∷ s) = ground (arith, length-concat_quote s)

-- A text with no line feed is the first line of what it begins.
abbrev no_feed : Bytes → Bool
no_feed s = all (λ c. not (c == line_feed)) s

lines-append : (l r : Bytes) → no_feed l ≡ true → lines (l ++ (line_feed ∷ r)) ≡ l ∷ lines r
unfolding lines
lines-append [] r h = refl
lines-append (c ∷ l) r h = ground (arith, lines-append l r)

no_feed-concat_quote : (s : Bytes) → no_feed s ≡ true → no_feed (concat_quote s) ≡ true
unfolding concat_quote
no_feed-concat_quote [] h = refl
no_feed-concat_quote (c ∷ s) h = ground (arith, no_feed-concat_quote s)

no_feed-append : (a b : Bytes) → no_feed a ≡ true → no_feed b ≡ true → no_feed (a ++ b) ≡ true
no_feed-append [] b h k = k
no_feed-append (c ∷ a) b h k = ground (arith, no_feed-append a b)

-- The line that one segment becomes.
abbrev line_of : Bytes → Bytes
line_of s = file_open ++ (concat_quote s ++ (quote ∷ []))

safe-no_feed : (s : Bytes) → concat_name_is_safe s ≡ true → no_feed s ≡ true
unfolding concat_name_is_safe
safe-no_feed s h = ground arith

line_of-no_feed : (s : Bytes) → concat_name_is_safe s ≡ true → no_feed (line_of s) ≡ true
line_of-no_feed s h =
    no_feed-append (concat_quote s) (quote ∷ []) (no_feed-concat_quote s (safe-no_feed s h)) refl

line_of-segment : (s : Bytes) (ls : List Bytes) → segments_of (line_of s ∷ ls) ≡ s ∷ segments_of ls
unfolding segments_of unquote streq
line_of-segment s ls = ap (◌∷ segments_of ls) (concat_quote-unquote s (quote ∷ []) ∙ append-nil s)

playlist_body-lines :
    (s : Bytes) (ss : List Bytes)
    → playlist_body (s ∷ ss) ≡ line_of s ++ (line_feed ∷ playlist_body ss)
unfolding playlist_body
playlist_body-lines s ss =
    ap (file_open ++◌)
      (sym (append_assoc (concat_quote s) (quote ∷ []) (line_feed ∷ playlist_body ss)))

abbrev all_safe : List Bytes → Bool
all_safe ss = all concat_name_is_safe ss

no_segments : segments_of (lines (playlist_body [])) ≡ []
unfolding playlist_body lines segments_of
no_segments = refl

playlist_body-segments :
    (ss : List Bytes) → all_safe ss ≡ true → segments_of (lines (playlist_body ss)) ≡ ss
playlist_body-segments [] h = no_segments
playlist_body-segments (s ∷ ss) h =
    let (a, b) = both s ss h in
    ap (λ t. segments_of (lines t)) (playlist_body-lines s ss)
    ∙ ap segments_of (lines-append (line_of s) (playlist_body ss) (line_of-no_feed s a))
    ∙ line_of-segment s (lines (playlist_body ss))
    ∙ ap (s ∷◌) (playlist_body-segments ss b)
  where
    both :
        (s : Bytes) (ss : List Bytes)
        → all_safe (s ∷ ss) ≡ true
        → (concat_name_is_safe s ≡ true) × (all_safe ss ≡ true)
    both s ss h = ground arith

-- What the first loop finds.
playlist_len_lem :
    (ss : List Bytes) (len : ℕ)
    → ((all_safe ss ≡ true) × (playlist_len len ss ≡ ok (len + length (playlist_body ss))))
      ⊎ ((all_safe ss ≡ false) × (playlist_len len ss ≡ err einval))
unfolding playlist_len playlist_body
playlist_len_lem [] len = inl (refl, ap ok (omega arith))
playlist_len_lem (s ∷ ss) len = ground (
  arith,
  playlist_len_lem ss (len + length file_open + concat_quote_len s + length file_close),
  length-concat_quote s,
  length-append (concat_quote s) (file_close ++ playlist_body ss),
)

header-segments : (r : Bytes) → segments_of (lines (header ++ r)) ≡ segments_of (lines r)
unfolding segments_of lines streq
header-segments r = refl

-- Where every name is safe, the text that afio_open_concat_ipc writes has the size that it
-- allocated, less one, and names to a reader exactly the segments that were asked for, in order:
-- no name adds, drops or changes a line, whatever quotes and backslashes it has. Where some name
-- is not safe, nothing is written and the answer is -EINVAL.
pub playlist-segments :
    (ss : List Bytes)
    → ((all concat_name_is_safe ss ≡ true)
        × (text : Bytes) × (playlist ss ≡ ok (length text, text))
        × (segments_of (lines text) ≡ ss))
      ⊎ ((all concat_name_is_safe ss ≡ false) × (playlist ss ≡ err einval))
unfolding playlist
playlist-segments ss = elim (playlist_len_lem ss (length header)) [
  | inl (a, e) ↦ inl (
    a,
    header ++ playlist_body ss,
    ground (arith, e, length-append header (playlist_body ss)),
    header-segments (playlist_body ss) ∙ playlist_body-segments ss a,
  )
  | inr (a, e) ↦ inr (a, ground (arith, e))
]
