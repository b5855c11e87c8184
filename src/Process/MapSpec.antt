-- ===== src/Process/MapSpec.antt =====
-- src/process.c: the stream selectors of a job and where they lead. scan_index, parse_input_pad,
-- is_graph_pad, parse_map_stream, resolve_map_stream, label_matches and find_output_for_pad.
-- A selector's `int *sel` of -1, the best stream of its type, is `none` here.
pub mod Index
pub mod Grammar
pub mod Resolve
pub mod Labels
use ffmpeg_wasi.Base.{
  ℕ, zero, suc, ◌+◌, ◌-◌, ◌*◌, ◌^◌, Bool, true, false, not, ◌&&◌, ◌||◌, List, [], ◌∷◌, Option, none,
  some, ltb, leb, ◌==◌, if◌then◌else◌, length, take,
}
use ffmpeg_wasi.Base.Int.{ℤ, pos, ltb_ℤ, pos_part}
use ffmpeg_wasi.Base.Text.{Bytes, streq, is_digit}
use ffmpeg_wasi.Base.Number.{strto, long_min, long_max, Parsed}
use ffmpeg_wasi.Av.{
  MediaType, unknown, video, audio, subtitle, eq_type, Result, ok, err, stream_not_found,
}

-- INT_MAX
abbrev pub int_max : ℕ
int_max = 2 ^ 31 - 1

abbrev pub index_of : Parsed → Option (ℕ × Bytes)
index_of p =
    if p.out_of_range || (ltb_ℤ p.value (pos 0) || ltb_ℤ (pos int_max) p.value)
    then none
    else some (pos_part p.value, p.rest)

-- The index, and where `*p` stands behind it.
unfoldable pub scan_index : Bytes → Option (ℕ × Bytes)
scan_index [] = none
scan_index (c ∷ s) =
    if not (is_digit c)
    then none
    else elim (strto long_min long_max (c ∷ s)) [ none ↦ some (0, c ∷ s) | some p ↦ index_of p ]

-- The input, the type and the index of the stream.
pub record Selector : Type 0 where
  pub input : ℕ
  pub type : MediaType
  pub sel : Option ℕ

abbrev pub is_v : ℕ → Bool
is_v c = c == b'v' || c == b'V'

abbrev pub is_a : ℕ → Bool
is_a c = c == b'a' || c == b'A'

abbrev pub is_s : ℕ → Bool
is_s c = c == b's' || c == b'S'

-- An index up to the end of the text.
abbrev pub last_index : Option (ℕ × Bytes) → Option ℕ
last_index none = none
last_index (some (k, [])) = some k
last_index (some (k, c ∷ s)) = none

abbrev pub select_at : ℕ → MediaType → Option ℕ → Option Selector
select_at n t none = none
select_at n t (some k) = some (record { input = n; type = t; sel = some k })

-- What stands behind the letter: nothing, or ":K".
unfoldable pub per_type : ℕ → MediaType → Bytes → Option Selector
unfolding scan_index
per_type n t [] = some (record { input = n; type = t; sel = none })
per_type n t (c ∷ s) = if c == b':' then select_at n t (last_index (scan_index s)) else none

abbrev pub input_pad_type : ℕ → Bytes → Option Selector
input_pad_type n [] = none
input_pad_type n (c ∷ s) =
    if is_v c then per_type n video s else if is_a c then per_type n audio s else none

-- `*p == ':'`, and the rest behind it.
abbrev pub behind_colon : (ℕ → Bytes → Option Selector) → Option (ℕ × Bytes) → Option Selector
behind_colon f none = none
behind_colon f (some (n, [])) = none
behind_colon f (some (n, c ∷ s)) = if c == b':' then f n s else none

unfoldable pub parse_input_pad : Bytes → Option Selector
unfolding scan_index per_type
parse_input_pad name = behind_colon input_pad_type (scan_index name)

-- An entry that is there; the NULL that the code also tests is no text.
abbrev pub is_graph_pad : Bytes → Bool
is_graph_pad [] = false
is_graph_pad (c ∷ s) = c == b'['

abbrev pub map_type : ℕ → Bytes → Option Selector
map_type n [] = none
map_type n (c ∷ s) =
    if is_v c || (is_a c || is_s c)
    then per_type n (if is_v c then video else if is_a c then audio else subtitle) s
    else select_at n unknown (last_index (scan_index (c ∷ s)))

unfoldable pub parse_map_stream : Bytes → Option Selector
unfolding scan_index per_type
parse_map_stream s = if is_graph_pad s then none else behind_colon map_type (scan_index s)

-- The loop, from stream `i` on, with the `count` streams of the type before it.
unfoldable pub kth_of_type : MediaType → ℕ → ℕ → ℕ → List MediaType → Result ℕ
kth_of_type type sel i count [] = err stream_not_found
kth_of_type type sel i count (t ∷ ts) =
    let found = kth_of_type type sel (suc i) (suc count) ts in
    let other = kth_of_type type sel (suc i) count ts in
    if eq_type t type then (if count == sel then ok i else found) else other

-- The types of the input's streams, and av_find_best_stream.
unfoldable pub resolve_map_stream :
    (MediaType → Result ℕ) → List MediaType → MediaType → Option ℕ → Result ℕ
unfolding kth_of_type
resolve_map_stream best streams unknown none = err stream_not_found
resolve_map_stream best streams unknown (some k) =
    if ltb k (length streams) then ok k else err stream_not_found
resolve_map_stream best streams type none = best type
resolve_map_stream best streams type (some k) = kth_of_type type k 0 0 streams

-- `s[len - 1]`
abbrev pub last_byte : ℕ → Bytes → ℕ
last_byte c [] = c
last_byte c (d ∷ s) = last_byte d s

-- The text between the brackets, or the whole entry where it is not in brackets.
abbrev pub unbracket : Bytes → Bytes
unbracket [] = []
unbracket (c ∷ []) = c ∷ []
unbracket (c ∷ d ∷ s) =
    if c == b'[' && last_byte d s == b']' then take (length s) (d ∷ s) else c ∷ d ∷ s

unfoldable pub label_matches : Bytes → Bytes → Bool
label_matches entry label =
    length label == length (unbracket entry) && streq (unbracket entry) label

-- The `map` of an output: its entries, `none` for one that is not a string. NULL is the empty map.
abbrev pub Map : Type 0
Map = List (Option Bytes)

abbrev pub names : Bytes → Map → Bool
names label [] = false
names label (none ∷ m) = names label m
names label (some e ∷ m) = label_matches e label || names label m

unfoldable pub first_naming : ℕ → Bytes → List Map → Option ℕ
first_naming i label [] = none
first_naming i label (m ∷ ms) =
    let rest = first_naming (suc i) label ms in if names label m then some i else rest

abbrev pub only_unmapped : List Map → Option ℕ
only_unmapped ([] ∷ []) = some 0
only_unmapped _ = none

-- `none` is -1.
unfoldable pub find_output_for_pad : Bytes → List Map → Option ℕ
unfolding first_naming
find_output_for_pad label outs = elim (first_naming 0 label outs) [
  | some i ↦ some i
  | none ↦ only_unmapped outs
]
