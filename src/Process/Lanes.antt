-- ===== src/Process/Lanes.antt =====
-- src/process.c: which streams of the inputs are copied or transcoded outside the graph, and when
-- an input has no consumer left. check_encodable_map, add_default_copy_descriptors,
-- add_copy_descriptors and input_is_spent. `best i t` is av_find_best_stream on input `i`.
pub mod Filled
pub mod Valid
pub mod Encodable
pub mod Spent
use ffmpeg_wasi.Base.{
  ℕ, zero, suc, ◌+◌, Bool, true, false, not, ◌&&◌, ◌||◌, List, [], ◌∷◌, ◌++◌, Option, none, some,
  ltb, leb, ◌==◌, if◌then◌else◌, length, get_elem?, any, all,
}
use ffmpeg_wasi.Base.Text.{Bytes, codes, streq}
use ffmpeg_wasi.Av.{
  MediaType, unknown, video, audio, subtitle, eq_type, Result, ok, err, einval, ◌>>=◌,
}
use ffmpeg_wasi.Process.Mux.{max_cpy, max_sub}
use ffmpeg_wasi.Process.Graph.{GIn, GOut}
use ffmpeg_wasi.Process.MapSpec.{Map, Selector, is_graph_pad, parse_map_stream, resolve_map_stream}

-- The fields of an Out that choose its lanes. An absent or empty `map` is the empty one.
pub record Output : Type 0 where
  pub vcodec : Option Bytes
  pub acodec : Option Bytes
  pub scodec : Option Bytes
  pub map : Map

-- The fields that a Cpy and a Sub share.
pub record Target : Type 0 where
  pub in_idx : ℕ
  pub st_idx : ℕ
  pub out_idx : ℕ
  pub map_key : Option Bytes

-- The tables of copied and of transcoded streams, each up to its count.
pub record Tables : Type 0 where
  pub cpy : List Target
  pub sub : List Target

abbrev pub no_tables : Tables
no_tables = record { cpy = []; sub = [] }

-- COPY_CODEC
abbrev pub is_copy : Bytes → Bool
is_copy codec = streq codec (codes "copy")

-- `codec && strcmp(codec, COPY_CODEC) == 0`, and the same with `!= 0`.
abbrev pub copies : Option Bytes → Bool
copies none = false
copies (some codec) = is_copy codec

abbrev pub encodes : Option Bytes → Bool
encodes none = false
encodes (some codec) = not (is_copy codec)

-- A bracketed entry.
abbrev pub is_pad : Option Bytes → Bool
is_pad none = false
is_pad (some e) = is_graph_pad e

abbrev pub is_unmapped : Map → Bool
is_unmapped [] = true
is_unmapped (e ∷ m) = false

unfoldable pub check_encodable_map : List Output → Result (Unit {0})
check_encodable_map [] = ok tt
check_encodable_map (o ∷ os) =
    let next_output = check_encodable_map os in
    if is_unmapped o.map || any is_pad o.map
    then next_output
    else if encodes o.vcodec || encodes o.acodec
    then err einval
    else next_output

-- The body of the loop over the two lanes of an output without a `map`.
unfoldable pub add_default_lane :
    (ℕ → MediaType → Result ℕ) → ℕ → Option Bytes → MediaType → Tables → Result Tables
add_default_lane best oi codec type c = if not (copies codec) then ok c else elim (best 0 type) [
  | err e ↦ ok c
  | ok st ↦
      if leb max_cpy (length c.cpy)
      then err einval
      else ok (record c {
        cpy = c.cpy ++ (record { in_idx = 0; st_idx = st; out_idx = oi; map_key = none } ∷ []);
      })
]

unfoldable pub add_default_copy_descriptors :
    (ℕ → MediaType → Result ℕ) → ℕ → Output → Tables → Result Tables
unfolding add_default_lane
add_default_copy_descriptors best oi o c =
    add_default_lane best oi o.vcodec video c >>= add_default_lane best oi o.acodec audio

-- `codecpar->codec_type` of a stream; an index that is not the input's is never asked for.
abbrev pub type_at : List MediaType → ℕ → MediaType
type_at ts st = elim (get_elem? ts st) [ none ↦ unknown | some t ↦ t ]

-- `transcode_sub`
abbrev pub transcodes : Output → MediaType → Bool
transcodes o type = eq_type type subtitle && encodes o.scodec

-- The lane of a resolved stream.
unfoldable pub place : Output → MediaType → Target → Tables → Result Tables
place o type t c =
    if transcodes o type
    then (if leb max_sub (length c.sub)
        then err einval
        else ok (record c { sub = c.sub ++ (t ∷ []) }))
    else ok (record c { cpy = c.cpy ++ (t ∷ []) })

-- A parsed entry.
unfoldable pub add_selected :
    (ℕ → MediaType → Result ℕ)
    → List (List MediaType)
    → ℕ
    → Output
    → Bytes
    → Selector
    → Tables
    → Result Tables
unfolding place
add_selected best inputs oi o key s c = elim (get_elem? inputs s.input) [
  | none ↦ err einval
  | some ts ↦ elim (resolve_map_stream (best s.input) ts s.type s.sel) [
    | err e ↦ err e
    | ok st ↦
        place o (type_at ts st)
          (record { in_idx = s.input; st_idx = st; out_idx = oi; map_key = some key }) c
  ]
]

-- The body of the loop over the entries of a `map`.
unfoldable pub add_entry :
    (ℕ → MediaType → Result ℕ)
    → List (List MediaType)
    → ℕ
    → Output
    → Option Bytes
    → Tables
    → Result Tables
unfolding add_selected
add_entry best inputs oi o none c = ok c
add_entry best inputs oi o (some e) c =
    if is_graph_pad e
    then ok c
    else if leb max_cpy (length c.cpy)
    then err einval
    else elim (parse_map_stream e) [
      | none ↦ err einval
      | some s ↦ add_selected best inputs oi o e s c
    ]

unfoldable pub add_entries :
    (ℕ → MediaType → Result ℕ) → List (List MediaType) → ℕ → Output → Map → Tables → Result Tables
unfolding add_entry
add_entries best inputs oi o [] c = ok c
add_entries best inputs oi o (e ∷ m) c =
    add_entry best inputs oi o e c >>= add_entries best inputs oi o m

-- One output, then all from the one at `oi` on.
unfoldable pub add_output :
    (ℕ → MediaType → Result ℕ) → List (List MediaType) → ℕ → Output → Tables → Result Tables
unfolding add_default_copy_descriptors add_entries
add_output best inputs oi o c =
    if is_unmapped o.map
    then add_default_copy_descriptors best oi o c
    else add_entries best inputs oi o o.map c

unfoldable pub add_copy_descriptors :
    (ℕ → MediaType → Result ℕ) → List (List MediaType) → ℕ → List Output → Tables → Result Tables
unfolding add_output
add_copy_descriptors best inputs oi [] c = ok c
add_copy_descriptors best inputs oi (o ∷ os) c =
    add_output best inputs oi o c >>= add_copy_descriptors best inputs (suc oi) os

unfoldable pub input_is_spent : List GIn → List GOut → List Target → List Target → ℕ → Bool
input_is_spent gin gout cpy sub in_idx =
    let graph_finished = not (leb (length gout) 0) && all (λ (g : GOut). g.done) gout in
    if not graph_finished && any (λ (g : GIn). g.in_idx == in_idx && not g.closed) gin
    then false
    else if any (λ (t : Target). t.in_idx == in_idx) cpy
    then false
    else if any (λ (t : Target). t.in_idx == in_idx) sub
    then false
    else true
