-- ===== src/Process/Metadata.antt =====
-- src/process.c: the metadata of an output: copy_chapters, stream_meta_for, apply_stream_metadata and
-- apply_output_metadata, with meta_apply_tags of src/meta.c. That an allocation fails is left out.
mod Tests
pub mod Entered
pub mod Routed
use ffmpeg_wasi.Base.{
  ℕ, Bool, true, false, not, ◌&&◌, List, [], ◌∷◌, ◌++◌, Option, none, some, ltb, ◌==◌,
  if◌then◌else◌, length, map,
}
use ffmpeg_wasi.Base.Int.{ℤ}
use ffmpeg_wasi.Base.Text.{Bytes, codes, streq}
use ffmpeg_wasi.Av.{einval, Rational, Result, ok, err, ◌>>=◌}
use ffmpeg_wasi.Meta.{Flags, meta_disposition_from_json}
use ffmpeg_wasi.Process.Mux.{time_base_q}
use ffmpeg_wasi.Process.MapSpec.{scan_index, label_matches}
use ffmpeg_wasi.Process.Window.{Window, seek_base, sub_cutoff, chapter_window}
use ffmpeg_wasi.Process.Spec.{Json, children_of, string_value, object_of, array_of}
use ffmpeg_wasi.Process.Spec.Options.{Dictionary}

pub record Chapter (D : Type 0) : Type 0 where
  pub id : ℤ
  pub time_base : Rational
  pub start : ℤ
  pub end : ℤ
  pub metadata : D

-- The fields of an AVStream that are set here, with the output of its lane and the key that the job knows
-- it by: the label of a graph output, or the `map` entry of the two other lanes.
pub record Tagged (D F : Type 0) : Type 0 where
  pub out_idx : ℕ
  pub key : Option Bytes
  pub metadata : D
  pub disposition : F

-- The fields of the muxer.
pub record Container (D : Type 0) : Type 0 where
  pub metadata : D
  pub chapters : List (Chapter D)

-- An input's `seek_us` and its chapters.
pub record Chapters (D : Type 0) : Type 0 where
  pub seek_us : ℤ
  pub chapters : List (Chapter D)

module _ {J T D F : Type 0} (js : Json J T) (dict : Dictionary D) (flags : Flags F)
    (rescale_q : ℤ → Rational → Rational → ℤ) where
  -- A tag that cannot be set is dropped.
  abbrev pub unless_err : D → Result D → D
  unless_err d (err code) = d
  unless_err d (ok e) = e

  abbrev pub set_tag : D → Option Bytes → Option Bytes → D
  set_tag d key none = d
  set_tag d key (some value) = unless_err d (dict.dict_set d key value)

  unfoldable pub set_tags : D → List (Option Bytes × J) → D
  set_tags d [] = d
  set_tags d ((key, kv) ∷ kvs) = set_tags (set_tag d key (js.string_of kv)) kvs

  unfoldable pub meta_apply_tags : D → Option J → D
  unfolding set_tags
  meta_apply_tags d tags = if object_of js tags then set_tags d (children_of js tags) else d

  -- The chapter in the output, in no or one piece.
  abbrev pub placed : Chapter D → Option (ℤ × ℤ) → List (Chapter D)
  placed sc none = []
  placed sc (some (start_us, end_us)) =
      record sc {
        start = rescale_q start_us time_base_q sc.time_base;
        end = rescale_q end_us time_base_q sc.time_base;
        metadata = dict.dict_copy dict.null sc.metadata;
      }
      ∷ []

  unfoldable pub copy_chapters :
      ℤ → ℤ → Bool → List (Chapter D) → List (Chapter D) → List (Chapter D)
  copy_chapters seek0 cutoff copy_ts [] dst = dst
  copy_chapters seek0 cutoff copy_ts (sc ∷ scs) dst = copy_chapters seek0 cutoff copy_ts scs (
      dst
      ++ placed sc (
          chapter_window seek0 cutoff copy_ts (rescale_q sc.start sc.time_base time_base_q)
            (rescale_q sc.end sc.time_base time_base_q)))

  -- The entry for a key, `none` where there is none.
  abbrev pub matches : Option Bytes → Bytes → Bool
  matches none key = false
  matches (some entry) key = label_matches entry key

  unfoldable pub first_entry : Bytes → List (Option Bytes × J) → Option J
  first_entry key [] = none
  first_entry key ((name, e) ∷ es) =
      let rest = first_entry key es in if matches name key then some e else rest

  unfoldable pub stream_meta_for : Option J → Option Bytes → Option J
  unfolding first_entry
  stream_meta_for meta none = none
  stream_meta_for meta (some key) =
      if object_of js meta then first_entry key (children_of js meta) else none

  abbrev pub set_language : D → Option Bytes → Result D
  set_language d none = ok d
  set_language d (some lang) = dict.dict_set d (some (codes "language")) lang

  abbrev pub strings_in : J → List (Option Bytes)
  strings_in disp = map (λ (x : Option Bytes × J). js.string_of x.1) (js.children disp)

  -- A `disposition` that is no array leaves the stream's.
  abbrev pub disposition_of : F → Option J → F
  disposition_of f none = f
  disposition_of f (some disp) =
      if js.is_array disp then meta_disposition_from_json flags (some (strings_in disp)) else f

  unfoldable pub apply_entry : J → Tagged D F → Result (Tagged D F)
  unfolding meta_apply_tags
  apply_entry meta ost =
      if not (js.is_object meta)
      then ok ost
      else set_language ost.metadata (string_value js (js.get_object_item meta (codes "language")))
        >>= λ (d : D). ok (record ost {
          metadata = meta_apply_tags d (js.get_object_item meta (codes "tags"));
          disposition =
              disposition_of ost.disposition (js.get_object_item meta (codes "disposition"));
        })

  unfoldable pub apply_stream_metadata : Option J → Tagged D F → Result (Tagged D F)
  unfolding apply_entry
  apply_stream_metadata none ost = ok ost
  apply_stream_metadata (some meta) ost = apply_entry meta ost

  -- The loop over a lane's streams, for output `oi`.
  abbrev pub and_stream : Tagged D F → Result (List (Tagged D F)) → Result (List (Tagged D F))
  and_stream s (err code) = err code
  and_stream s (ok ss) = ok (s ∷ ss)

  unfoldable pub apply_streams : ℕ → Option J → List (Tagged D F) → Result (List (Tagged D F))
  unfolding apply_stream_metadata stream_meta_for
  apply_streams oi meta [] = ok []
  apply_streams oi meta (s ∷ ss) =
      let rest = apply_streams oi meta ss in
      if s.out_idx == oi
      then (apply_stream_metadata (stream_meta_for meta s.key) s >>= λ (s' : Tagged D F).
          and_stream s' rest)
      else and_stream s rest

  -- The input that `chapters` names, `none` for no chapters.
  abbrev pub whole_index : Option (ℕ × Bytes) → Result (Option ℕ)
  whole_index (some (k, [])) = ok (some k)
  whole_index _ = err einval

  unfoldable pub chapters_source : Option Bytes → Result (Option ℕ)
  chapters_source none = ok none
  chapters_source (some ch) =
      if streq ch (codes "none")
      then ok none
      else if streq ch (codes "copy")
      then ok (some 0)
      else whole_index (scan_index ch)

  abbrev pub input_chapters : Window → List (Chapter D) → Option (Chapters D) → List (Chapter D)
  input_chapters out dst none = dst
  input_chapters out dst (some c) =
      copy_chapters (seek_base c.seek_us) (sub_cutoff (seek_base c.seek_us) out) out.copy_ts
        c.chapters dst

  -- An index that is not an input's is passed over; `chapters_of` is `none` for it.
  abbrev pub chapters_from :
      (ℕ → Option (Chapters D)) → Window → List (Chapter D) → Option ℕ → List (Chapter D)
  chapters_from chapters_of out dst none = dst
  chapters_from chapters_of out dst (some k) = input_chapters out dst (chapters_of k)

  -- The container, with the streams of the graph, of the copied and of the subtitle lane.
  unfoldable pub apply_output_metadata :
      (ℕ → Option (Chapters D))
      → Window
      → ℕ
      → Option J
      → Option J
      → Option J
      → Container D
      → List (Tagged D F)
      → List (Tagged D F)
      → List (Tagged D F)
      → Result (Container D × List (Tagged D F) × List (Tagged D F) × List (Tagged D F))
  unfolding meta_apply_tags chapters_source copy_chapters apply_streams
  apply_output_metadata chapters_of out oi metadata chapters meta c gout cpy sub =
      chapters_source (string_value js chapters) >>= λ (src : Option ℕ).
      apply_streams oi meta gout >>= λ (gout' : List (Tagged D F)).
      apply_streams oi meta cpy >>= λ (cpy' : List (Tagged D F)).
      apply_streams oi meta sub >>= λ (sub' : List (Tagged D F)). ok (
        record {
          metadata = meta_apply_tags c.metadata metadata;
          chapters = chapters_from chapters_of out c.chapters src;
        },
        gout',
        cpy',
        sub',
      )
