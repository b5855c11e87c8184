-- ===== src/Process/Metadata/Tests.antt =====
-- Concrete metadata for src/process.c: an entry for a graph output.
use ffmpeg_wasi.Base.{refl, ℕ, ◌==◌, Bool, false, ◌||◌, List, [], ◌∷◌, Option, none, some}
use ffmpeg_wasi.Base.Int.{ℤ, pos}
use ffmpeg_wasi.Base.Text.{Bytes, codes}
use ffmpeg_wasi.Av.{Rational, IfOk}
use ffmpeg_wasi.Meta.{Flags}
use ffmpeg_wasi.Process.Window.{Window}
use ffmpeg_wasi.Process.Spec.Tree.{Value, string, array, object, field, end, tree, entries}
use ffmpeg_wasi.Process.Metadata.{Tagged, Container, Chapters, apply_output_metadata}
use ffmpeg_wasi.Process.Metadata.Entered.{TagsOf}
use ffmpeg_wasi.Process.Metadata.Routed.{Lane, apply_output_metadata-Lane}

abbrev bits : Flags (ℕ → Bool)
bits = record {
  no_flags = λ j. false;
  with_flag = λ f i j. i == j || f j;
  has_flag = λ f i. f i;
  has_flag-no_flags = λ i. refl;
  has_flag-with_flag = λ f i j. refl;
}

abbrev entry_of_v : Value
entry_of_v = object (
    field (codes "language") (string (codes "eng"))
      (field (codes "disposition") (array (field [] (string (codes "forced")) end)) end))

abbrev meta : Option Value
meta = some (object (field (codes "[v]") entry_of_v end))

abbrev ost : ℕ → Tagged (List (Bytes × Bytes)) (ℕ → Bool)
ost o = record { out_idx = o; key = some (codes "v"); metadata = []; disposition = λ j. false }

abbrev unbounded : Window
unbounded = record {
  duration = record { is_positive = false; micros = pos 0 };
  end = record { is_positive = false; micros = pos 0 };
  copy_ts = false;
}

abbrev same_base : ℤ → Rational → Rational → ℤ
same_base t a b = t

abbrev container : Container (List (Bytes × Bytes))
container = record { metadata = []; chapters = [] }

abbrev no_input : ℕ → Option (Chapters (List (Bytes × Bytes)))
no_input i = none

apply_output_metadata-Lane_example :
    IfOk
      (λ (x : Container (List (Bytes × Bytes))
          × List (Tagged (List (Bytes × Bytes)) (ℕ → Bool))
          × List (Tagged (List (Bytes × Bytes)) (ℕ → Bool))
          × List (Tagged (List (Bytes × Bytes)) (ℕ → Bool))).
        let (c', gout', cpy', sub') = x in
        TagsOf tree entries bits same_base none [] c'.metadata
        × Lane tree entries bits same_base 0 meta (ost 0 ∷ ost 1 ∷ []) gout'
        × Lane tree entries bits same_base 0 meta [] cpy'
        × Lane tree entries bits same_base 0 meta [] sub')
      (apply_output_metadata tree entries bits same_base no_input unbounded 0 none none meta
        container
        (ost 0 ∷ ost 1 ∷ [])
        []
        [])
apply_output_metadata-Lane_example =
    apply_output_metadata-Lane tree entries bits same_base no_input unbounded 0 none none meta
      container (ost 0 ∷ ost 1 ∷ []) [] []
