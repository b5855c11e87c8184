-- ===== src/Process/Metadata/Routed.antt =====
-- src/process.c: which streams the entries of `stream_metadata` reach.
use ffmpeg_wasi.Base.{refl, ℕ, List, [], ◌∷◌, Option, Pairwise, arith, if_elim, ◌==◌}
use ffmpeg_wasi.Base.Int.{ℤ}
use ffmpeg_wasi.Av.{Rational, Result, ok, err, ◌>>=◌, IfOk, IfOk-bind, IfOk-behind}
use ffmpeg_wasi.Meta.{Flags}
use ffmpeg_wasi.Process.Window.{Window}
use ffmpeg_wasi.Process.Spec.{Json, string_value}
use ffmpeg_wasi.Process.Spec.Options.{Dictionary}
use ffmpeg_wasi.Process.Metadata.{
  Tagged, Container, Chapters, stream_meta_for, apply_stream_metadata, and_stream, apply_streams,
  chapters_source, apply_output_metadata,
}
use ffmpeg_wasi.Process.Metadata.Entered.{
  TagsOf, IsTagged, Kept, meta_apply_tags-TagsOf, apply_stream_metadata-Kept,
}

module _ {J T D F : Type 0} (js : Json J T) (dict : Dictionary D) (flags : Flags F)
    (rescale_q : ℤ → Rational → Rational → ℤ) where
  -- The streams of a lane.
  abbrev pub Lane : ℕ → Option J → List (Tagged D F) → List (Tagged D F) → Type 0
  Lane oi meta ss ss' = Pairwise (IsTagged js dict flags rescale_q oi meta) ss ss'

  apply_streams-Lane :
      (oi : ℕ) (meta : Option J) (ss : List (Tagged D F))
      → IfOk (Lane oi meta ss) (apply_streams js dict flags rescale_q oi meta ss)
  unfolding apply_streams
  apply_streams-Lane oi meta [] = tt
  apply_streams-Lane oi meta (s ∷ ss) =
      let rest = apply_streams js dict flags rescale_q oi meta ss in
      if_elim (IfOk (Lane oi meta (s ∷ ss))) (s.out_idx == oi)
        (apply_stream_metadata js dict flags rescale_q
            (stream_meta_for js dict flags rescale_q meta s.key) s
          >>= λ (s' : Tagged D F). and_stream js dict flags rescale_q s' rest)
        (and_stream js dict flags rescale_q s rest)
        (λ e.
          IfOk-bind (Kept js dict flags rescale_q meta s) (Lane oi meta (s ∷ ss))
            (apply_stream_metadata js dict flags rescale_q
              (stream_meta_for js dict flags rescale_q meta s.key) s)
            (λ (s' : Tagged D F). and_stream js dict flags rescale_q s' rest)
            (apply_stream_metadata-Kept js dict flags rescale_q meta s)
            (λ s' (p, q, r).
              and_stream-Lane s' (p, q, (λ n. absurd (ground (arith, e, n))), λ h. r) rest
                (apply_streams-Lane oi meta ss)))
        (λ e.
          and_stream-Lane s (refl, refl, (λ n. refl), λ h. absurd (ground (arith, e, h))) rest
            (apply_streams-Lane oi meta ss))
    where
      and_stream-Lane :
          (s' : Tagged D F)
          → IsTagged js dict flags rescale_q oi meta s s'
          → (r : Result (List (Tagged D F))) → IfOk (Lane oi meta ss) r
          → IfOk (Lane oi meta (s ∷ ss)) (and_stream js dict flags rescale_q s' r)
      and_stream-Lane s' t (err code) p = tt
      and_stream-Lane s' t (ok ss') p = (t, p)

  -- Where the metadata of output `oi` is applied without an error, the container has the tags of
  -- `metadata` set, one after the other, and each stream of the three lanes, in its order, is as it was
  -- if it belongs to another output. A stream of this output follows the first entry of
  -- `stream_metadata` that names its key, between brackets or bare: it has the entry's language, then its
  -- tags, and the dispositions that the entry lists in an array, or its own where there is no array. It
  -- is as it was where no entry names its key, or where that entry is no object.
  pub apply_output_metadata-Lane :
      (chapters_of : ℕ → Option (Chapters D)) (out : Window) (oi : ℕ)
      (metadata chapters meta : Option J) (c : Container D) (gout cpy sub : List (Tagged D F))
      → IfOk
          (λ (x : Container D × List (Tagged D F) × List (Tagged D F) × List (Tagged D F)).
            let (c', gout', cpy', sub') = x in
            TagsOf js dict flags rescale_q metadata c.metadata c'.metadata
            × Lane oi meta gout gout'
            × Lane oi meta cpy cpy'
            × Lane oi meta sub sub')
          (apply_output_metadata js dict flags rescale_q chapters_of out oi metadata chapters meta c
            gout cpy sub)
  unfolding apply_output_metadata
  apply_output_metadata-Lane chapters_of out oi metadata chapters meta c gout cpy sub =
      let P = λ (x : Container D × List (Tagged D F) × List (Tagged D F) × List (Tagged D F)).
        let (c', gout', cpy', sub') = x in
        TagsOf js dict flags rescale_q metadata c.metadata c'.metadata
        × Lane oi meta gout gout'
        × Lane oi meta cpy cpy'
        × Lane oi meta sub sub' in
      IfOk-behind P (chapters_source js dict flags rescale_q (string_value js chapters)) _ (λ src.
        IfOk-bind (Lane oi meta gout) P (apply_streams js dict flags rescale_q oi meta gout) _
          (apply_streams-Lane oi meta gout)
          (λ gout' g.
            IfOk-bind (Lane oi meta cpy) P (apply_streams js dict flags rescale_q oi meta cpy) _
              (apply_streams-Lane oi meta cpy)
              (λ cpy' k.
                IfOk-bind (Lane oi meta sub) P (apply_streams js dict flags rescale_q oi meta sub) _
                  (apply_streams-Lane oi meta sub)
                  (λ sub' t. (
                    meta_apply_tags-TagsOf js dict flags rescale_q c.metadata metadata,
                    g,
                    k,
                    t,
                  )))))
