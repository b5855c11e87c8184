-- ===== src/Process/Metadata/Entered.antt =====
-- src/process.c: which entry of `stream_metadata` a stream follows, and what the entry does to it.
use ffmpeg_wasi.Base.{
  ◌≡◌, ◌≢◌, ◌⊎◌, inl, inr, refl, ap, ℕ, true, false, not, List, [], ◌∷◌, ◌++◌, Option, none, some,
  All, arith, if_elim, map, Bool-cases, if_true, if_false, sym, subst,
}
use ffmpeg_wasi.Base.Int.{ℤ}
use ffmpeg_wasi.Base.Text.{Bytes, codes}
use ffmpeg_wasi.Av.{AvError, Rational, Result, ok, err, IfOk, IfOk-bind, IfOk-known}
use ffmpeg_wasi.Meta.{Flags, meta_disposition_from_json}
use ffmpeg_wasi.Process.MapSpec.{label_matches}
use ffmpeg_wasi.Process.MapSpec.Labels.{bracket, IsBracketed, label_matches-names}
use ffmpeg_wasi.Process.Spec.{Json, children_of, object_of, string_value}
use ffmpeg_wasi.Process.Spec.Options.{Dictionary}
use ffmpeg_wasi.Process.Metadata.{
  Tagged, matches, unless_err, set_tag, set_tags, meta_apply_tags, first_entry, stream_meta_for,
  set_language, disposition_of, apply_entry, apply_stream_metadata,
}

-- An entry's name is the key between brackets, or is the key itself and not between brackets.
abbrev pub Names : Bytes → Option Bytes → Type 0
Names key none = ⊥
Names key (some e) = (e ≡ bracket key) ⊎ ((e ≡ key) × ¬ IsBracketed e)

module _ {J T D F : Type 0} (js : Json J T) (dict : Dictionary D) (flags : Flags F)
    (rescale_q : ℤ → Rational → Rational → ℤ) where
  matches-Names :
      (key : Bytes) (name : Option Bytes)
      → matches js dict flags rescale_q name key ≡ true
      → Names key name
  matches-Names key none h = absurd (cc)
  matches-Names key (some e) h = (label_matches-names e key).0 h

  matches-unnamed :
      (key : Bytes) (name : Option Bytes)
      → matches js dict flags rescale_q name key ≡ false
      → ¬ Names key name
  matches-unnamed key none h n = absurd n
  matches-unnamed key (some e) h n =
      let m : label_matches e key ≡ true = (label_matches-names e key).1 n in cc

  abbrev pub AllUnnamed : Bytes → List (Option Bytes × J) → Type 0
  AllUnnamed key es = All (λ (x : Option Bytes × J). ¬ Names key x.0) es

  -- An entry is the first of a list that names a key.
  abbrev pub IsFirst : Bytes → List (Option Bytes × J) → J → Type 0
  IsFirst key es e =
      (before after : List (Option Bytes × J)) × (name : Option Bytes) × (es
        ≡ before ++ ((name, e) ∷ after))
      × Names key name
      × AllUnnamed key before

  abbrev Found : Bytes → List (Option Bytes × J) → Option J → Type 0
  Found key es none = AllUnnamed key es
  Found key es (some e) = IsFirst key es e

  first_entry-Found :
      (key : Bytes) (es : List (Option Bytes × J))
      → Found key es (first_entry js dict flags rescale_q key es)
  unfolding first_entry
  first_entry-Found key [] = tt
  first_entry-Found key ((name, e) ∷ es) =
      if_elim (Found key ((name, e) ∷ es)) (matches js dict flags rescale_q name key) (some e)
        (first_entry js dict flags rescale_q key es)
        (λ m. ([], es, name, refl, matches-Names key name m, tt))
        (λ m.
          later (matches-unnamed key name m) (first_entry js dict flags rescale_q key es)
            (first_entry-Found key es))
    where
      later : ¬ Names key name → (o : Option J) → Found key es o → Found key ((name, e) ∷ es) o
      later m none p = (m, p)
      later m (some f) (before, after, n, q, r, a) =
          ((name, e) ∷ before, after, n, ap ((name, e) ∷◌) q, r, (m, a))

  -- There is no entry for the stream: it has no key, or there is no object, or no member names the key.
  abbrev pub Unlisted : Option J → Option Bytes → Type 0
  Unlisted meta none = Unit
  Unlisted meta (some key) = (object_of js meta ≡ false) ⊎ AllUnnamed key (children_of js meta)

  -- The entry for the stream.
  abbrev pub Listed : Option J → Option Bytes → J → Type 0
  Listed meta none e = ⊥
  Listed meta (some key) e = (object_of js meta ≡ true) × IsFirst key (children_of js meta) e

  abbrev LookedUp : Option J → Option Bytes → Option J → Type 0
  LookedUp meta key none = Unlisted meta key
  LookedUp meta key (some e) = Listed meta key e

  stream_meta_for-LookedUp :
      (meta : Option J) (key : Option Bytes)
      → LookedUp meta key (stream_meta_for js dict flags rescale_q meta key)
  unfolding stream_meta_for
  stream_meta_for-LookedUp meta none = tt
  stream_meta_for-LookedUp meta (some key) =
      if_elim (LookedUp meta (some key)) (object_of js meta) found none
        (λ o. on o found (first_entry-Found key (children_of js meta))) (λ o. inl o)
    where
      found : Option J
      found = first_entry js dict flags rescale_q key (children_of js meta)

      on :
          object_of js meta ≡ true
          → (o : Option J) → Found key (children_of js meta) o
          → LookedUp meta (some key) o
      on h none p = inr p
      on h (some e) p = (h, p)

  -- A dictionary after a tag: one that is not a string, or that cannot be set, leaves it.
  abbrev pub TagSet : Option Bytes → Option Bytes → D → D → Type 0
  TagSet key none d d' = d' ≡ d
  TagSet key (some v) d d' =
      (dict.dict_set d key v ≡ ok d')
      ⊎ ((code : AvError) × (dict.dict_set d key v ≡ err code) × (d' ≡ d))

  -- After the tags of a list, one after the other.
  abbrev pub TagsSet : List (Option Bytes × J) → D → D → Type 0
  TagsSet [] d d' = d' ≡ d
  TagsSet ((key, kv) ∷ kvs) d d' = (d1 : D) × TagSet key (js.string_of kv) d d1 × TagsSet kvs d1 d'

  -- After the tags of an object; anything else leaves it.
  abbrev pub TagsOf : Option J → D → D → Type 0
  TagsOf tags d d' =
      ((object_of js tags ≡ false) × (d' ≡ d))
      ⊎ ((object_of js tags ≡ true) × TagsSet (children_of js tags) d d')

  set_tag-TagSet :
      (d : D) (key v : Option Bytes) → TagSet key v d (set_tag js dict flags rescale_q d key v)
  set_tag-TagSet d key none = refl
  set_tag-TagSet d key (some v) = on (dict.dict_set d key v) refl
    where
      on :
          (r : Result D)
          → dict.dict_set d key v ≡ r
          → (dict.dict_set d key v ≡ ok (unless_err js dict flags rescale_q d r))
            ⊎ ((code : AvError) × (dict.dict_set d key v ≡ err code)
                × (unless_err js dict flags rescale_q d r ≡ d))
      on (ok e) p = inl p
      on (err code) p = inr (code, p, refl)

  set_tags-TagsSet :
      (d : D) (kvs : List (Option Bytes × J))
      → TagsSet kvs d (set_tags js dict flags rescale_q d kvs)
  unfolding set_tags
  set_tags-TagsSet d [] = refl
  set_tags-TagsSet d ((key, kv) ∷ kvs) =
      let d1 : D = set_tag js dict flags rescale_q d key (js.string_of kv) in
      (d1, set_tag-TagSet d key (js.string_of kv), set_tags-TagsSet d1 kvs)

  pub meta_apply_tags-TagsOf :
      (d : D) (tags : Option J) → TagsOf tags d (meta_apply_tags js dict flags rescale_q d tags)
  unfolding meta_apply_tags
  meta_apply_tags-TagsOf d tags =
      let set = set_tags js dict flags rescale_q d (children_of js tags) in
      elim (Bool-cases (object_of js tags)) [
        | inl o ↦ inr (
          o,
          subst (TagsSet (children_of js tags) d) (sym (if_true set d o))
              (set_tags-TagsSet d (children_of js tags)),
        )
        | inr o ↦ inl (o, if_false set d o)
      ]

  abbrev pub LanguageSet : Option Bytes → D → D → Type 0
  LanguageSet none d d' = d' ≡ d
  LanguageSet (some lang) d d' = dict.dict_set d (some (codes "language")) lang ≡ ok d'

  set_language-LanguageSet :
      (d : D) (o : Option Bytes) → IfOk (LanguageSet o d) (set_language js dict flags rescale_q d o)
  set_language-LanguageSet d none = refl
  set_language-LanguageSet d (some lang) =
      IfOk-known (dict.dict_set d (some (codes "language")) lang)

  -- The dispositions that an array lists; anything else leaves the stream's own.
  abbrev pub Disposed : Option J → F → F → Type 0
  Disposed none f f' = f' ≡ f
  Disposed (some j) f f' =
      ((js.is_array j ≡ false) × (f' ≡ f))
      ⊎ ((js.is_array j ≡ true)
          × (f'
              ≡ meta_disposition_from_json flags
                  (some (map (λ (x : Option Bytes × J). js.string_of x.1) (js.children j)))))

  disposition_of-Disposed :
      (f : F) (o : Option J) → Disposed o f (disposition_of js dict flags rescale_q f o)
  disposition_of-Disposed f none = refl
  disposition_of-Disposed f (some j) = elim (Bool-cases (js.is_array j)) [
    | inl a ↦ inr (a, if_true _ _ a)
    | inr a ↦ inl (a, if_false _ _ a)
  ]

  -- A stream after an entry: its language, then its tags, and its dispositions. An entry that is no
  -- object leaves the stream.
  abbrev pub Applied : J → Tagged D F → Tagged D F → Type 0
  Applied e s s' =
      ((js.is_object e ≡ false) × (s' ≡ s))
      ⊎ ((js.is_object e ≡ true)
          × ((d : D) × LanguageSet (string_value js (js.get_object_item e (codes "language")))
                s.metadata d
              × TagsOf (js.get_object_item e (codes "tags")) d s'.metadata)
          × Disposed (js.get_object_item e (codes "disposition")) s.disposition s'.disposition)

  -- A stream of the output, after its entry or without one.
  abbrev pub Entered : Option J → Tagged D F → Tagged D F → Type 0
  Entered meta s s' =
      (Unlisted meta s.key × (s' ≡ s)) ⊎ ((e : J) × Listed meta s.key e × Applied e s s')

  -- A stream after output `oi`.
  abbrev pub IsTagged : ℕ → Option J → Tagged D F → Tagged D F → Type 0
  IsTagged oi meta s s' =
      (s'.out_idx ≡ s.out_idx)
      × (s'.key ≡ s.key)
      × (s.out_idx ≢ oi → s' ≡ s)
      × (s.out_idx ≡ oi → Entered meta s s')

  abbrev pub Kept : Option J → Tagged D F → Tagged D F → Type 0
  Kept meta s s' = (s'.out_idx ≡ s.out_idx) × (s'.key ≡ s.key) × Entered meta s s'

  apply_entry-Kept :
      (meta : Option J) (s : Tagged D F) (e : J)
      → Listed meta s.key e
      → IfOk (Kept meta s) (apply_entry js dict flags rescale_q e s)
  unfolding apply_entry
  apply_entry-Kept meta s e f =
      if_elim (IfOk (Kept meta s)) (not (js.is_object e)) _ _
        (λ n. (refl, refl, inr (e, f, inl (ground (arith, n), refl))))
        (λ y.
          IfOk-bind (LanguageSet lang s.metadata) (Kept meta s)
            (set_language js dict flags rescale_q s.metadata lang) _
            (set_language-LanguageSet s.metadata lang)
            (λ d p. (
              refl,
              refl,
              inr (
                e,
                f,
                inr (
                  ground (arith, y),
                  (d, p, meta_apply_tags-TagsOf d (js.get_object_item e (codes "tags"))),
                  disposition_of-Disposed s.disposition
                      (js.get_object_item e (codes "disposition")),
                ),
              ),
            )))
    where
      lang : Option Bytes
      lang = string_value js (js.get_object_item e (codes "language"))

  pub apply_stream_metadata-Kept :
      (meta : Option J) (s : Tagged D F)
      → IfOk (Kept meta s) (
          apply_stream_metadata js dict flags rescale_q
            (stream_meta_for js dict flags rescale_q meta s.key)
            s)
  unfolding apply_stream_metadata
  apply_stream_metadata-Kept meta s =
      on (stream_meta_for js dict flags rescale_q meta s.key) (stream_meta_for-LookedUp meta s.key)
    where
      on :
          (o : Option J)
          → LookedUp meta s.key o
          → IfOk (Kept meta s) (apply_stream_metadata js dict flags rescale_q o s)
      on none p = (refl, refl, inl (p, refl))
      on (some e) p = apply_entry-Kept meta s e p
