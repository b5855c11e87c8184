-- ===== src/Process/Inputs/Held.antt =====
-- src/process.c: which inputs are open, on every path through op_process's loop. IsDemuxers is what
-- libavformat documents: an open that fails leaves no context, and only a close takes one away.
use ffmpeg_wasi.Base.{
  ◌≡◌, refl, ◌∙◌, subst, ℕ, Bool, true, false, not, List, [], ◌∷◌, Option, none, some, arith, ltb,
  ◌==◌, if◌then◌else◌, if_elim,
}
use ffmpeg_wasi.Base.Int.{ℤ}
use ffmpeg_wasi.Base.Text.{Bytes, codes}
use ffmpeg_wasi.Av.{AvError, einval, Result, ok, err}
use ffmpeg_wasi.Process.Spec.{Json, Doubles, string_value, children_of}
use ffmpeg_wasi.Process.Spec.Options.{Dictionary}
use ffmpeg_wasi.Process.Inputs.{
  Demuxers, SeekWindow, segments, after_info, after_concat, concat_of, open_concat_input,
  after_open, open_with, open_found, open_path, open_one_input, is_filled, is_mode, after_seek,
  seek_to, seek_by, seek_input,
}

abbrev pub is_ok : {A : Type 0} → Result A → Bool
is_ok (err code) = false
is_ok (ok a) = true

abbrev pub Marked : {S : Type 0} → (ℕ → S → Bool) → ℕ → Bool → S → S → Type 0
Marked is_open i b w w' = (j : ℕ) → is_open j w' ≡ (if i == j then b else is_open j w)

pub record IsDemuxers {D F S : Type 0} (av : Demuxers D F S) (is_open : ℕ → S → Bool) : Type 0 where
  pub open_input-Marked :
      (i : ℕ) (path : Option Bytes) (f : Option F) (d : D) (w : S)
      → is_open i w ≡ false
      → Marked is_open i (is_ok (av.open_input i path f d w).0) w (av.open_input i path f d w).1
  pub open_concat-Marked :
      (i : ℕ) (segs : List Bytes) (w : S)
      → is_open i w ≡ false
      → Marked is_open i (is_ok (av.open_concat i segs w).0) w (av.open_concat i segs w).1
  pub find_stream_info-same :
      (i : ℕ) (w : S) (j : ℕ) → is_open j (av.find_stream_info i w).1 ≡ is_open j w
  pub seek_file-same :
      (i : ℕ) (t : ℤ) (w : S) (j : ℕ) → is_open j (av.seek_file i t w).1 ≡ is_open j w
  pub close_input-Marked : (i : ℕ) (w : S) → Marked is_open i false w (av.close_input i w)
  pub afio_close-Marked : (i : ℕ) (w : S) → Marked is_open i false w (av.afio_close i w)

module _ {J T D F S : Type 0} (js : Json J T) (num : Doubles T) (dict : Dictionary D)
    (av : Demuxers D F S) (is_open : ℕ → S → Bool) (laws : IsDemuxers av is_open) where
  -- A call on input `i` from a state in which it is closed.
  abbrev pub Opens : {A : Type 0} → ℕ → S → Result A × S → Type 0
  Opens i w x = Marked is_open i (is_ok x.0) w x.1

  closed_still : (i : ℕ) (w : S) → is_open i w ≡ false → Marked is_open i false w w
  closed_still i w c j =
      if_elim (λ b. is_open j w ≡ b) (i == j) false (is_open j w)
        (λ e. subst (λ k. is_open k w ≡ false) (ground (arith, e)) c) (λ e. refl)

  twice :
      (i : ℕ) (a b : Bool) (w w1 w2 : S)
      → Marked is_open i a w w1
      → Marked is_open i b w1 w2
      → Marked is_open i b w w2
  twice i a b w w1 w2 p q j = ground (arith, p j, q j)

  kept :
      (i : ℕ) (b : Bool) (w w1 w2 : S)
      → Marked is_open i b w w1
      → ((j : ℕ) → is_open j w2 ≡ is_open j w1)
      → Marked is_open i b w w2
  kept i b w w1 w2 p q j = q j ∙ p j

  after_info-Opens :
      (i : ℕ) (w w1 : S) (x : Option AvError × S)
      → Marked is_open i true w w1
      → ((j : ℕ) → is_open j x.1 ≡ is_open j w1)
      → Opens i w (after_info js num dict av i x)
  after_info-Opens i w w1 (none, w2) p q = kept i true w w1 w2 p q
  after_info-Opens i w w1 (some code, w2) p q =
      twice i true false w w2 (av.close_input i w2) (kept i true w w1 w2 p q)
        (laws.close_input-Marked i w2)

  after_concat-Opens :
      (i : ℕ) (w : S) (x : Result (Unit {0}) × S)
      → Opens i w x
      → Opens i w (after_concat js num dict av i x)
  after_concat-Opens i w (err code, w1) p = p
  after_concat-Opens i w (ok u, w1) p =
      after_info-Opens i w w1 (av.find_stream_info i w1) p (laws.find_stream_info-same i w1)

  concat_of-Opens :
      (i : ℕ) (segs : Option (List Bytes)) (w : S)
      → is_open i w ≡ false
      → Opens i w (concat_of js num dict av i segs w)
  concat_of-Opens i none w c = closed_still i w c
  concat_of-Opens i (some segs) w c =
      after_concat-Opens i w (av.open_concat i segs w) (laws.open_concat-Marked i segs w c)

  open_concat_input-Opens :
      (i : ℕ) (kvs : List (Option Bytes × J)) (w : S)
      → is_open i w ≡ false
      → Opens i w (open_concat_input js num dict av i kvs w)
  unfolding open_concat_input
  open_concat_input-Opens i [] w c = closed_still i w c
  open_concat_input-Opens i (kv ∷ kvs) w c =
      concat_of-Opens i (segments js num dict av (kv ∷ kvs)) w c

  after_open-Opens :
      (i : ℕ) (w : S) (x : Result D × S) → Opens i w x → Opens i w (after_open js num dict av i x)
  after_open-Opens i w (err code, w1) p = p
  after_open-Opens i w (ok opts, w1) p =
      if_elim (Opens i w) (ltb 0 (dict.dict_count opts)) (err einval, av.close_input i w1)
        (after_info js num dict av i (av.find_stream_info i w1))
        (λ e. twice i true false w w1 (av.close_input i w1) p (laws.close_input-Marked i w1))
        (λ e.
          after_info-Opens i w w1 (av.find_stream_info i w1) p (laws.find_stream_info-same i w1))

  open_with-Opens :
      (i : ℕ) (path : Option Bytes) (f : Option F) (r : Result D) (w : S)
      → is_open i w ≡ false
      → Opens i w (open_with js num dict av i path f r w)
  open_with-Opens i path f (err code) w c = closed_still i w c
  open_with-Opens i path f (ok opts) w c =
      after_open-Opens i w (av.open_input i path f opts w)
        (laws.open_input-Marked i path f opts w c)

  open_path-Opens :
      (i : ℕ) (spec : J) (name : Option Bytes) (w : S)
      → is_open i w ≡ false
      → Opens i w (open_path js num dict av i spec name w)
  open_path-Opens i spec none w c = open_with-Opens i _ none _ w c
  open_path-Opens i spec (some name) w c = found (av.find_input_format name)
    where
      found : (f : Option F) → Opens i w (open_found js num dict av i spec f w)
      found none = closed_still i w c
      found (some f) = open_with-Opens i _ (some f) _ w c

  pub open_one_input-Opens :
      (i : ℕ) (spec : J) (w : S)
      → is_open i w ≡ false
      → Opens i w (open_one_input js num dict av i spec w)
  unfolding open_one_input
  open_one_input-Opens i spec w c =
      let concat = js.get_object_item spec (codes "concat") in
      let format = string_value js (js.get_object_item spec (codes "format")) in
      if_elim (Opens {A = Unit {0}} i w) (is_filled js num dict av concat)
        (open_concat_input js num dict av i (children_of js concat) w)
        (open_path js num dict av i spec format w)
        (λ e. open_concat_input-Opens i (children_of js concat) w c)
        (λ e. open_path-Opens i spec format w c)

  pub seek_input-same :
      (i : ℕ) (spec : J) (w : S) (j : ℕ)
      → is_open j (seek_input js num dict av i spec w).1 ≡ is_open j w
  unfolding seek_input
  seek_input-same i spec w j = by_seek _
    where
      after :
          (s : SeekWindow) (x : Option AvError × S)
          → is_open j (after_seek js num dict av s x).1 ≡ is_open j x.1
      after s (none, w') = refl
      after s (some code, w') = refl

      to :
          (t : Option ℤ) (mode : Option Bytes)
          → is_open j (seek_to js num dict av i t mode w).1 ≡ is_open j w
      to none mode = refl
      to (some t) mode =
          if_elim (λ (x : Result SeekWindow × S). is_open j x.1 ≡ is_open j w)
            (not (is_mode js num dict av mode)) _ _ (λ e. refl)
            (λ e. after _ (av.seek_file i t w) ∙ laws.seek_file-same i t w j)

      by_seek : (sk : Option J) → is_open j (seek_by js num dict av i sk w).1 ≡ is_open j w
      by_seek none = refl
      by_seek (some sk) = to _ _
