-- ===== src/Process/Lanes/Valid.antt =====
-- src/process.c: the tables that add_copy_descriptors fills.
use ffmpeg_wasi.Base.{
  ℕ, suc, ◌+◌, ◌<◌, ◌≡◌, refl, ap, subst, false, not, List, [], ◌∷◌, ◌++◌, Option, none, some, leb,
  if◌then◌else◌, length, get_elem?, arith, if_elim, length-append,
}
use ffmpeg_wasi.Base.Text.{Bytes}
use ffmpeg_wasi.Av.{
  IfOk, IfOk-bind, MediaType, video, audio, subtitle, eq_type, Result, ok, err, einval,
}
use ffmpeg_wasi.Process.Mux.{max_cpy}
use ffmpeg_wasi.Process.MapSpec.{Map, Selector, is_graph_pad, parse_map_stream}
use ffmpeg_wasi.Process.Lanes.{
  Output, Target, Tables, no_tables, copies, is_unmapped, add_default_lane,
  add_default_copy_descriptors, add_selected, add_entry, add_entries, add_output,
  add_copy_descriptors,
}
use ffmpeg_wasi.Process.Lanes.Filled.{All-snoc, IsLane, IsFilled, add_selected-IsFilled}

-- The job's outputs and the types of its inputs' streams, of which there is at least one, and what
-- av_find_best_stream promises: a stream of the type asked for, if it answers with one.
module _ (outs : List Output) (first : List MediaType) (rest : List (List MediaType))
    (best : ℕ → MediaType → Result ℕ)
    (best_lem : (i k : ℕ) (t : MediaType) (ts : List MediaType)
      → get_elem? (first ∷ rest) i ≡ some ts
      → best i t ≡ ok k
      → get_elem? ts k ≡ some t) where
  abbrev pub Filled : Tables → Type 0
  Filled = IsFilled outs first rest best best_lem

  add_entry-Filled :
      (oi : ℕ) (o : Output) (e : Option Bytes) (c : Tables)
      → get_elem? outs oi ≡ some o
      → Filled c
      → IfOk Filled (add_entry best (first ∷ rest) oi o e c)
  unfolding add_entry
  add_entry-Filled oi o none c go f = f
  add_entry-Filled oi o (some e) c go f =
      if_elim (IfOk Filled) (is_graph_pad e) _ _ (λ h. f)
        (λ h.
          if_elim (IfOk Filled) (leb max_cpy (length c.cpy)) _ _ (λ k. tt)
            (λ k. parsed (parse_map_stream e) (ground (arith, k))))
    where
      parsed :
          (p : Option Selector)
          → length c.cpy < max_cpy
          → IfOk Filled (
              let x : Result Tables = elim p [
                | none ↦ err einval
                | some s ↦ add_selected best (first ∷ rest) oi o e s c
              ] in
              x)
      parsed none room = tt
      parsed (some s) room =
          add_selected-IsFilled outs first rest best best_lem oi o e s c go room f

  add_entries-Filled :
      (oi : ℕ) (o : Output) (m : Map) (c : Tables)
      → get_elem? outs oi ≡ some o
      → Filled c
      → IfOk Filled (add_entries best (first ∷ rest) oi o m c)
  unfolding add_entries
  add_entries-Filled oi o [] c go f = f
  add_entries-Filled oi o (e ∷ m) c go f =
      IfOk-bind Filled Filled (add_entry best (first ∷ rest) oi o e c)
        (add_entries best (first ∷ rest) oi o m) (add_entry-Filled oi o e c go f)
        (λ c' f'. add_entries-Filled oi o m c' go f')

  add_default_lane-Filled :
      (oi : ℕ) (o : Output) (codec : Option Bytes) (type : MediaType) (c : Tables)
      → get_elem? outs oi ≡ some o
      → eq_type type subtitle ≡ false
      → Filled c
      → IfOk Filled (add_default_lane best oi codec type c)
  unfolding add_default_lane
  add_default_lane-Filled oi o codec type c go n (a, b, x, y) =
      if_elim (IfOk Filled) (not (copies codec)) _ _ (λ h. (a, b, x, y))
        (λ h. found (best 0 type) refl)
    where
      target : ℕ → Target
      target st = record { in_idx = 0; st_idx = st; out_idx = oi; map_key = none }

      found :
          (r : Result ℕ)
          → best 0 type ≡ r
          → IfOk Filled (
              let z : Result Tables = elim r [
                | err e ↦ ok c
                | ok st ↦
                    if leb max_cpy (length c.cpy)
                    then err einval
                    else ok (record c { cpy = c.cpy ++ (target st ∷ []) })
              ] in
              z)
      found (err e) q = (a, b, x, y)
      found (ok st) q =
          if_elim (IfOk Filled) (leb max_cpy (length c.cpy)) _ _ (λ k. tt)
            (λ k. (
              ground (arith, k, length-append c.cpy (target st ∷ [])),
              b,
              All-snoc (IsLane outs first rest best best_lem false) c.cpy (target st) x
                  (o, first, type, go, refl, best_lem 0 st type first refl q, ground (arith, n)),
              y,
            ))

  add_output-Filled :
      (oi : ℕ) (o : Output) (c : Tables)
      → get_elem? outs oi ≡ some o
      → Filled c
      → IfOk Filled (add_output best (first ∷ rest) oi o c)
  unfolding add_output add_default_copy_descriptors
  add_output-Filled oi o c go f =
      if_elim (IfOk Filled) (is_unmapped o.map) _ _
        (λ h.
          IfOk-bind Filled Filled (add_default_lane best oi o.vcodec video c)
            (add_default_lane best oi o.acodec audio)
            (add_default_lane-Filled oi o o.vcodec video c go refl f)
            (λ c' f'. add_default_lane-Filled oi o o.acodec audio c' go refl f'))
        (λ h. add_entries-Filled oi o o.map c go f)

  outputs-Filled :
      (oi : ℕ) (os : List Output) (c : Tables)
      → ((j : ℕ) → get_elem? outs (oi + j) ≡ get_elem? os j)
      → Filled c
      → IfOk Filled (add_copy_descriptors best (first ∷ rest) oi os c)
  unfolding add_copy_descriptors
  outputs-Filled oi [] c g f = f
  outputs-Filled oi (o ∷ os) c g f =
      IfOk-bind Filled Filled (add_output best (first ∷ rest) oi o c)
        (add_copy_descriptors best (first ∷ rest) (suc oi) os)
        (add_output-Filled oi o c (here (g 0)) f)
        (λ c' f'. outputs-Filled (suc oi) os c' (λ j. next j (g (suc j))) f')
    where
      here : get_elem? outs (oi + 0) ≡ some o → get_elem? outs oi ≡ some o
      here e = let p : oi + 0 ≡ oi = omega arith in subst (λ k. get_elem? outs k ≡ some o) p e

      next :
          (j : ℕ)
          → get_elem? outs (oi + suc j) ≡ get_elem? os j
          → get_elem? outs (suc oi + j) ≡ get_elem? os j
      next j e =
          let p : oi + suc j ≡ suc oi + j = omega arith in
          subst (λ k. get_elem? outs k ≡ get_elem? os j) p e

  -- Where add_copy_descriptors succeeds, at most MAX_CPY streams are copied and at most MAX_SUB
  -- transcoded; each names an output, an input and a stream that there are; and every stream in
  -- the table of the transcoded ones, and none in that of the copied ones, is a subtitle stream, by
  -- the type of the stream itself, for an output with a subtitle_codec other than `copy`. There is
  -- at least one input, and av_find_best_stream answers with a stream of the type asked for.
  pub add_copy_descriptors-IsFilled :
      IfOk Filled (add_copy_descriptors best (first ∷ rest) 0 outs no_tables)
  add_copy_descriptors-IsFilled =
      outputs-Filled 0 outs no_tables (λ j. ap (get_elem? outs) (omega arith))
        (omega arith, omega arith, tt, tt)
