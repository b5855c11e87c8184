-- ===== src/Process/Lanes/Filled.antt =====
-- src/process.c: what one entry of a `map` adds to the tables of copied and transcoded streams.
use ffmpeg_wasi.Base.{
  ℕ, zero, suc, ◌≤◌, ◌<◌, ◌≡◌, refl, sym, ap, ◌∙◌, subst, inl, inr, Bool, true, false, List, [],
  ◌∷◌, ◌++◌, Option, none, some, leb, length, get_elem?, All, arith, if_elim, length-append,
}
use ffmpeg_wasi.Base.Text.{Bytes}
use ffmpeg_wasi.Av.{
  IfOk, AvError, MediaType, unknown, video, audio, data_stream, subtitle, attachment, Result, ok,
  err, einval,
}
use ffmpeg_wasi.Process.Mux.{max_cpy, max_sub}
use ffmpeg_wasi.Process.MapSpec.{Selector, resolve_map_stream}
use ffmpeg_wasi.Process.MapSpec.Resolve.{Picks, resolve_map_stream-Picks}
use ffmpeg_wasi.Process.Lanes.{Output, Target, Tables, type_at, transcodes, place, add_selected}

pub All-snoc {ℓ κ} :
    {A : Type ℓ} (P : A → Type κ) (xs : List A) (x : A) → All P xs → P x → All P (xs ++ (x ∷ []))
All-snoc P [] x a p = (p, a)
All-snoc P (y ∷ ys) x (b, a) p = (b, All-snoc P ys x a p)

get_elem?-some {ℓ} :
    {A : Type ℓ} (xs : List A) (i : ℕ) → i < length xs → (a : A) × (get_elem? xs i ≡ some a)
get_elem?-some [] i h = absurd (omega (arith, h))
get_elem?-some (x ∷ xs) zero h = (x, refl)
get_elem?-some (x ∷ xs) (suc i) h = get_elem?-some xs i (omega arith)

err_ok : {A : Type 0} {e : AvError} {a : A} → ◌≡◌ {A = Result A} (err e) (ok a) → ⊥
err_ok p = cc

ok_ok : {A : Type 0} {a b : A} → ◌≡◌ {A = Result A} (ok a) (ok b) → a ≡ b
ok_ok p = cc

-- The job's outputs and the types of its inputs' streams, of which there is at least one, and what
-- av_find_best_stream promises: a stream of the type asked for, if it answers with one.
module _ (outs : List Output) (first : List MediaType) (rest : List (List MediaType))
    (best : ℕ → MediaType → Result ℕ)
    (best_lem : (i k : ℕ) (t : MediaType) (ts : List MediaType)
      → get_elem? (first ∷ rest) i ≡ some ts
      → best i t ≡ ok k
      → get_elem? ts k ≡ some t) where
  -- An entry of a table: it names an output, an input and a stream of that input that there are,
  -- and is in the table where such a stream belongs in such an output.
  abbrev pub IsLane : Bool → Target → Type 0
  IsLane transcoded t =
      (o : Output) × (ts : List MediaType) × (type : MediaType) × (get_elem? outs t.out_idx
        ≡ some o)
      × (get_elem? (first ∷ rest) t.in_idx ≡ some ts)
      × (get_elem? ts t.st_idx ≡ some type)
      × (transcodes o type ≡ transcoded)

  abbrev pub IsFilled : Tables → Type 0
  IsFilled c =
      (length c.cpy ≤ max_cpy)
      × (length c.sub ≤ max_sub)
      × All (IsLane false) c.cpy
      × All (IsLane true) c.sub

  resolve-valid :
      (i st : ℕ) (ts : List MediaType) (t : MediaType) (k : Option ℕ)
      → get_elem? (first ∷ rest) i ≡ some ts
      → resolve_map_stream (best i) ts t k ≡ ok st
      → (type : MediaType) × (get_elem? ts st ≡ some type)
  unfolding resolve_map_stream
  resolve-valid i st ts unknown none g e = absurd (err_ok e)
  resolve-valid i st ts video none g e = (video, best_lem i st video ts g e)
  resolve-valid i st ts audio none g e = (audio, best_lem i st audio ts g e)
  resolve-valid i st ts data_stream none g e = (data_stream, best_lem i st data_stream ts g e)
  resolve-valid i st ts subtitle none g e = (subtitle, best_lem i st subtitle ts g e)
  resolve-valid i st ts attachment none g e = (attachment, best_lem i st attachment ts g e)
  resolve-valid i st ts t (some k) g e = elim (resolve_map_stream-Picks (best i) ts t k) [
    | inl (u, inl (l, f)) ↦ get_elem?-some ts st (omega (arith, l, ok_ok (sym f ∙ e)))
    | inl (u, inr (l, f)) ↦ absurd (err_ok (sym f ∙ e))
    | inr p ↦ (t, (subst (λ r. Picks r t ts k) e p).0)
  ]

  place-IsFilled :
      (o : Output) (type : MediaType) (t : Target) (c : Tables) (ts : List MediaType)
      → get_elem? outs t.out_idx ≡ some o
      → get_elem? (first ∷ rest) t.in_idx ≡ some ts
      → get_elem? ts t.st_idx ≡ some type
      → length c.cpy < max_cpy
      → IsFilled c
      → IfOk IsFilled (place o type t c)
  unfolding place
  place-IsFilled o type t c ts go gi gs room (a, b, x, y) =
      if_elim (IfOk IsFilled) (transcodes o type) _ _
        (λ h.
          if_elim (IfOk IsFilled) (leb max_sub (length c.sub)) _ _ (λ k. tt)
            (λ k. (
              a,
              ground (arith, k, length-append c.sub (t ∷ [])),
              x,
              All-snoc (IsLane true) c.sub t y (o, ts, type, go, gi, gs, h),
            )))
        (λ h. (
          ground (arith, room, length-append c.cpy (t ∷ [])),
          b,
          All-snoc (IsLane false) c.cpy t x (o, ts, type, go, gi, gs, h),
          y,
        ))

  type_at_lem :
      (ts : List MediaType) (st : ℕ) (type : MediaType)
      → get_elem? ts st ≡ some type
      → type_at ts st ≡ type
  type_at_lem ts st type e = ap of e
    where
      of : Option MediaType → MediaType
      of none = unknown
      of (some t) = t

  -- What follows once the input and the stream are found.
  pub add_selected-IsFilled :
      (oi : ℕ) (o : Output) (key : Bytes) (s : Selector) (c : Tables)
      → get_elem? outs oi ≡ some o
      → length c.cpy < max_cpy
      → IsFilled c
      → IfOk IsFilled (add_selected best (first ∷ rest) oi o key s c)
  unfolding add_selected
  add_selected-IsFilled oi o key s c go room f = input (get_elem? (first ∷ rest) s.input) refl
    where
      target : ℕ → Target
      target st = record { in_idx = s.input; st_idx = st; out_idx = oi; map_key = some key }

      stream :
          (ts : List MediaType)
          → get_elem? (first ∷ rest) s.input ≡ some ts
          → (r : Result ℕ) → resolve_map_stream (best s.input) ts s.type s.sel ≡ r
          → IfOk IsFilled (
              let x : Result Tables = elim r [
                | err e ↦ err e
                | ok st ↦ place o (type_at ts st) (target st) c
              ] in
              x)
      stream ts gi (err e) q = tt
      stream ts gi (ok st) q =
          let (type, gs) = resolve-valid s.input st ts s.type s.sel gi q in
          place-IsFilled o (type_at ts st) (target st) c ts go gi
            (gs ∙ ap some (sym (type_at_lem ts st type gs))) room f

      input :
          (g : Option (List MediaType))
          → get_elem? (first ∷ rest) s.input ≡ g
          → IfOk IsFilled (
              let x : Result Tables = elim g [
                | none ↦ err einval
                | some ts ↦ elim (resolve_map_stream (best s.input) ts s.type s.sel) [
                  | err e ↦ err e
                  | ok st ↦ place o (type_at ts st) (target st) c
                ]
              ] in
              x)
      input none q = tt
      input (some ts) q = stream ts q (resolve_map_stream (best s.input) ts s.type s.sel) refl
