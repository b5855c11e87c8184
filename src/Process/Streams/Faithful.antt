-- ===== src/Process/Streams/Faithful.antt =====
-- src/process.c: what the copied and the transcoded subtitle streams are after their set-up.
use ffmpeg_wasi.Base.{
  ◌≡◌, refl, sym, subst, arith, ℕ, suc, List, [], ◌∷◌, Option, none, some, Pairwise,
}
use ffmpeg_wasi.Base.Int.{ℤ}
use ffmpeg_wasi.Base.Text.{Bytes}
use ffmpeg_wasi.Av.{Rational, Result, ok, err, IfOk, IfOk-bind, IfOk-behind}
use ffmpeg_wasi.Process.Lanes.{Target}
use ffmpeg_wasi.Process.Copying.{Cpy}
use ffmpeg_wasi.Process.Spec.{Json}
use ffmpeg_wasi.Process.Spec.Options.{Dictionary}
use ffmpeg_wasi.Process.Setup.Sources.{call_result}
use ffmpeg_wasi.Process.Streams.{
  Origin, Lane, Muxing, cpy_of, filter_for, with_filter, setup_copy_stream, and_cpy, setup_copies,
}

module _ {J T D S : Type 0} (js : Json J T) (dict : Dictionary D) (av : Muxing D S)
    (origin_of : ℕ → ℕ → Origin) (lane_of : ℕ → Lane J D) where
  -- A filter is set up where one is named.
  abbrev pub IsFiltered : Option Bytes → Cpy → Type 0
  IsFiltered none c = c.bsf ≡ none
  IsFiltered (some name) c = ¬ c.bsf ≡ none

  -- A copied stream, to its target.
  abbrev pub IsCopied : Target → Cpy → Type 0
  IsCopied t c =
      (c.in_idx ≡ t.in_idx)
      × (c.st_idx ≡ t.st_idx)
      × (c.out_idx ≡ t.out_idx)
      × (c.codec_type ≡ (origin_of t.in_idx t.st_idx).codec_type)
      × (c.src_tb ≡ (origin_of t.in_idx t.st_idx).time_base)
      × (c.ost.time_base ≡ c.src_tb)
      × IsFiltered (filter_for js dict av origin_of lane_of (lane_of t.out_idx).bsf t.map_key) c

  abbrev CopiedAs : Target → Cpy × S → Type 0
  CopiedAs t x = IsCopied t x.0

  with_filter-IsCopied :
      (i : ℕ) (t : Target) (index : ℤ) (w : S) (name : Option Bytes)
      → filter_for js dict av origin_of lane_of (lane_of t.out_idx).bsf t.map_key ≡ name
      → IfOk
          (CopiedAs t)
          (with_filter js dict av origin_of lane_of i t (origin_of t.in_idx t.st_idx) index w name)
  with_filter-IsCopied i t index w none e = (
    refl,
    refl,
    refl,
    refl,
    refl,
    refl,
    subst
        (λ o.
          IsFiltered o
            (cpy_of js dict av origin_of lane_of t (origin_of t.in_idx t.st_idx) none index))
        (sym e) refl,
  )
  with_filter-IsCopied i t index w (some name) e =
      let o = origin_of t.in_idx t.st_idx in
      IfOk-behind (CopiedAs t) (call_result (av.bsf_parse i name w)) _ (λ w1.
        IfOk-behind (CopiedAs t) (call_result (av.bsf_parameters i w1)) _ (λ w2.
          IfOk-behind (CopiedAs t) (call_result (av.bsf_init i o.time_base w2)) _ (λ w3.
            IfOk-behind (CopiedAs t) (call_result (av.bsf_result i w3)) _ (λ w4.
              let tb = some (av.bsf_time_base i w3) in
              (
                refl,
                refl,
                refl,
                refl,
                refl,
                refl,
                subst (λ n. IsFiltered n (cpy_of js dict av origin_of lane_of t o tb index)) (sym e)
                    (some_ne_none (av.bsf_time_base i w3)),
              )))))
    where
      some_ne_none : (r : Rational) → ¬ some r ≡ none
      some_ne_none r h = ground (arith, h)

  setup_copy_stream-IsCopied :
      (i : ℕ) (t : Target) (w : S)
      → IfOk (CopiedAs t) (setup_copy_stream js dict av origin_of lane_of i t w)
  unfolding setup_copy_stream
  setup_copy_stream-IsCopied i t w =
      IfOk-behind (CopiedAs t) (call_result (av.parameters_copy i (av.new_stream t.out_idx w).1)) _
        (λ w2.
          with_filter-IsCopied i t (av.new_stream t.out_idx w).0 w2
            (filter_for js dict av origin_of lane_of (lane_of t.out_idx).bsf t.map_key) refl)

  -- Where the copied streams of a job are set up without an error, there is one for each target, in their
  -- order, of its input's stream and for its output: its packets are on the time base of that stream, as
  -- is the stream of the muxer, and it has a bitstream filter exactly where the output's
  -- `bitstream_filters` names one for its key that is not "none".
  pub setup_copies-IsCopied :
      (i : ℕ) (ts : List Target) (w : S)
      → IfOk
          (λ (x : List Cpy × S). Pairwise IsCopied ts x.0)
          (setup_copies js dict av origin_of lane_of i ts w)
  unfolding setup_copies
  setup_copies-IsCopied i [] w = tt
  setup_copies-IsCopied i (t ∷ ts) w =
      IfOk-bind (CopiedAs t) (λ (x : List Cpy × S). Pairwise IsCopied (t ∷ ts) x.0)
        (setup_copy_stream js dict av origin_of lane_of i t w)
        (λ (x : Cpy × S).
          and_cpy js dict av origin_of lane_of x.0
            (setup_copies js dict av origin_of lane_of (suc i) ts x.1))
        (setup_copy_stream-IsCopied i t w)
        (λ x p.
          and_cpy_lem x.0 p (setup_copies js dict av origin_of lane_of (suc i) ts x.1)
            (setup_copies-IsCopied (suc i) ts x.1))
    where
      and_cpy_lem :
          (c : Cpy)
          → IsCopied t c
          → (r : Result (List Cpy × S)) → IfOk (λ (x : List Cpy × S). Pairwise IsCopied ts x.0) r
          → IfOk
              (λ (x : List Cpy × S). Pairwise IsCopied (t ∷ ts) x.0)
              (and_cpy js dict av origin_of lane_of c r)
      and_cpy_lem c p (err code) q = tt
      and_cpy_lem c p (ok (cs, w')) q = (p, q)
