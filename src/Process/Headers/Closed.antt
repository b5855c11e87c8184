-- ===== src/Process/Headers/Closed.antt =====
-- src/process.c: no output stays open, on whatever path op_process comes to its end.
use ffmpeg_wasi.Base.{
  ◌≡◌, ◌≢◌, sym, subst, ◌∙◌, ℕ, zero, suc, ◌+◌, ◌≤◌, ◌<◌, true, false, not, ◌&&◌, List, [], ◌∷◌,
  Option, none, some, arith, length, ◌==◌, if_elim, if◌then◌else◌, Bool-cases, inl, inr,
}
use ffmpeg_wasi.Av.{AvError, Result, ok, err}
use ffmpeg_wasi.Process.Spec.Options.{Dictionary}
use ffmpeg_wasi.Process.Headers.{
  Muxers, and_then, open_file, after_header, header_at, begin_output, begin_outputs,
  close_output_at, close_outputs,
}

-- `pb` is set by afio_open_output of its own muxer alone, which sets it to NULL where it fails, and
-- afio_close_output sets it to NULL.
pub record IsMuxers {D S : Type 0} (av : Muxers D S) : Type 0 where
  pub metadata-pb : (i : ℕ) (w : S) (j : ℕ) → av.has_pb j (av.apply_metadata i w).1 ≡ av.has_pb j w
  pub open-pb : (i : ℕ) (w : S) (j : ℕ) → i ≢ j → av.has_pb j (av.open_output i w).1 ≡ av.has_pb j w
  pub install-pb : (i : ℕ) (w : S) (j : ℕ) → av.has_pb j (av.install_muxer_io i w) ≡ av.has_pb j w
  pub header_at-pb :
      (i : ℕ) (d : D) (w : S) (j : ℕ) → av.has_pb j (av.write_header i d w).1 ≡ av.has_pb j w
  pub close-pb :
      (i : ℕ) (w : S) (j : ℕ)
      → av.has_pb j (av.close_output i w) ≡ (if i == j then false else av.has_pb j w)

module _ {D S : Type 0} (dict : Dictionary D) (av : Muxers D S) (laws : IsMuxers av) where
  -- The outputs that are open are below `n`, and have files of their own.
  abbrev pub OpenBelow : ℕ → S → Type 0
  OpenBelow n w = (j : ℕ) → av.has_pb j w ≡ true → (j < n) × (av.no_file j ≡ false)

  OpenBelow-weaken : (m n : ℕ) (w : S) → m ≤ n → OpenBelow m w → OpenBelow n w
  OpenBelow-weaken m n w l o j h = let (a, b) = o j h in (omega (arith, a, l), b)

  OpenBelow-same :
      (n : ℕ) (w w' : S)
      → ((j : ℕ) → av.has_pb j w' ≡ av.has_pb j w)
      → OpenBelow n w
      → OpenBelow n w'
  OpenBelow-same n w w' e o j h = o j (sym (e j) ∙ h)

  and_then-OpenBelow :
      (n : ℕ) (k : S → Option AvError × S) (x : Option AvError × S)
      → OpenBelow n x.1
      → ((w : S) → OpenBelow n w → OpenBelow n (k w).1)
      → OpenBelow n (and_then dict av k x).1
  and_then-OpenBelow n k (none, w) o f = f w o
  and_then-OpenBelow n k (some code, w) o f = o

  open_file-OpenBelow :
      (i : ℕ) (w : S) → OpenBelow i w → OpenBelow (suc i) (open_file dict av i w).1
  open_file-OpenBelow i w o =
      if_elim (λ (x : Option AvError × S). OpenBelow (suc i) x.1) (av.no_file i) (none, w)
        (av.open_output i w) (λ e. OpenBelow-weaken i (suc i) w (omega arith) o)
        (λ e j h. elim (Bool-cases (i == j)) [
          | inl p ↦ (ground (arith, p), subst (λ k. av.no_file k ≡ false) (ground (arith, p)) e)
          | inr p ↦
              let (a, b) = o j (sym (laws.open-pb i w j (ground (arith, p))) ∙ h) in
              (omega (arith, a), b)
        ])

  after_header-OpenBelow :
      (n : ℕ) (x : Result D × S) → OpenBelow n x.1 → OpenBelow n (after_header dict av x).1
  after_header-OpenBelow n (err code, w) o = o
  after_header-OpenBelow n (ok opts, w) o = o

  begin_output-OpenBelow :
      (i : ℕ) (opts : D) (w : S)
      → OpenBelow i w
      → OpenBelow (suc i) (begin_output dict av i opts w).1
  unfolding begin_output
  begin_output-OpenBelow i opts w o =
      and_then-OpenBelow (suc i) (header_at dict av i opts)
        (and_then dict av (open_file dict av i) (av.apply_metadata i w))
        (opened (av.apply_metadata i w)
          (OpenBelow-same i w (av.apply_metadata i w).1 (laws.metadata-pb i w) o))
        (λ v p. after_header-OpenBelow (suc i) (av.write_header i opts (av.install_muxer_io i v)) (
          OpenBelow-same (suc i) v (av.write_header i opts (av.install_muxer_io i v)).1
            (λ j. laws.header_at-pb i opts (av.install_muxer_io i v) j ∙ laws.install-pb i v j) p))
    where
      opened :
          (x : Option AvError × S)
          → OpenBelow i x.1
          → OpenBelow (suc i) (and_then dict av (open_file dict av i) x).1
      opened (none, v) p = open_file-OpenBelow i v p
      opened (some code, v) p = OpenBelow-weaken i (suc i) v (omega arith) p

  begin_outputs-OpenBelow :
      (i : ℕ) (os : List D) (w : S)
      → OpenBelow i w
      → OpenBelow (i + length os) (begin_outputs dict av i os w).1
  unfolding begin_outputs
  begin_outputs-OpenBelow i [] w o = OpenBelow-weaken i (i + 0) w (omega arith) o
  begin_outputs-OpenBelow i (opts ∷ os) w o =
      rest (begin_output dict av i opts w) (begin_output-OpenBelow i opts w o)
        (λ v p. begin_outputs-OpenBelow (suc i) os v p)
    where
      rest :
          (x : Option AvError × S)
          → OpenBelow (suc i) x.1
          → ((v : S)
              → OpenBelow (suc i) v
              → OpenBelow (suc i + length os) (begin_outputs dict av (suc i) os v).1)
          → OpenBelow
              (i + suc (length os))
              (and_then dict av (begin_outputs dict av (suc i) os) x).1
      rest (none, v) p f =
          OpenBelow-weaken (suc i + length os) (i + suc (length os))
            (begin_outputs dict av (suc i) os v).1 (omega arith) (f v p)
      rest (some code, v) p f = OpenBelow-weaken (suc i) (i + suc (length os)) v (omega arith) p

  -- What is open after the turn of output `i` was open, and is not that output.
  close_output_at-open :
      (i : ℕ) (w : S) (j : ℕ)
      → (av.has_pb i w ≡ true → av.no_file i ≡ false)
      → av.has_pb j (close_output_at dict av i w) ≡ true
      → (av.has_pb j w ≡ true) × (i ≢ j)
  unfolding close_output_at
  close_output_at-open i w j h =
      if_elim (λ (v : S). av.has_pb j v ≡ true → (av.has_pb j w ≡ true) × (i ≢ j))
        (av.has_pb i w && not (av.no_file i)) (av.close_output i w) w
        (λ e p. let q = sym (laws.close-pb i w j) ∙ p in (ground (arith, q), ground (arith, q)))
        (λ e p. (
          p,
          λ same.
              let own = subst (λ k. av.has_pb k w ≡ true) (sym same) p in
              absurd (ground (arith, e, own, h own)),
        ))

  close_outputs-closed :
      (n i : ℕ) (w : S)
      → ((j : ℕ) → av.has_pb j w ≡ true → (i ≤ j) × (j < i + n) × (av.no_file j ≡ false))
      → (j : ℕ) → av.has_pb j (close_outputs dict av n i w) ≡ false
  unfolding close_outputs
  close_outputs-closed zero i w h j = ground (arith, h j)
  close_outputs-closed (suc n) i w h j =
      close_outputs-closed n (suc i) (close_output_at dict av i w)
        (λ k e.
          let (p, q) = close_output_at-open i w k (λ own. (h i own).2) e in
          let (a, b, c) = h k p in (omega (arith, a, q), omega (arith, b), c))
        j

  -- From a state with no output open, op_process's two loops over the outputs leave none open, whether
  -- the first of them has come to its end or failed, at whatever call.
  pub begin_outputs-Released :
      (os : List D) (w : S)
      → ((j : ℕ) → av.has_pb j w ≡ false)
      → (j : ℕ)
      → av.has_pb j (close_outputs dict av (length os) 0 (begin_outputs dict av 0 os w).1) ≡ false
  begin_outputs-Released os w c =
      let o = begin_outputs-OpenBelow 0 os w (λ j h. absurd (ground (arith, c j, h))) in
      close_outputs-closed (length os) 0 (begin_outputs dict av 0 os w).1
        (λ j h. let (a, b) = o j h in (omega arith, omega (arith, a), b))
