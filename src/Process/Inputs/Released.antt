-- ===== src/Process/Inputs/Released.antt =====
-- src/process.c: which inputs are open when the loop over `inputs` has ended, and after op_process has
-- closed those that it counts.
use ffmpeg_wasi.Base.{
  ◌≡◌, refl, ◌∙◌, ℕ, zero, suc, ◌+◌, ◌≤◌, ◌<◌, Bool, true, false, List, [], ◌∷◌, ◌++◌, none, arith,
  length, length-append, leb, ltb, if_elim,
}
use ffmpeg_wasi.Av.{Result, ok, err}
use ffmpeg_wasi.Process.Spec.{Json, Doubles}
use ffmpeg_wasi.Process.Spec.Options.{Dictionary}
use ffmpeg_wasi.Process.Inputs.{
  max_inputs, Demuxers, SeekWindow, Opening, open_one_input, seek_input, after_seeking,
  after_opening, open_inputs, close_inputs,
}
use ffmpeg_wasi.Process.Inputs.Held.{IsDemuxers, Opens, open_one_input-Opens, seek_input-same}

module _ {J T D F S : Type 0} (js : Json J T) (num : Doubles T) (dict : Dictionary D)
    (av : Demuxers D F S) (is_open : ℕ → S → Bool) (laws : IsDemuxers av is_open) where
  -- The contexts that are open are those below `n`.
  abbrev pub OpenBelow : ℕ → S → Type 0
  OpenBelow n w = (j : ℕ) → is_open j w ≡ ltb j n

  -- What the loop over `specs` leaves, begun at input `ii`.
  abbrev Left : List J → ℕ → Opening S → Type 0
  Left specs ii r =
      OpenBelow r.n_in r.lib
      × (r.n_in ≤ max_inputs)
      × (r.code ≡ none → (r.n_in ≡ ii + length specs) × (length r.seeks ≡ r.n_in))

  after_seeking-Left :
      (spec : J) (specs : List J) (ii : ℕ) (seeks : List SeekWindow)
      (k : List SeekWindow → S → Opening S) (x : Result SeekWindow × S)
      → ((s : SeekWindow) (w : S)
          → OpenBelow (suc ii) w
          → Left specs (suc ii) (k (seeks ++ (s ∷ [])) w))
      → OpenBelow (suc ii) x.1
      → suc ii ≤ max_inputs
      → Left (spec ∷ specs) ii (after_seeking js num dict av k ii seeks x)
  after_seeking-Left spec specs ii seeks k (err code, w) f o l =
      (o, l, λ e. absurd (ground (arith, e)))
  after_seeking-Left spec specs ii seeks k (ok s, w) f o l =
      let (p, q, r) = f s w o in (p, q, λ e. (omega (arith, (r e).0), (r e).1))

  after_opening-Left :
      (spec : J) (specs : List J) (ii : ℕ) (seeks : List SeekWindow) (w : S) (k : S → Opening S)
      (x : Result (Unit {0}) × S)
      → OpenBelow ii w
      → ii ≤ max_inputs
      → Opens js num dict av is_open laws ii w x
      → ((w' : S) → OpenBelow (suc ii) w' → Left (spec ∷ specs) ii (k w'))
      → Left (spec ∷ specs) ii (after_opening js num dict av k ii seeks x)
  after_opening-Left spec specs ii seeks w k (err code, w') o l p f =
      (λ j. ground (arith, p j, o j), l, λ e. absurd (ground (arith, e)))
  after_opening-Left spec specs ii seeks w k (ok u, w') o l p f =
      f w' (λ j. ground (arith, p j, o j))

  open_inputs-Left :
      (specs : List J) (ii : ℕ) (seeks : List SeekWindow) (w : S)
      → OpenBelow ii w
      → ii ≤ max_inputs
      → length seeks ≡ ii
      → Left specs ii (open_inputs js num dict av specs ii seeks w)
  unfolding open_inputs
  open_inputs-Left [] ii seeks w o l n = (o, l, λ e. (omega arith, n))
  open_inputs-Left (spec ∷ specs) ii seeks w o l n =
      if_elim (Left (spec ∷ specs) ii) (leb max_inputs ii) _ _
        (λ full. (o, l, λ e. absurd (ground (arith, e))))
        (λ room.
          after_opening-Left spec specs ii seeks w _ (open_one_input js num dict av ii spec w) o l
            (open_one_input-Opens js num dict av is_open laws ii spec w (o ii ∙ ground arith))
            (λ w' o'.
              after_seeking-Left spec specs ii seeks (open_inputs js num dict av specs (suc ii))
                (seek_input js num dict av ii spec w')
                (λ s v o2.
                  open_inputs-Left specs (suc ii) (seeks ++ (s ∷ [])) v o2 (ground (arith, room))
                    (omega (arith, length-append seeks (s ∷ []))))
                (λ j. seek_input-same js num dict av is_open laws ii spec w' j ∙ o' j)
                (ground (arith, room))))

  -- Closing from `i` on, where those below `i` are closed.
  close_inputs-closed :
      (n i : ℕ) (w : S)
      → ((j : ℕ) → is_open j w ≡ true → (i ≤ j) × (j < i + n))
      → (j : ℕ) → is_open j (close_inputs js num dict av n i w) ≡ false
  unfolding close_inputs
  close_inputs-closed zero i w h j = ground (arith, h j)
  close_inputs-closed (suc n) i w h j =
      close_inputs-closed n (suc i) (av.afio_close i w)
        (λ k e. ground (arith, h k, laws.afio_close-Marked i w k)) j

  -- From a state with no input open, the loop over `inputs` leaves open exactly the `n_in` inputs that
  -- it counts, 32 at most, whether it fails (and at which call) or not, so that none is open once
  -- op_process has closed those; and where it does not fail, each input of the job is counted and has a
  -- seek window.
  pub open_inputs-Released :
      (specs : List J) (w : S)
      → ((j : ℕ) → is_open j w ≡ false)
      → let r = open_inputs js num dict av specs 0 [] w in
        ((j : ℕ) → is_open j r.lib ≡ ltb j r.n_in)
        × (r.n_in ≤ max_inputs)
        × ((j : ℕ) → is_open j (close_inputs js num dict av r.n_in 0 r.lib) ≡ false)
        × (r.code ≡ none → (r.n_in ≡ length specs) × (length r.seeks ≡ length specs))
  open_inputs-Released specs w c =
      let r = open_inputs js num dict av specs 0 [] w in
      let (o, l, d) = open_inputs-Left specs 0 [] w (λ j. c j ∙ ground arith) (omega arith) refl in
      (
        o,
        l,
        close_inputs-closed r.n_in 0 r.lib (λ j e. ground (arith, o j, e)),
        λ e. (omega (arith, (d e).0), omega (arith, (d e).0, (d e).1)),
      )
