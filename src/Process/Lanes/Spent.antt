-- ===== src/Process/Lanes/Spent.antt =====
-- src/process.c: when input_is_spent lets the engine stop reading an input.
use ffmpeg_wasi.Base.{
  ℕ, ◌≡◌, refl, Bool, true, false, not, ◌&&◌, ◌||◌, List, [], ◌∷◌, any, all, length, leb, ◌==◌,
  arith, if◌then◌else◌,
}
use ffmpeg_wasi.Process.Graph.{GIn, GOut}
use ffmpeg_wasi.Process.Lanes.{Target, input_is_spent}

-- What still takes frames or packets of an input: a copied or transcoded stream, or, as long as
-- some output of the graph is not done, or the graph has no output, a pad that is open.
abbrev pub has_consumer : List GIn → List GOut → List Target → List Target → ℕ → Bool
has_consumer gin gout cpy sub i =
    any (λ (t : Target). t.in_idx == i) cpy
    || (any (λ (t : Target). t.in_idx == i) sub
        || ((leb (length gout) 0 || any (λ (g : GOut). not g.done) gout)
            && any (λ (g : GIn). g.in_idx == i && not g.closed) gin))

not-all :
    (gout : List GOut) → any (λ (g : GOut). not g.done) gout ≡ not (all (λ (g : GOut). g.done) gout)
not-all [] = refl
not-all (g ∷ gs) = ground (arith, not-all gs)

-- An input is spent exactly if nothing takes frames or packets of it any more.
pub input_is_spent-no_consumer :
    (gin : List GIn) (gout : List GOut) (cpy sub : List Target) (i : ℕ)
    → input_is_spent gin gout cpy sub i ≡ not (has_consumer gin gout cpy sub i)
unfolding input_is_spent
input_is_spent-no_consumer gin gout cpy sub i = rw (not-all gout) (
    table (leb (length gout) 0) (all (λ (g : GOut). g.done) gout)
      (any (λ (g : GIn). g.in_idx == i && not g.closed) gin)
      (any (λ (t : Target). t.in_idx == i) cpy) (any (λ (t : Target). t.in_idx == i) sub))
  where
    table :
        (e d p c s : Bool)
        → (if not (not e && d) && p then false else if c then false else if s then false else true)
          ≡ not (c || (s || ((e || not d) && p)))
    table e d p c s = ground arith
