-- ===== src/Process/Engine/Pads.antt =====
-- src/process.c: how the pads of the graph change while the demux loop runs: none opens again.
use ffmpeg_wasi.Base.{
  ℕ, zero, suc, ◌≡◌, refl, ap, ◌∙◌, ◌⊎◌, inl, inr, Bool, true, false, ◌||◌, not, List, [], ◌∷◌,
  ◌==◌, All, arith,
}
use ffmpeg_wasi.Process.Graph.{GIn}
use ffmpeg_wasi.Process.Graph.Closing.{Kept, Kept-trans, Flushed}

-- Every pad of input `i` is closed.
abbrev pub is_shut : ℕ → GIn → Bool
is_shut i g = not (g.in_idx == i) || g.closed

abbrev pub ShutFor : ℕ → List GIn → Type 0
ShutFor i gin = All (λ g. is_shut i g ≡ true) gin

-- The inputs from number `i` on whose flags are up have no open pad.
abbrev pub ShutAll : ℕ → List Bool → List GIn → Type 0
ShutAll i [] gin = Unit
ShutAll i (e ∷ es) gin = ((e ≡ false) ⊎ ShutFor i gin) × ShutAll (suc i) es gin

-- No pad of `n` inputs from number `i` on is open.
abbrev pub ShutFrom : ℕ → ℕ → List GIn → Type 0
ShutFrom i zero gin = Unit
ShutFrom i (suc n) gin = ShutFor i gin × ShutFrom (suc i) n gin

-- Pads that move on: none changes its input or opens again.
abbrev pub Moved : List GIn → List GIn → Type 0
Moved [] [] = Unit
Moved (g ∷ gs) (h ∷ hs) = Kept g h × Moved gs hs
Moved [] (h ∷ hs) = true ≡ false
Moved (g ∷ gs) [] = true ≡ false

pub Kept-refl : (g : GIn) → Kept g g
Kept-refl g = (g.rebase, false, refl)

pub Moved-refl : (gs : List GIn) → Moved gs gs
Moved-refl [] = tt
Moved-refl (g ∷ gs) = (Kept-refl g, Moved-refl gs)

pub Kept-is_shut : (i : ℕ) (g h : GIn) → Kept g h → is_shut i g ≡ true → is_shut i h ≡ true
Kept-is_shut i g h (r, b, p) e = ap (is_shut i) p ∙ ground (arith, e)

pub Moved-ShutFor : (i : ℕ) (gs hs : List GIn) → Moved gs hs → ShutFor i gs → ShutFor i hs
Moved-ShutFor i [] [] m s = tt
Moved-ShutFor i (g ∷ gs) (h ∷ hs) (k, m) (e, s) =
    (Kept-is_shut i g h k e, Moved-ShutFor i gs hs m s)
Moved-ShutFor i [] (h ∷ hs) m s = ground (arith, m)
Moved-ShutFor i (g ∷ gs) [] m s = ground (arith, m)

pub Moved-ShutAll :
    (i : ℕ) (es : List Bool) (gs hs : List GIn) → Moved gs hs → ShutAll i es gs → ShutAll i es hs
Moved-ShutAll i [] gs hs m s = tt
Moved-ShutAll i (e ∷ es) gs hs m (inl f, s) = (inl f, Moved-ShutAll (suc i) es gs hs m s)
Moved-ShutAll i (e ∷ es) gs hs m (inr f, s) =
    (inr (Moved-ShutFor i gs hs m f), Moved-ShutAll (suc i) es gs hs m s)

pub Flushed-Moved : (i : ℕ) (gs hs : List GIn) → Flushed i gs hs → Moved gs hs × ShutFor i hs
Flushed-Moved i [] [] f = (tt, tt)
Flushed-Moved i (g ∷ gs) (h ∷ hs) (inl (e, k, c), f) =
    let (m, s) = Flushed-Moved i gs hs f in ((k, m), (ground (arith, c), s))
Flushed-Moved i (g ∷ gs) (h ∷ hs) (inr (e, p), f) =
    let (m, s) = Flushed-Moved i gs hs f in
    (((g.rebase, false, p), m), (ap (is_shut i) p ∙ ground (arith, e), s))
Flushed-Moved i [] (h ∷ hs) f = ground (arith, f)
Flushed-Moved i (g ∷ gs) [] f = ground (arith, f)

pub Moved-trans : (gs hs ks : List GIn) → Moved gs hs → Moved hs ks → Moved gs ks
Moved-trans [] [] [] m n = tt
Moved-trans (g ∷ gs) (h ∷ hs) (k ∷ ks) (a, m) (b, n) =
    (Kept-trans g h k a b, Moved-trans gs hs ks m n)
Moved-trans [] (h ∷ hs) ks m n = ground (arith, m)
Moved-trans (g ∷ gs) [] ks m n = ground (arith, m)
Moved-trans [] [] (k ∷ ks) m n = ground (arith, n)
Moved-trans (g ∷ gs) (h ∷ hs) [] m n = ground (arith, n)
