-- ===== src/Native/Concat/Memory.antt =====
-- src/nativeio.c: struct plsrc, pl_read and pl_seek, the playlist as libav reads it from memory.
use ffmpeg_wasi.Base.{
  ℕ, zero, suc, ◌+◌, ◌-◌, ◌≤◌, ◌<◌, ◌≡◌, refl, sym, ap, ◌∙◌, Bool, true, false, ◌||◌, [], ◌∷◌, ◌++◌,
  ltb, leb, Bool-cases, leb→le, if_true, if_false, Option, none, some, if◌then◌else◌, length, take,
  drop, arith, ◌⊎◌, inl, inr, take-append-drop,
}
use mathlib.Core.Option as Option
use ffmpeg_wasi.Base.Int.{ℤ, pos, negsuc, ◌+ℤ◌, ltb_ℤ, pos_part}
use ffmpeg_wasi.Base.Text.{Bytes}
use ffmpeg_wasi.Av.{Result, ok, err, einval, eof}

-- `len` is the length of `data`.
pub record Plsrc : Type 0 where
  pub text : Bytes
  pub at : ℕ

-- The bytes that pl_read copies into a buffer of `n` bytes, and the source after it.
unfoldable pub pl_read : Plsrc → ℕ → Result (Bytes × Plsrc)
pl_read m n =
    let k = length m.text - m.at in
    if leb (length m.text) m.at
    then err eof
    else (let k' = if ltb n k then n else k in
        ok (take k' (drop m.at m.text), record m { at = m.at + k' }))

-- AVSEEK_SIZE, SEEK_CUR and SEEK_END; `seek_set` is any other value.
pub data Whence : Type 0 where
  seek_size seek_cur seek_end seek_set : Whence

abbrev pub target : Plsrc → ℤ → Whence → ℤ
target m off seek_cur = pos m.at +ℤ off
target m off seek_end = pos (length m.text) +ℤ off
target m off _ = off

abbrev pub is_outside : Plsrc → ℤ → Bool
is_outside m np = ltb_ℤ np (pos 0) || ltb_ℤ (pos (length m.text)) np

abbrev go_to : Plsrc → ℤ → Result ℤ × Plsrc
go_to m np = if is_outside m np then (err einval, m) else (ok np, record m { at = pos_part np })

unfoldable pub pl_seek : Plsrc → ℤ → Whence → Result ℤ × Plsrc
pl_seek m off seek_size = (ok (pos (length m.text)), m)
pl_seek m off w = go_to m (target m off w)

abbrev gather : (Plsrc → Option Bytes) → Result (Bytes × Plsrc) → Option Bytes
gather f (err e) = some []
gather f (ok (d, m)) = Option.map (d ++◌) (f m)

-- What a caller with a buffer of `n` bytes has read at the end of the source, within `fuel` calls.
unfoldable pub drain : ℕ → Plsrc → ℕ → Option Bytes
drain zero m n = none
drain (suc fuel) m n = gather (λ m'. drain fuel m' n) (pl_read m n)

drop_nil : (i : ℕ) → drop {A = ℕ} i [] ≡ []
drop_nil zero = refl
drop_nil (suc i) = refl

drop_add : (i k : ℕ) (t : Bytes) → drop (i + k) t ≡ drop k (drop i t)
drop_add zero k t = let e : 0 + k ≡ k = omega arith in ap (λ n. drop n t) e
drop_add (suc i) k [] = drop_nil (suc i + k) ∙ sym (drop_nil k)
drop_add (suc i) k (c ∷ t) =
    let e : suc i + k ≡ suc (i + k) = omega arith in ap (λ n. drop n (c ∷ t)) e ∙ drop_add i k t

drop_all : (i : ℕ) (t : Bytes) → length t ≤ i → drop i t ≡ []
drop_all zero [] h = refl
drop_all zero (c ∷ t) h = absurd (omega (arith, h))
drop_all (suc i) [] h = refl
drop_all (suc i) (c ∷ t) h = drop_all i t (omega arith)

take-drop_rest : (i k : ℕ) (t : Bytes) → take k (drop i t) ++ drop (i + k) t ≡ drop i t
take-drop_rest i k t = ap (take k (drop i t) ++◌) (drop_add i k t) ∙ take-append-drop k (drop i t)

-- One call: the end of the text, or a piece of it that is not empty.
pl_read_lem :
    (m : Plsrc) (n : ℕ)
    → 0 < n
    → ((length m.text ≤ m.at) × (pl_read m n ≡ err eof))
      ⊎ ((k : ℕ) × (0 < k)
          × (m.at + k ≤ length m.text)
          × (pl_read m n ≡ ok (take k (drop m.at m.text), record m { at = m.at + k })))
unfolding pl_read
pl_read_lem m n h = elim (Bool-cases (leb (length m.text) m.at)) [
  | inl e ↦ inl (leb→le _ _ e, if_true _ _ e)
  | inr e ↦
      let k = length m.text - m.at in
      inr (if ltb n k then n else k, ground arith, ground arith, if_false _ _ e)
]

drain_lem :
    (fuel : ℕ) (m : Plsrc) (n : ℕ)
    → 0 < n
    → length m.text - m.at < fuel
    → drain fuel m n ≡ some (drop m.at m.text)
unfolding drain
drain_lem zero m n h f = absurd (omega arith)
drain_lem (suc fuel) m n h f = elim (pl_read_lem m n h) [
  | inl (l, e) ↦ ap (gather (λ m'. drain fuel m' n)) e ∙ ap some (sym (drop_all m.at m.text l))
  | inr (k, p, l, e) ↦
      ap (gather (λ m'. drain fuel m' n)) e
      ∙ ap (Option.map (take k (drop m.at m.text) ++◌))
          (drain_lem fuel (record m { at = m.at + k }) n h (omega arith))
      ∙ ap some (take-drop_rest m.at k m.text)
]

go_to_lem :
    (m : Plsrc) (np : ℤ)
    → ((go_to m np ≡ (err einval, m)) × (is_outside m np ≡ true))
      ⊎ ((i : ℕ) × (i ≤ length m.text)
          × (np ≡ pos i)
          × (go_to m np ≡ (ok (pos i), record m { at = i })))
go_to_lem m np = elim (Bool-cases (is_outside m np)) [
  | inl e ↦ inl (if_true _ _ e, e)
  | inr e ↦ inside m np e
]
  where
    inside :
        (m : Plsrc) (np : ℤ)
        → is_outside m np ≡ false
        → ((go_to m np ≡ (err einval, m)) × (is_outside m np ≡ true))
          ⊎ ((i : ℕ) × (i ≤ length m.text)
              × (np ≡ pos i)
              × (go_to m np ≡ (ok (pos i), record m { at = i })))
    inside m (pos i) e = inr (i, ground (arith, e), refl, if_false _ _ e)
    inside m (negsuc i) e = absurd (ground (arith, e))

drain-goes :
    (m : Plsrc) (n i : ℕ)
    → 0 < n
    → drain (suc (length m.text)) (record m { at = i }) n ≡ some (drop i m.text)
drain-goes m n i h = drain_lem (suc (length m.text)) (record m { at = i }) n h (omega arith)

-- The outcome of a seek to `np`, as `pl_seek-drain` puts it.
abbrev Goes : Plsrc → ℕ → ℤ → Type 0
Goes m n np =
    (i : ℕ) × (m' : Plsrc) × (np ≡ pos i)
    × (go_to m np ≡ (ok (pos i), m'))
    × (drain (suc (length m.text)) m' n ≡ some (drop i m.text))

goes :
    {S : Type 0} (m : Plsrc) (n : ℕ) (np : ℤ)
    → 0 < n
    → ((go_to m np ≡ (err einval, m)) × (is_outside m np ≡ true))
      ⊎ ((i : ℕ) × (i ≤ length m.text)
          × (np ≡ pos i)
          × (go_to m np ≡ (ok (pos i), record m { at = i })))
    → ((go_to m np ≡ (err einval, m)) × (is_outside m np ≡ true)) ⊎ S ⊎ Goes m n np
goes m n np h (inl x) = inl x
goes m n np h (inr (i, l, e, g)) = inr (inr (i, record m { at = i }, e, g, drain-goes m n i h))

-- A source that is read in a buffer that is not empty, from a position that pl_seek has gone to,
-- gives the text from that position to its end, then AVERROR_EOF. A seek to a position
-- outside the text is refused and moves nothing, and a question about the size moves nothing.
pub pl_seek-drain :
    (m : Plsrc) (off : ℤ) (w : Whence) (n : ℕ)
    → 0 < n
    → ((pl_seek m off w ≡ (err einval, m)) × (is_outside m (target m off w) ≡ true))
      ⊎ ((w ≡ seek_size) × (pl_seek m off w ≡ (ok (pos (length m.text)), m)))
      ⊎ ((i : ℕ) × (m' : Plsrc) × (target m off w ≡ pos i)
          × (pl_seek m off w ≡ (ok (pos i), m'))
          × (drain (suc (length m.text)) m' n ≡ some (drop i m.text)))
unfolding pl_seek
pl_seek-drain m off seek_size n h = inr (inl (refl, refl))
pl_seek-drain m off seek_cur n h =
    goes m n (target m off seek_cur) h (go_to_lem m (target m off seek_cur))
pl_seek-drain m off seek_end n h =
    goes m n (target m off seek_end) h (go_to_lem m (target m off seek_end))
pl_seek-drain m off seek_set n h =
    goes m n (target m off seek_set) h (go_to_lem m (target m off seek_set))
