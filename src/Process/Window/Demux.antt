-- ===== src/Process/Window/Demux.antt =====
-- src/process.c: an input is not given up before every output's window on it has ended.
use ffmpeg_wasi.Base.{
  ◌≡◌, refl, sym, ap, ◌∙◌, ◌⊎◌, inl, inr, Bool, true, false, not, ◌&&◌, List, [], ◌∷◌, Option, none,
  some, if◌then◌else◌, arith, Bool-cases, if_true, if_false, any, All, subst,
}
use ffmpeg_wasi.Base.Int.{
  ℤ, pos, ◌+ℤ◌, ◌≤ℤ◌, ltb_ℤ, int64_max, IsInt64, +ℤ_parts, ≤ℤ_trans, eq_of_parts,
}
use ffmpeg_wasi.Process.Mux.{is_set}
use ffmpeg_wasi.Process.Window.{Window, seek_base, cut_of, max_cut, in_cutoff_us, av_time_base}

-- An output with no window.
abbrev pub is_unbounded : Window → Bool
is_unbounded o = not o.duration.is_positive && not o.end.is_positive

-- What spec_seconds lets through: from 0 to 3.2e10 seconds.
abbrev pub IsUsual : Window → Type 0
IsUsual o =
    (pos 0 ≤ℤ o.duration.micros)
    × (o.duration.micros ≤ℤ pos 32000000000000000)
    × (pos 0 ≤ℤ o.end.micros)
    × (o.end.micros ≤ℤ pos 32000000000000000)

abbrev IsUsualSeek : ℤ → Type 0
IsUsualSeek seek = (pos 0 ≤ℤ seek_base seek) × (seek_base seek ≤ℤ pos 32000000000000000)

abbrev InRange : ℤ → Type 0
InRange c = (pos 0 ≤ℤ c) × (c ≤ℤ pos 64000000000000000)

sum-InRange :
    (b c : Bool) (base d e : ℤ)
    → (pos 0 ≤ℤ base) × (base ≤ℤ pos 32000000000000000)
    → (pos 0 ≤ℤ d) × (d ≤ℤ pos 32000000000000000)
    → (pos 0 ≤ℤ e) × (e ≤ℤ pos 32000000000000000)
    → InRange (if b then base +ℤ d else (if c then pos 0 else base) +ℤ e)
sum-InRange true c base d e hb hd he = omega (arith, +ℤ_parts base d)
sum-InRange false true base d e hb hd he = omega (arith, +ℤ_parts (pos 0) e)
sum-InRange false false base d e hb hd he = omega (arith, +ℤ_parts base e)

cut_of-InRange : (seek : ℤ) (o : Window) → IsUsualSeek seek → IsUsual o → InRange (cut_of seek o)
unfolding cut_of
cut_of-InRange seek o hs (d0, d1, e0, e1) =
    sum-InRange o.duration.is_positive o.copy_ts (seek_base seek) o.duration.micros o.end.micros hs
      (d0, d1) (e0, e1)

-- Where the window of an output ends on the timeline of an input that is sought to `seek`, in
-- microseconds: its duration counts from there, its end too unless the output keeps the timestamps.
abbrev pub ends_at : ℤ → Window → ℤ
ends_at seek o =
    let start = if is_set seek then seek else pos 0 in
    if o.duration.is_positive
    then start +ℤ o.duration.micros
    else if o.copy_ts
    then o.end.micros
    else start +ℤ o.end.micros

cut_of-ends_at : (seek : ℤ) (o : Window) → cut_of seek o ≡ ends_at seek o
unfolding cut_of
cut_of-ends_at seek o = ground (arith, zero_add o.end.micros)
  where
    zero_add : (x : ℤ) → pos 0 +ℤ x ≡ x
    zero_add x = eq_of_parts (pos 0 +ℤ x) x (omega (arith, +ℤ_parts (pos 0) x))

abbrev larger : ℤ → ℤ → ℤ
larger m c = if ltb_ℤ m c then c else m

larger_lem :
    (m c : ℤ) → InRange m → InRange c → (m ≤ℤ larger m c) × (c ≤ℤ larger m c) × InRange (larger m c)
larger_lem m c hm hc = ground (arith, hm, hc)

-- The fold, from a first value `m`.
max_cut_lem :
    (seek m : ℤ) (os : List Window)
    → IsUsualSeek seek
    → All IsUsual os
    → InRange m
    → ((max_cut seek m os ≡ none) × (any is_unbounded os ≡ true))
      ⊎ ((x : ℤ) × (max_cut seek m os ≡ some x)
          × (any is_unbounded os ≡ false)
          × (m ≤ℤ x)
          × InRange x
          × All (λ o. cut_of seek o ≤ℤ x) os)
unfolding max_cut
max_cut_lem seek m [] hs ho hm = inr (m, refl, refl, omega arith, hm, tt)
max_cut_lem seek m (o ∷ os) hs (ho, hos) hm = elim (Bool-cases (is_unbounded o)) [
  | inl u ↦ inl (if_true _ _ u, ground (arith, u))
  | inr u ↦
      let c : ℤ = cut_of seek o in
      let (p, q, r) = larger_lem m c hm (cut_of-InRange seek o hs ho) in
      elim (max_cut_lem seek (larger m c) os hs hos r) [
        | inl (e, a) ↦ inl (if_false _ _ u ∙ e, ground (arith, u, a))
        | inr (x, e, a, l, rx, al) ↦ inr (
          x,
          if_false _ _ u ∙ e,
          ground (arith, u, a),
          ≤ℤ_trans m (larger m c) x p l,
          rx,
          (≤ℤ_trans c (larger m c) x q l, al),
        )
      ]
]

All-covered :
    (seek x : ℤ) (os : List Window)
    → IsUsualSeek seek
    → All IsUsual os
    → All (λ o. cut_of seek o ≤ℤ x) os
    → All (λ o. IsInt64 (ends_at seek o) × (ends_at seek o +ℤ av_time_base ≤ℤ x +ℤ av_time_base)) os
All-covered seek x [] hs ho al = tt
All-covered seek x (o ∷ os) hs (ho, hos) (a, al) =
    let r = cut_of-InRange seek o hs ho in
    (
      subst (λ c. IsInt64 c × (c +ℤ av_time_base ≤ℤ x +ℤ av_time_base)) (cut_of-ends_at seek o)
          (
            omega (arith, r),
            omega (arith, a, +ℤ_parts (cut_of seek o) av_time_base, +ℤ_parts x av_time_base),
          ),
      All-covered seek x os hs hos al,
    )

-- For a seek position and windows that spec_seconds lets through, the cutoff that op_process
-- computes for an input is INT64_MAX if an output has no window, and otherwise lies at least a
-- second past the end of every output's window as counted from the input's seek position, where
-- neither that end nor the cutoff is outside `int64_t`.
pub in_cutoff_us-covers :
    (seek : ℤ) (outs : List Window)
    → (pos 0 ≤ℤ seek_base seek) × (seek_base seek ≤ℤ pos 32000000000000000)
    → All IsUsual outs
    → ((any is_unbounded outs ≡ true) × (in_cutoff_us seek outs ≡ int64_max))
      ⊎ ((any is_unbounded outs ≡ false)
          × IsInt64 (in_cutoff_us seek outs)
          × All
              (λ o.
                IsInt64 (ends_at seek o)
                × (ends_at seek o +ℤ av_time_base ≤ℤ in_cutoff_us seek outs))
              outs)
unfolding in_cutoff_us
in_cutoff_us-covers seek outs hs ho = elim (max_cut_lem seek (pos 0) outs hs ho (omega arith)) [
  | inl (e, a) ↦ inl (a, ap close e)
  | inr (x, e, a, l, rx, al) ↦ inr (
    a,
    subst (λ o. IsInt64 (close o)) (sym e) (omega (arith, +ℤ_parts x av_time_base)),
    subst
        (λ c.
          All (λ o. IsInt64 (ends_at seek o) × (ends_at seek o +ℤ av_time_base ≤ℤ close c)) outs)
        (sym e) (All-covered seek x outs hs ho al),
  )
]
  where
    close : Option ℤ → ℤ
    close none = int64_max
    close (some m) = m +ℤ av_time_base
