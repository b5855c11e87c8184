-- ===== src/Process/Window/Chapter.antt =====
-- src/process.c: a chapter in the output is the chapter cut to the window.
use ffmpeg_wasi.Base.{
  ◌≡◌, refl, ap, ◌∙◌, ◌⊎◌, inl, inr, Bool, true, false, Option, none, some, if◌then◌else◌, arith,
  Bool-cases, if_true, if_false,
}
use ffmpeg_wasi.Base.Int.{ℤ, ◌-ℤ◌, ◌≤ℤ◌, ◌<ℤ◌, ltb_ℤ, leb_ℤ, max_ℤ, eq_of_parts}
use ffmpeg_wasi.Process.Window.{chapter_window}
use ffmpeg_wasi.Process.Window.Subtitle.{origin, shown_from, shown_until, minus_zero}

later : (s k : ℤ) → (if ltb_ℤ s k then k else s) ≡ max_ℤ s k
later s k = elim (Bool-cases (ltb_ℤ s k)) [
  | inl c ↦ ground (arith, c)
  | inr c ↦ ground (arith, c, eq_of_parts s k)
]

timeline :
    (t : Bool) (seek0 f u : ℤ)
    → if◌then◌else◌ {A = Option (ℤ × ℤ)} t (some (f, u)) (some (f -ℤ seek0, u -ℤ seek0))
      ≡ some (f -ℤ origin t seek0, u -ℤ origin t seek0)
timeline true seek0 f u = ground (arith, minus_zero f, minus_zero u)
timeline false seek0 f u = refl

-- A chapter that is not empty, in a job whose window is not empty, is left out exactly where it
-- has no part between the seek position and the cutoff, and is otherwise carried over as
-- that part, which is not empty, counted from the seek position, or from 0 under copy_ts.
pub chapter_window-exact :
    (seek0 cutoff : ℤ) (copy_ts : Bool) (s e : ℤ)
    → s <ℤ e
    → seek0 <ℤ cutoff
    → (let z : ℤ = origin copy_ts seek0 in
        ((chapter_window seek0 cutoff copy_ts s e ≡ none) × ((cutoff ≤ℤ s) ⊎ (e ≤ℤ seek0)))
        ⊎ ((chapter_window seek0 cutoff copy_ts s e
              ≡ some (shown_from seek0 s -ℤ z, shown_until cutoff e -ℤ z))
            × (shown_from seek0 s <ℤ shown_until cutoff e)))
unfolding chapter_window
chapter_window-exact seek0 cutoff copy_ts s e h k = elim (Bool-cases (leb_ℤ cutoff s)) [
  | inl a ↦ inl (if_true _ _ a, inl (ground (arith, a)))
  | inr a ↦ elim (Bool-cases (leb_ℤ e seek0)) [
    | inl b ↦ inl (if_false _ _ a ∙ if_true _ _ b, inr (ground (arith, b)))
    | inr b ↦ inr (
      if_false _ _ a
          ∙ if_false _ _ b
          ∙ ap
              (λ f.
                if◌then◌else◌ {A = Option (ℤ × ℤ)} copy_ts (some (f, shown_until cutoff e))
                  (some (f -ℤ seek0, shown_until cutoff e -ℤ seek0)))
              (later s seek0)
          ∙ timeline copy_ts seek0 (shown_from seek0 s) (shown_until cutoff e),
      ground (arith, a, b, h, k),
    )
  ]
]
