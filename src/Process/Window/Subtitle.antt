-- ===== src/Process/Window/Subtitle.antt =====
-- src/process.c: a subtitle cue in the output is the cue cut to the window.
use ffmpeg_wasi.Base.{
  ◌≡◌, refl, ap, ◌∙◌, ◌⊎◌, inl, inr, Bool, true, false, not, ◌&&◌, ◌||◌, Option, none, some,
  if◌then◌else◌, arith, Bool-cases, if_true, if_false,
}
use ffmpeg_wasi.Base.Int.{
  ℤ, pos, negsuc, ◌+ℤ◌, ◌-ℤ◌, ◌≤ℤ◌, ◌<ℤ◌, ltb_ℤ, leb_ℤ, ◌==ℤ◌, int64_max, max_ℤ, min_ℤ, +ℤ_parts,
  -ℤ_parts, eq_of_parts, int_laws,
}
use ffmpeg_wasi.Process.Timestamps.{ts_add, ts_sub, ts_add-clamp, ts_sub-clamp}
use ffmpeg_wasi.Process.Window.{Window, seek_base, sub_cutoff, clip_end, clip_start, sub_window}

-- A time of a thousand years at most, before or after 0, in microseconds: what spec_seconds lets
-- through, 3.2e10 seconds.
abbrev pub IsUsual : ℤ → Type 0
IsUsual t = (negsuc 32000000000000000 ≤ℤ t) × (t ≤ℤ pos 32000000000000000)

add_usual : (a b : ℤ) → IsUsual a → IsUsual b → ts_add a b ≡ a +ℤ b
add_usual a b ha hb = ts_add-clamp a b (omega arith) (omega arith) ∙ ground (arith, +ℤ_parts a b)

sub_usual : (a b : ℤ) → IsUsual a → IsUsual b → ts_sub a b ≡ a -ℤ b
sub_usual a b ha hb = ts_sub-clamp a b (omega arith) (omega arith) ∙ ground (arith, -ℤ_parts a b)

-- The cue's end, cut to the window.
clip_end_lem :
    (cutoff s d : ℤ)
    → IsUsual s
    → IsUsual d
    → clip_end cutoff s d ≡ (ltb_ℤ cutoff (s +ℤ d), min_ℤ (s +ℤ d) cutoff -ℤ s)
unfolding clip_end
clip_end_lem cutoff s d hs hd =
    ap
      (λ e.
        if not (cutoff ==ℤ int64_max) && ltb_ℤ cutoff e then (true, cutoff -ℤ s) else (false, d))
      (add_usual s d hs hd)
    ∙ elim (Bool-cases (ltb_ℤ cutoff (s +ℤ d))) [
      | inl c ↦ ground (arith, c, +ℤ_parts s d)
      | inr c ↦ ground (arith, c, +ℤ_parts s d, -ℤ_parts (s +ℤ d) s, eq_of_parts (s +ℤ d -ℤ s) d)
    ]

-- Where the output's timeline has its 0.
abbrev pub origin : Bool → ℤ → ℤ
origin copy_ts seek0 = if copy_ts then pos 0 else seek0

pub minus_zero : (a : ℤ) → a -ℤ pos 0 ≡ a
minus_zero a = omega int_laws

self_minus : (a : ℤ) → a -ℤ a ≡ pos 0
self_minus a = omega int_laws

minus_self : (d s : ℤ) → d -ℤ (s -ℤ s) ≡ d
minus_self d s = omega int_laws

plus_minus : (d s k : ℤ) → d +ℤ (s -ℤ k) ≡ d -ℤ (k -ℤ s)
plus_minus d s k = omega int_laws

-- The cue's start, moved up to the seek position.
clip_start_lem :
    (copy_ts : Bool) (seek0 s d : ℤ)
    → IsUsual s
    → IsUsual seek0
    → pos 0 ≤ℤ seek0
    → (copy_ts ≡ true → pos 0 ≤ℤ s)
    → clip_start copy_ts seek0 s d
      ≡ (ltb_ℤ s seek0, max_ℤ s seek0 -ℤ origin copy_ts seek0, d -ℤ (max_ℤ s seek0 -ℤ s))
unfolding clip_start
clip_start_lem true seek0 s d hs hk h0 h = elim (Bool-cases (ltb_ℤ s seek0)) [
  | inl c ↦ ground (arith, c, h refl, minus_zero seek0)
  | inr c ↦ ground (arith, c, h refl, minus_zero s, minus_self d s)
]
clip_start_lem false seek0 s d hs hk h0 h =
    ap (λ t. if ltb_ℤ t (pos 0) then (true, pos 0, d +ℤ t) else (false, t, d))
      (sub_usual s seek0 hs hk)
    ∙ elim (Bool-cases (ltb_ℤ s seek0)) [
      | inl c ↦ ground (arith, c, -ℤ_parts s seek0, self_minus seek0, plus_minus d s seek0)
      | inr c ↦ ground (arith, c, -ℤ_parts s seek0, minus_self d s)
    ]

minus_minus : (u f s : ℤ) → (u -ℤ s) -ℤ (f -ℤ s) ≡ u -ℤ f
minus_minus u f s = omega int_laws

-- What is left of a cue from `s` to `e` between the seek position and the cutoff: from where, and
-- up to where.
abbrev pub shown_from : ℤ → ℤ → ℤ
shown_from seek0 s = max_ℤ s seek0

abbrev pub shown_until : ℤ → ℤ → ℤ
shown_until cutoff e = min_ℤ e cutoff

-- The answer of sub_window, once both cuts are made.
abbrev cut_cue : ℤ → ℤ → ℤ → ℤ → ℤ → Option (ℤ × ℤ)
cut_cue cutoff seek0 zero s e =
    let u = shown_until cutoff e in
    let f = shown_from seek0 s in
    if leb_ℤ cutoff s
    then none
    else if (ltb_ℤ cutoff e || ltb_ℤ s seek0) && leb_ℤ (u -ℤ f) (pos 0)
    then none
    else some (f -ℤ zero, u -ℤ f)

sub_window-cut_cue :
    (out : Window) (seek s d : ℤ)
    → IsUsual s
    → IsUsual d
    → IsUsual (seek_base seek)
    → pos 0 ≤ℤ seek_base seek
    → (out.copy_ts ≡ true → pos 0 ≤ℤ s)
    → sub_window out seek s d
      ≡ cut_cue
          (sub_cutoff (seek_base seek) out)
          (seek_base seek)
          (origin out.copy_ts (seek_base seek))
          s
          (s +ℤ d)
unfolding sub_window
sub_window-cut_cue out seek s d hs hd hk h0 h =
    ap (λ (p : Bool × ℤ). after p.0 p.1 (clip_start out.copy_ts (seek_base seek) s p.1))
      (clip_end_lem (sub_cutoff (seek_base seek) out) s d hs hd)
    ∙ ap (after (ltb_ℤ (sub_cutoff (seek_base seek) out) (s +ℤ d)) (u -ℤ s))
        (clip_start_lem out.copy_ts (seek_base seek) s (u -ℤ s) hs hk h0 h)
    ∙ ap
        (λ x.
          if leb_ℤ (sub_cutoff (seek_base seek) out) s
          then none
          else if (ltb_ℤ (sub_cutoff (seek_base seek) out) (s +ℤ d) || ltb_ℤ s (seek_base seek))
              && leb_ℤ x (pos 0)
          then none
          else some (shown_from (seek_base seek) s -ℤ origin out.copy_ts (seek_base seek), x))
        (minus_minus u (shown_from (seek_base seek) s) s)
  where
    u : ℤ
    u = shown_until (sub_cutoff (seek_base seek) out) (s +ℤ d)

    after : Bool → ℤ → Bool × ℤ × ℤ → Option (ℤ × ℤ)
    after b d1 (c, o, d2) =
        if leb_ℤ (sub_cutoff (seek_base seek) out) s
        then none
        else if (b || c) && leb_ℤ d2 (pos 0)
        then none
        else some (o, d2)

le_of_sub : (a b : ℤ) → leb_ℤ (a -ℤ b) (pos 0) ≡ true → a ≤ℤ b
le_of_sub a b h = ground (arith, h, -ℤ_parts a b)

lt_of_sub : (a b : ℤ) → leb_ℤ (a -ℤ b) (pos 0) ≡ false → b <ℤ a
lt_of_sub a b h = ground (arith, h, -ℤ_parts a b)

and-true : (a b : Bool) → (a && b) ≡ true → (a ≡ true) × (b ≡ true)
and-true a b h = ground (arith, h)

and-false : (a b : Bool) → (a && b) ≡ false → (a ≡ false) ⊎ (b ≡ false)
and-false a b h = ground (arith, h)

cut-cases :
    (cutoff seek0 s e : ℤ) → (ltb_ℤ cutoff e || ltb_ℤ s seek0) ≡ true → (cutoff <ℤ e) ⊎ (s <ℤ seek0)
cut-cases cutoff seek0 s e h = ground (arith, h)

uncut :
    (cutoff seek0 s e : ℤ)
    → (ltb_ℤ cutoff e || ltb_ℤ s seek0) ≡ false
    → (shown_from seek0 s ≡ s) × (shown_until cutoff e ≡ e)
uncut cutoff seek0 s e h = ground (arith, h)

-- Both answers of cut_cue, with why it gives them.
cut_cue_lem :
    (cutoff seek0 z s e : ℤ)
    → ((cut_cue cutoff seek0 z s e ≡ none)
        × ((cutoff ≤ℤ s)
            ⊎ ((shown_until cutoff e ≤ℤ shown_from seek0 s) × ((cutoff <ℤ e) ⊎ (s <ℤ seek0)))))
      ⊎ ((cut_cue cutoff seek0 z s e
            ≡ some (shown_from seek0 s -ℤ z, shown_until cutoff e -ℤ shown_from seek0 s))
          × (s <ℤ cutoff)
          × ((shown_from seek0 s <ℤ shown_until cutoff e)
              ⊎ ((shown_from seek0 s ≡ s) × (shown_until cutoff e ≡ e))))
cut_cue_lem cutoff seek0 z s e = elim (Bool-cases (leb_ℤ cutoff s)) [
  | inl a ↦ inl (if_true _ _ a, inl (ground (arith, a)))
  | inr a ↦ elim (Bool-cases ((ltb_ℤ cutoff e || ltb_ℤ s seek0) && leb_ℤ (u -ℤ f) (pos 0))) [
    | inl b ↦
        let (p, q) = and-true (ltb_ℤ cutoff e || ltb_ℤ s seek0) (leb_ℤ (u -ℤ f) (pos 0)) b in
        inl (if_false _ _ a ∙ if_true _ _ b, inr (le_of_sub u f q, cut-cases cutoff seek0 s e p))
    | inr b ↦ inr (
      if_false _ _ a ∙ if_false _ _ b,
      ground (arith, a),
      elim (and-false (ltb_ℤ cutoff e || ltb_ℤ s seek0) (leb_ℤ (u -ℤ f) (pos 0)) b) [
        | inl p ↦ inr (uncut cutoff seek0 s e p)
        | inr q ↦ inl (lt_of_sub u f q)
      ],
    )
  ]
]
  where
    u : ℤ
    u = shown_until cutoff e

    f : ℤ
    f = shown_from seek0 s

-- A cue from `s` to `s + d` microseconds (its source times and the seek position within a thousand
-- years of 0, the seek position not negative, and `s` not negative either under copy_ts) is
-- either dropped, because it starts at or after the cutoff or because it was cut and nothing
-- is left between the seek position and the cutoff, or is written exactly for the part of it that
-- lies between the two, counted from the seek position, or from 0 under copy_ts.
pub sub_window-exact :
    (out : Window) (seek s d : ℤ)
    → IsUsual s
    → IsUsual d
    → IsUsual (seek_base seek)
    → pos 0 ≤ℤ seek_base seek
    → (out.copy_ts ≡ true → pos 0 ≤ℤ s)
    → (let seek0 : ℤ = seek_base seek in
        let cutoff : ℤ = sub_cutoff seek0 out in
        let f : ℤ = shown_from seek0 s in
        let u : ℤ = shown_until cutoff (s +ℤ d) in
        ((sub_window out seek s d ≡ none)
          × ((cutoff ≤ℤ s) ⊎ ((u ≤ℤ f) × ((cutoff <ℤ s +ℤ d) ⊎ (s <ℤ seek0)))))
        ⊎ ((sub_window out seek s d ≡ some (f -ℤ origin out.copy_ts seek0, u -ℤ f))
            × (s <ℤ cutoff)
            × ((f <ℤ u) ⊎ ((f ≡ s) × (u ≡ s +ℤ d)))))
sub_window-exact out seek s d hs hd hk h0 h = rw (sub_window-cut_cue out seek s d hs hd hk h0 h) (
    cut_cue_lem (sub_cutoff (seek_base seek) out) (seek_base seek)
      (origin out.copy_ts (seek_base seek)) s (s +ℤ d))
