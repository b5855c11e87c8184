-- ===== src/SpecOpts/Bounds.antt =====
-- src/specopts.c: which options are refused.
use ffmpeg_wasi.Base.{
  ℕ, ◌<◌, ◌≡◌, ◌↔◌, ◌⊎◌, inl, inr, sym, ap, ◌∙◌, true, false, [], ◌∷◌, some, any, all, append-nil,
  if◌then◌else◌, if_true, if_false, arith, ltb, lt→ltb, Bool-cases,
}
use ffmpeg_wasi.Base.Int.{pos, ◌≤ℤ◌}
use ffmpeg_wasi.Base.Text.{Bytes, codes, streq, streq_iff, is_digit}
use ffmpeg_wasi.Base.Number.{strto, strto-digits, decimal, saturate, long_min, long_max}
use ffmpeg_wasi.Av.{ok, err, einval}
use ffmpeg_wasi.SpecOpts.{bounded, value_in_bounds, spec_option_in_bounds}

-- The option is in the table.
abbrev pub IsWatched : Bytes → Type 0
IsWatched key = (key ≡ codes "start_number_range") ⊎ (key ≡ codes "recursion_depth")

watched_any : (key : Bytes) → IsWatched key → any (streq key) bounded ≡ true
watched_any key w =
    ground (
      arith,
      streq_iff key (codes "start_number_range"),
      streq_iff key (codes "recursion_depth"),
      w,
    )

any-IsWatched : (key : Bytes) → any (streq key) bounded ≡ true → IsWatched key
any-IsWatched key h =
    ground (
      arith,
      streq_iff key (codes "start_number_range"),
      streq_iff key (codes "recursion_depth"),
      h,
    )

strto-whole :
    (d : ℕ) (ds : Bytes)
    → all is_digit (d ∷ ds) ≡ true
    → strto long_min long_max (d ∷ ds)
      ≡ some (saturate long_min long_max (pos (decimal 0 (d ∷ ds))) [])
strto-whole d ds a =
    ap (λ r. strto long_min long_max (d ∷ r)) (sym (append-nil ds))
    ∙ strto-digits long_min long_max d ds [] a tt

value_in_bounds-whole :
    (n : ℕ)
    → pos n ≤ℤ long_max
    → value_in_bounds (some (saturate long_min long_max (pos n) []))
      ≡ (if ltb 10000 n then err einval else ok tt)
unfolding value_in_bounds streq
value_in_bounds-whole n h = ground arith

-- An option in decimal digits is refused exactly where it is watched and its value is past the
-- ceiling of 10000, as long as the value fits a long long.
pub spec_option_in_bounds-digits :
    (key : Bytes) (d : ℕ) (ds : Bytes)
    → all is_digit (d ∷ ds) ≡ true
    → pos (decimal 0 (d ∷ ds)) ≤ℤ long_max
    → (spec_option_in_bounds (some key) (some (d ∷ ds)) ≡ err einval)
      ↔ (IsWatched key × (10000 < decimal 0 (d ∷ ds)))
unfolding spec_option_in_bounds
spec_option_in_bounds-digits key d ds a fit =
    let n : ℕ = decimal 0 (d ∷ ds) in
    let read : value_in_bounds (strto long_min long_max (d ∷ ds))
        ≡ (if ltb 10000 n then err einval else ok tt) =
      ap value_in_bounds (strto-whole d ds a) ∙ value_in_bounds-whole n fit in
    elim (Bool-cases (any (streq key) bounded)) [
      | inl watched ↦ (
        λ e. (any-IsWatched key watched, refused n (sym read ∙ sym (if_true _ _ watched) ∙ e)),
        λ h. if_true _ _ watched ∙ read ∙ if_true _ _ (lt→ltb 10000 n h.1),
      )
      | inr free ↦ (
        λ e. absurd (ok-ne-err (sym (if_false _ _ free) ∙ e)),
        λ h. absurd (true-ne-false (sym (watched_any key h.0) ∙ free)),
      )
    ]
  where
    refused : (n : ℕ) → (if ltb 10000 n then err einval else ok (tt {0})) ≡ err einval → 10000 < n
    refused n e = ground (arith, e)

    ok-ne-err : ok (tt {0}) ≡ err einval → ⊥
    ok-ne-err e = cc

    true-ne-false : true ≡ false → ⊥
    true-ne-false e = cc
