-- ===== src/Frames/Template/Grammar.antt =====
-- src/frames.c: the templates that template_int_conversions accepts, described apart from the scanner.
use ffmpeg_wasi.Base.{
  ℕ, zero, suc, ◌<◌, ◌≡◌, refl, ap, sym, ◌∙◌, ◌↔◌, inl, inr, Bool, true, false, [], ◌∷◌, ◌++◌, none,
  some, ◌==◌, length, all, arith, Bool-cases, if_true, if_false, append_assoc, length-append,
}
use mathlib.Core.Option as Option
use ffmpeg_wasi.Base.Text.{Bytes, is_digit}
use ffmpeg_wasi.Frames.Template.{
  is_flag, is_integer, skip, skip_precision, letter, conversion, counted, count_from,
  template_int_conversions,
}
use ffmpeg_wasi.Frames.Template.Sound.{
  IsConversion, plain, precise, IsTemplate, end, byte, percent, integer, assoc3, if_not-false,
  count_from_sound,
}

-- A loop skips what passes its test, up to what does not.
skip-append :
    (test : ℕ → Bool) (pre s : Bytes) → all test pre ≡ true → skip test (pre ++ s) ≡ skip test s
unfolding skip
skip-append test [] s a = refl
skip-append test (c ∷ p) s a = ground (arith, a, skip-append test p s)

-- The flags that are digits too make no difference to where a width ends.
skip-width :
    (width : Bytes) (c : ℕ) (s : Bytes)
    → all is_digit width ≡ true
    → is_flag c ≡ false
    → is_digit c ≡ false
    → skip is_digit (skip is_flag (width ++ (c ∷ s))) ≡ c ∷ s
unfolding skip
skip-width [] c s a f d = ground (arith, f, d)
skip-width (w ∷ ws) c s a f d = elim (Bool-cases (is_flag w)) [
  | inl e ↦
      ap (skip is_digit) (if_true (skip is_flag (ws ++ (c ∷ s))) (w ∷ (ws ++ (c ∷ s))) e)
      ∙ skip-width ws c s (ground (arith, a)) f d
  | inr e ↦
      ap (skip is_digit) (if_false (skip is_flag (ws ++ (c ∷ s))) (w ∷ (ws ++ (c ∷ s))) e)
      ∙ skip-append is_digit (w ∷ ws) (c ∷ s) a
      ∙ if_false (skip is_digit s) (c ∷ s) d
]

letter-is :
    (c : ℕ)
    → is_integer c ≡ true
    → (is_flag c ≡ false) × (is_digit c ≡ false) × ((c == b'.') ≡ false)
letter-is c h = (ground (arith, h), ground (arith, h), ground (arith, h))

behind_width :
    (fl wd t : Bytes) (c : ℕ) (s : Bytes)
    → all is_flag fl ≡ true
    → all is_digit wd ≡ true
    → is_flag c ≡ false
    → is_digit c ≡ false
    → skip is_digit (skip is_flag ((fl ++ (wd ++ (c ∷ t))) ++ s)) ≡ c ∷ (t ++ s)
behind_width fl wd t c s a b f d =
    ap (λ x. skip is_digit (skip is_flag x)) (sym (assoc3 fl wd (c ∷ t) s))
    ∙ ap (skip is_digit) (skip-append is_flag fl (wd ++ (c ∷ (t ++ s))) a)
    ∙ skip-width wd c (t ++ s) b f d

skip-stops : (c : ℕ) (s : Bytes) → is_digit c ≡ false → skip is_digit (c ∷ s) ≡ c ∷ s
unfolding skip
skip-stops c s g = if_false (skip is_digit s) (c ∷ s) g

head_of :
    (fl wd : Bytes) (c : ℕ) (t : Bytes)
    → all is_flag fl ≡ true
    → all is_digit wd ≡ true
    → (c == b'%') ≡ false
    → (d : ℕ) × (u : Bytes) × (fl ++ (wd ++ (c ∷ t)) ≡ d ∷ u) × ((d == b'%') ≡ false)
head_of [] [] c t a b e = (c, t, refl, e)
head_of [] (w ∷ wd) c t a b e = (w, wd ++ (c ∷ t), refl, ground (arith, b))
head_of (f ∷ fl) wd c t a b e = (f, fl ++ (wd ++ (c ∷ t)), refl, ground (arith, a))

one :
    (fuel c : ℕ) (s : Bytes) (n : ℕ)
    → (c == b'%') ≡ false
    → count_from fuel s ≡ some n
    → count_from (suc fuel) (c ∷ s) ≡ some n
unfolding count_from
one fuel c [] n e h = if_not-false (count_from fuel []) none e ∙ h
one fuel c (d ∷ s) n e h = if_not-false (count_from fuel (d ∷ s)) _ e ∙ h

conversion_complete : (v s : Bytes) → IsConversion v → conversion (v ++ s) ≡ some s
unfolding conversion skip_precision
conversion_complete _ s (plain fl wd c a b i) =
    let (f, d, p) = letter-is c i in
    ap (λ x. letter (skip_precision x)) (behind_width fl wd [] c s a b f d)
    ∙ ap letter (if_false (skip is_digit s) (c ∷ s) p)
    ∙ if_true (some s) none i
conversion_complete _ s (precise fl wd ds c a b d i) =
    let (f, g, p) = letter-is c i in
    ap (λ x. letter (skip_precision x)) (behind_width fl wd (ds ++ (c ∷ [])) b'.' s a b refl refl)
    ∙ ap (λ x. letter (skip is_digit x)) (append_assoc ds (c ∷ []) s)
    ∙ ap letter (skip-append is_digit ds (c ∷ s) d ∙ skip-stops c s g)
    ∙ if_true (some s) none i

-- A conversion is not empty and does not begin with a percent sign.
conversion-head :
    (v : Bytes) → IsConversion v → (d : ℕ) × (u : Bytes) × (v ≡ d ∷ u) × ((d == b'%') ≡ false)
conversion-head _ (plain fl wd c a b i) = head_of fl wd c [] a b (ground (arith, i))
conversion-head _ (precise fl wd ds c a b d i) = head_of fl wd b'.' (ds ++ (c ∷ [])) a b refl

count_from_complete :
    (fuel : ℕ) (s : Bytes) (n : ℕ) → length s < fuel → IsTemplate s n → count_from fuel s ≡ some n
unfolding count_from
count_from_complete zero s n l t = absurd (omega (arith, l))
count_from_complete (suc fuel) _ _ l end = refl
count_from_complete (suc fuel) _ _ l (byte {c = c} {n = n} {s = s} e t) =
    one fuel c s n e (count_from_complete fuel s n (omega arith) t)
count_from_complete (suc fuel) _ _ l (percent {n = n} {s = s} t) =
    count_from_complete fuel s n (omega arith) t
count_from_complete (suc fuel) _ _ l (integer {n = n} v s i t) =
    let (d, u, p, g) = conversion-head v i in
    let r = count_from_complete fuel s n (omega (arith, l, length-append v s)) t in
    ap (λ x. count_from (suc fuel) (b'%' ∷ (x ++ s))) p
    ∙ if_false (count_from fuel (u ++ s)) (counted (count_from fuel) (conversion (d ∷ (u ++ s)))) g
    ∙ ap (λ x. counted (count_from fuel) (conversion (x ++ s))) (sym p)
    ∙ ap (counted (count_from fuel)) (conversion_complete v s i)
    ∙ ap (Option.map suc) r

-- template_int_conversions accepts exactly the templates in which every `%` begins a `%%` or an
-- integer conversion (flags, width, precision and one of d, i, u, x, X, o), and returns how many
-- integer conversions there are.
pub template_int_conversions_iff :
    (t : Bytes) (n : ℕ) → (template_int_conversions t ≡ some n) ↔ IsTemplate t n
unfolding template_int_conversions
template_int_conversions_iff t n =
    (count_from_sound (suc (length t)) t n, count_from_complete (suc (length t)) t n (omega arith))
