-- ===== src/Frames/Template/Sound.antt =====
-- src/frames.c: what template_int_conversions accepts is a template, as described here apart from the
-- scanner.
use ffmpeg_wasi.Base.{
  ℕ, zero, suc, ◌≡◌, refl, ap, sym, ◌∙◌, ◌⊎◌, inl, inr, Bool, true, false, not, [], ◌∷◌, ◌++◌,
  Option, none, some, ◌==◌, if◌then◌else◌, all, arith, Bool-cases, if_true, if_false, subst,
  append_assoc,
}
use mathlib.Core.Option as Option
use ffmpeg_wasi.Base.Text.{Bytes, is_digit}
use ffmpeg_wasi.Frames.Template.{
  is_flag, is_integer, skip, skip_precision, letter, conversion, counted, count_from,
}

-- An integer conversion behind its `%`: flags, a width, a precision, a letter.
pub data IsConversion : Bytes → Type 0 where
  plain :
      (flags width : Bytes) (c : ℕ)
      → all is_flag flags ≡ true
      → all is_digit width ≡ true
      → is_integer c ≡ true
      → IsConversion (flags ++ (width ++ (c ∷ [])))
  precise :
      (flags width digits : Bytes) (c : ℕ)
      → all is_flag flags ≡ true
      → all is_digit width ≡ true
      → all is_digit digits ≡ true
      → is_integer c ≡ true
      → IsConversion (flags ++ (width ++ (b'.' ∷ (digits ++ (c ∷ [])))))

-- A text that snprintf reads `n` integers for and nothing else: plain bytes, `%%`, and integer
-- conversions.
pub data IsTemplate : Bytes → ℕ → Type 0 where
  end : IsTemplate [] 0
  byte : {c n : ℕ} {s : Bytes} → (c == b'%') ≡ false → IsTemplate s n → IsTemplate (c ∷ s) n
  percent : {n : ℕ} {s : Bytes} → IsTemplate s n → IsTemplate (b'%' ∷ b'%' ∷ s) n
  integer :
      {n : ℕ} (v s : Bytes) → IsConversion v → IsTemplate s n → IsTemplate (b'%' ∷ (v ++ s)) (suc n)

none-some : {A : Type 0} {a : A} → none ≡ some a → ⊥
none-some e = cc

some-some : {A : Type 0} {a b : A} → ◌≡◌ {A = Option A} (some a) (some b) → a ≡ b
some-some e = cc

cons_pre : (c : ℕ) {s t u : Bytes} (pre : Bytes) → s ≡ pre ++ t → t ≡ u → c ∷ s ≡ (c ∷ pre) ++ u
cons_pre c pre p q = ap (c ∷◌) (p ∙ ap (pre ++◌) q)

-- What a loop has skipped.
skip_lem :
    (test : ℕ → Bool) (s : Bytes) → (pre : Bytes) × (s ≡ pre ++ skip test s) × (all test pre ≡ true)
unfolding skip
skip_lem test [] = ([], refl, refl)
skip_lem test (c ∷ s) = elim (Bool-cases (test c)) [
  | inl e ↦
      let (p, q, a) = skip_lem test s in
      (c ∷ p, cons_pre c p q (sym (if_true (skip test s) (c ∷ s) e)), ground (arith, e, a))
  | inr e ↦ ([], sym (if_false (skip test s) (c ∷ s) e), refl)
]

letter_lem : (s r : Bytes) → letter s ≡ some r → (c : ℕ) × (is_integer c ≡ true) × (s ≡ c ∷ r)
letter_lem [] r h = absurd (none-some h)
letter_lem (c ∷ s) r h = elim (Bool-cases (is_integer c)) [
  | inl e ↦ (c, e, ap (c ∷◌) (some-some (sym (if_true (some s) none e) ∙ h)))
  | inr e ↦ absurd (none-some (sym (if_false (some s) none e) ∙ h))
]

skip_precision_lem :
    (s : Bytes)
    → (skip_precision s ≡ s)
      ⊎ ((ds : Bytes) × (all is_digit ds ≡ true) × (s ≡ b'.' ∷ (ds ++ skip_precision s)))
unfolding skip_precision
skip_precision_lem [] = inl refl
skip_precision_lem (c ∷ s) = elim (Bool-cases (c == b'.')) [
  | inl e ↦
      let (ds, q, a) = skip_lem is_digit s in
      let w : c ≡ b'.' = ground (arith, e) in
      inr (ds, a, ap (◌∷ s) w ∙ cons_pre b'.' ds q (sym (if_true (skip is_digit s) (c ∷ s) e)))
  | inr e ↦ inl (if_false (skip is_digit s) (c ∷ s) e)
]

pub assoc3 : (a b c d : Bytes) → a ++ (b ++ (c ++ d)) ≡ (a ++ (b ++ c)) ++ d
assoc3 a b c d = ap (a ++◌) (sym (append_assoc b c d)) ∙ sym (append_assoc a (b ++ c) d)

conversion_sound :
    (s r : Bytes) → conversion s ≡ some r → (v : Bytes) × IsConversion v × (s ≡ v ++ r)
unfolding conversion
conversion_sound s r h =
    let (fl, p, a) = skip_lem is_flag s in
    let (wd, q, b) = skip_lem is_digit (skip is_flag s) in
    let (c, i, l) = letter_lem (skip_precision (skip is_digit (skip is_flag s))) r h in
    elim (skip_precision_lem (skip is_digit (skip is_flag s))) [
      | inl e ↦ (
        fl ++ (wd ++ (c ∷ [])),
        plain fl wd c a b i,
        p ∙ ap (fl ++◌) (q ∙ ap (wd ++◌) (sym e ∙ l)) ∙ assoc3 fl wd (c ∷ []) r,
      )
      | inr (ds, d, e) ↦ (
        fl ++ (wd ++ (b'.' ∷ (ds ++ (c ∷ [])))),
        precise fl wd ds c a b d i,
        p
            ∙ ap (fl ++◌) (q ∙ ap (wd ++◌) (e ∙ ap (λ t. b'.' ∷ (ds ++ t)) l))
            ∙ ap (λ t. fl ++ (wd ++ (b'.' ∷ t))) (sym (append_assoc ds (c ∷ []) r))
            ∙ assoc3 fl wd (b'.' ∷ (ds ++ (c ∷ []))) r,
      )
    ]

some-suc :
    (f : Bytes → Option ℕ) (o : Option Bytes) (n : ℕ)
    → counted f o ≡ some n
    → (s : Bytes) × (m : ℕ) × (o ≡ some s) × (f s ≡ some m) × (n ≡ suc m)
some-suc f none n h = absurd (none-some h)
some-suc f (some s) n h = go (f s) refl h
  where
    go :
        (x : Option ℕ)
        → f s ≡ x
        → Option.map suc x ≡ some n
        → (t : Bytes) × (m : ℕ) × (some s ≡ some t) × (f t ≡ some m) × (n ≡ suc m)
    go none e h = absurd (none-some h)
    go (some m) e h = (s, m, refl, e, sym (some-some h))

if_not-true : {A : Type 0} {b : Bool} (x y : A) → b ≡ true → (if not b then x else y) ≡ y
if_not-true x y e = ground (arith, e)

pub if_not-false : {A : Type 0} {b : Bool} (x y : A) → b ≡ false → (if not b then x else y) ≡ x
if_not-false x y e = ground (arith, e)

percent_of : (c : ℕ) → (c == b'%') ≡ true → b'%' ≡ c
percent_of c e = ground (arith, e)

pub count_from_sound : (fuel : ℕ) (s : Bytes) (n : ℕ) → count_from fuel s ≡ some n → IsTemplate s n
unfolding count_from
count_from_sound zero s n h = absurd (none-some h)
count_from_sound (suc fuel) [] n h = subst (IsTemplate []) (some-some h) end
count_from_sound (suc fuel) (c ∷ []) n h = elim (Bool-cases (c == b'%')) [
  | inl e ↦ absurd (none-some (sym (if_not-true (count_from fuel []) none e) ∙ h))
  | inr e ↦ byte e (count_from_sound fuel [] n (sym (if_not-false (count_from fuel []) none e) ∙ h))
]
count_from_sound (suc fuel) (c ∷ d ∷ s) n h = elim (Bool-cases (c == b'%')) [
  | inr e ↦
      byte e
        (count_from_sound fuel (d ∷ s) n (sym (if_not-false (count_from fuel (d ∷ s)) _ e) ∙ h))
  | inl e ↦ elim (Bool-cases (d == b'%')) [
    | inl g ↦
        let t = count_from_sound fuel s n (
          sym (if_true (count_from fuel s) _ g)
          ∙ sym (if_not-true (count_from fuel (d ∷ s)) _ e)
          ∙ h) in
        subst (λ x. IsTemplate (x ∷ d ∷ s) n) (percent_of c e)
          (subst (λ x. IsTemplate (b'%' ∷ x ∷ s) n) (percent_of d g) (percent t))
    | inr g ↦
        let (r, m, p, q, w) = some-suc (count_from fuel) (conversion (d ∷ s)) n (
          sym (if_false (count_from fuel s) _ g)
          ∙ sym (if_not-true (count_from fuel (d ∷ s)) _ e)
          ∙ h) in
        let (v, i, k) = conversion_sound (d ∷ s) r p in
        subst (λ x. IsTemplate (x ∷ d ∷ s) n) (percent_of c e)
          (subst (λ x. IsTemplate (b'%' ∷ x) n) (sym k)
            (subst (IsTemplate (b'%' ∷ (v ++ r))) (sym w)
              (integer v r i (count_from_sound fuel r m q))))
  ]
]
