-- ===== src/Process/MapSpec/Index.antt =====
-- src/process.c: the decimal numbers that scan_index reads, described apart from the scanner.
use ffmpeg_wasi.Base.{
  ℕ, ◌≤◌, ◌<◌, ◌≡◌, refl, ap, sym, ◌∙◌, ◌↔◌, ◌⊎◌, inl, inr, true, not, [], ◌∷◌, ◌++◌, Option, none,
  some, length, all, arith, Bool-cases, if_false, append-nil, subst,
}
use ffmpeg_wasi.Base.Int.{pos}
use ffmpeg_wasi.Base.Text.{Bytes, is_digit}
use ffmpeg_wasi.Base.Number.{
  span_digits, decimal, strto-digits, long_min, long_max, Parsed, saturate, NoDigit,
}
use ffmpeg_wasi.Process.MapSpec.{int_max, index_of, scan_index, last_index}

-- A row of decimal digits for a number that an `int` holds.
abbrev pub IsIndex : Bytes → ℕ → Type 0
IsIndex ds n = (0 < length ds) × (all is_digit ds ≡ true) × (decimal 0 ds ≡ n) × (n ≤ int_max)

abbrev read_index : ℕ → Bytes → Option (ℕ × Bytes)
read_index v r = index_of (saturate long_min long_max (pos v) r)

read_index_lem : (v : ℕ) (r : Bytes) → v ≤ int_max → read_index v r ≡ some (v, r)
read_index_lem v r h = ground arith

read_index-big : (v : ℕ) (r : Bytes) → int_max < v → read_index v r ≡ none
read_index-big v r h = ground arith

-- A row of digits, and no digit behind it.
scan_index_lem :
    (d : ℕ) (ds r : Bytes)
    → all is_digit (d ∷ ds) ≡ true
    → NoDigit r
    → scan_index (d ∷ (ds ++ r)) ≡ read_index (decimal 0 (d ∷ ds)) r
unfolding scan_index
scan_index_lem d ds r a h =
    if_false {b = not (is_digit d)} none _ (ground (arith, a))
    ∙ ap index (strto-digits long_min long_max d ds r a h)
  where
    index : Option Parsed → Option (ℕ × Bytes)
    index none = some (0, d ∷ (ds ++ r))
    index (some p) = index_of p

pub scan_index-digits :
    (ds r : Bytes) (n : ℕ) → IsIndex ds n → NoDigit r → scan_index (ds ++ r) ≡ some (n, r)
scan_index-digits [] r n (l, a, e, b) h = absurd (omega (arith, l))
scan_index-digits (d ∷ ds) r n (l, a, e, b) h =
    scan_index_lem d ds r a h
    ∙ read_index_lem (decimal 0 (d ∷ ds)) r (omega (arith, e, b))
    ∙ ap (λ x. some (x, r)) e

span_digits_lem :
    (s : Bytes)
    → (s ≡ (span_digits s).0 ++ (span_digits s).1)
      × (all is_digit (span_digits s).0 ≡ true)
      × NoDigit (span_digits s).1
unfolding span_digits
span_digits_lem [] = (refl, refl, tt)
span_digits_lem (c ∷ s) = elim (Bool-cases (is_digit c)) [
  | inl e ↦ ground (arith, e, span_digits_lem s)
  | inr e ↦ ground (arith, e)
]

pub scan_index-NoDigit : (s : Bytes) → NoDigit s → scan_index s ≡ none
unfolding scan_index
scan_index-NoDigit [] h = refl
scan_index-NoDigit (c ∷ s) h = ground (arith, h)

pub none-some : {A : Type 0} {a : A} → none ≡ some a → ⊥
none-some e = cc

some_pair :
    {A B : Type 0} {a c : A} {b d : B}
    → ◌≡◌ {A = Option (A × B)} (some (a, b)) (some (c, d))
    → (a ≡ c) × (b ≡ d)
some_pair e = (cc, cc)

leb_lem : (v : ℕ) → (v ≤ int_max) ⊎ (int_max < v)
leb_lem v = ground arith

-- What an index that is read was written as.
pub scan_index_sound :
    (s r : Bytes) (n : ℕ)
    → scan_index s ≡ some (n, r)
    → (ds : Bytes) × (s ≡ ds ++ r) × IsIndex ds n × NoDigit r
scan_index_sound s r n h = from (span_digits s).0 (span_digits s).1 (span_digits_lem s) h
  where
    from :
        (ds t : Bytes)
        → (s ≡ ds ++ t) × (all is_digit ds ≡ true) × NoDigit t
        → scan_index s ≡ some (n, r)
        → (ds : Bytes) × (s ≡ ds ++ r) × IsIndex ds n × NoDigit r
    from [] t (p, a, nd) h =
        absurd (none-some (sym (scan_index-NoDigit t nd) ∙ ap scan_index (sym p) ∙ h))
    from (d ∷ ds) t (p, a, nd) h =
        let e : read_index (decimal 0 (d ∷ ds)) t ≡ some (n, r) =
          sym (scan_index_lem d ds t a nd) ∙ ap scan_index (sym p) ∙ h in
        elim (leb_lem (decimal 0 (d ∷ ds))) [
          | inl l ↦
              let q : ◌≡◌ {A = Option (ℕ × Bytes)} (some (decimal 0 (d ∷ ds), t)) (some (n, r)) =
                sym (read_index_lem _ t l) ∙ e in
              let u : decimal 0 (d ∷ ds) ≡ n = (some_pair q).0 in
              let v : t ≡ r = (some_pair q).1 in
              (
                d ∷ ds,
                p ∙ ap (d ∷ ds ++◌) v,
                (omega arith, a, u, omega (arith, l, u)),
                subst NoDigit v nd,
              )
          | inr g ↦ absurd (none-some (sym (read_index-big _ t g) ∙ e))
        ]

-- One index up to the end of a text.
pub last_index_iff : (s : Bytes) (k : ℕ) → (last_index (scan_index s) ≡ some k) ↔ IsIndex s k
last_index_iff s k = (λ h. to (scan_index s) refl h, from)
  where
    to : (o : Option (ℕ × Bytes)) → scan_index s ≡ o → last_index o ≡ some k → IsIndex s k
    to none e h = absurd (none-some h)
    to (some (n, c ∷ r)) e h = absurd (none-some h)
    to (some (n, [])) e h =
        let (ds, p, i, nd) = scan_index_sound s [] n e in
        let q : s ≡ ds = p ∙ append-nil ds in
        let m : n ≡ k = cc in subst (λ x. IsIndex x k) (sym q) (subst (IsIndex ds) m i)

    from : IsIndex s k → last_index (scan_index s) ≡ some k
    from i = ap last_index (ap scan_index (sym (append-nil s)) ∙ scan_index-digits s [] k i tt)
