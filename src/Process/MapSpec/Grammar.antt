-- ===== src/Process/MapSpec/Grammar.antt =====
-- src/process.c: the texts that parse_map_stream accepts, described apart from the scanner.
use ffmpeg_wasi.Base.{
  ℕ, ◌≡◌, refl, ap, sym, ◌∙◌, ◌↔◌, ◌⊎◌, inl, inr, true, false, [], ◌∷◌, ◌++◌, Option, none, some,
  ◌==◌, arith, Bool-cases, if_true, if_false, subst,
}
use ffmpeg_wasi.Base.Text.{Bytes, is_digit}
use ffmpeg_wasi.Av.{MediaType, unknown, video, audio, subtitle}
use ffmpeg_wasi.Process.MapSpec.{
  scan_index, Selector, is_v, is_a, is_s, last_index, select_at, per_type, behind_colon, map_type,
  is_graph_pad, parse_map_stream,
}
use ffmpeg_wasi.Process.MapSpec.Index.{
  IsIndex, scan_index-digits, scan_index-NoDigit, none-some, scan_index_sound, last_index_iff,
}

-- The letter of a media type, in either case.
abbrev pub IsLetter : ℕ → MediaType → Type 0
IsLetter c t =
    ((is_v c ≡ true) × (t ≡ video))
    ⊎ ((is_a c ≡ true) × (t ≡ audio))
    ⊎ ((is_s c ≡ true) × (t ≡ subtitle))

-- T, T:K, or D.
pub data IsTail : Bytes → MediaType → Option ℕ → Type 0 where
  best : {c : ℕ} {t : MediaType} → IsLetter c t → IsTail (c ∷ []) t none
  kth :
      {c : ℕ} {t : MediaType} {ds : Bytes} {k : ℕ}
      → IsLetter c t
      → IsIndex ds k
      → IsTail (c ∷ b':' ∷ ds) t (some k)
  absolute : {ds : Bytes} {k : ℕ} → IsIndex ds k → IsTail ds unknown (some k)

-- N:T, N:T:K, or N:D.
abbrev pub IsMapEntry : Bytes → Selector → Type 0
IsMapEntry s r =
    (ds : Bytes) × (tail : Bytes) × (s ≡ ds ++ (b':' ∷ tail))
    × IsIndex ds r.input
    × IsTail tail r.type r.sel

-- A selector with its parts.
abbrev Has : ℕ → Bytes → Selector → Type 0
Has n tail r = (r.input ≡ n) × IsTail tail r.type r.sel

select_at-inv :
    (n : ℕ) (t : MediaType) (o : Option ℕ) (r : Selector)
    → select_at n t o ≡ some r
    → (k : ℕ) × (o ≡ some k) × (r ≡ record { input = n; type = t; sel = some k })
select_at-inv n t none r h = absurd (none-some h)
select_at-inv n t (some k) r h = (k, refl, cc)

per_type_sound :
    (n c : ℕ) (t : MediaType) (s : Bytes) (r : Selector)
    → IsLetter c t
    → per_type n t s ≡ some r
    → Has n (c ∷ s) r
unfolding per_type
per_type_sound n c t [] r l h =
    let q : record { input = n; type = t; sel = none } ≡ r = cc in
    subst (Has n (c ∷ [])) q (refl, best l)
per_type_sound n c t (d ∷ s) r l h = elim (Bool-cases (d == b':')) [
  | inr e ↦ absurd (none-some (sym (if_false _ none e) ∙ h))
  | inl e ↦
      let (k, f, q) =
        select_at-inv n t (last_index (scan_index s)) r (sym (if_true _ none e) ∙ h) in
      let i = (last_index_iff s k).0 f in
      let w : d ≡ b':' = ground (arith, e) in
      subst (Has n (c ∷ d ∷ s)) (sym q)
        (refl, subst (λ x. IsTail (c ∷ x ∷ s) t (some k)) (sym w) (kth l i))
]

letter_cases :
    (c : ℕ)
    → ((t : MediaType) × IsLetter c t × ((n : ℕ) (s : Bytes) → map_type n (c ∷ s) ≡ per_type n t s))
      ⊎ ((n : ℕ) (s : Bytes)
          → map_type n (c ∷ s) ≡ select_at n unknown (last_index (scan_index (c ∷ s))))
letter_cases c = elim (Bool-cases (is_v c)) [
  | inl v ↦ inl (video, inl (v, refl), λ n s. ground (arith, v))
  | inr v ↦ elim (Bool-cases (is_a c)) [
    | inl a ↦ inl (audio, inr (inl (a, refl)), λ n s. ground (arith, v, a))
    | inr a ↦ elim (Bool-cases (is_s c)) [
      | inl z ↦ inl (subtitle, inr (inr (z, refl)), λ n s. ground (arith, v, a, z))
      | inr z ↦ inr (λ n s. ground (arith, v, a, z))
    ]
  ]
]

map_type_sound : (n : ℕ) (s : Bytes) (r : Selector) → map_type n s ≡ some r → Has n s r
map_type_sound n [] r h = absurd (none-some h)
map_type_sound n (c ∷ s) r h = elim (letter_cases c) [
  | inl (t, l, e) ↦ per_type_sound n c t s r l (sym (e n s) ∙ h)
  | inr e ↦
      let (k, f, q) =
        select_at-inv n unknown (last_index (scan_index (c ∷ s))) r (sym (e n s) ∙ h) in
      subst (Has n (c ∷ s)) (sym q) (refl, absolute ((last_index_iff (c ∷ s) k).0 f))
]

map_type-letter :
    (n c : ℕ) (t : MediaType) (s : Bytes) → IsLetter c t → map_type n (c ∷ s) ≡ per_type n t s
map_type-letter n c t s (inl (v, q)) = ground (arith, v, q)
map_type-letter n c t s (inr (inl (a, q))) = ground (arith, a, q)
map_type-letter n c t s (inr (inr (z, q))) = ground (arith, z, q)

map_type-digit :
    (n c : ℕ) (s : Bytes)
    → is_digit c ≡ true
    → map_type n (c ∷ s) ≡ select_at n unknown (last_index (scan_index (c ∷ s)))
map_type-digit n c s d = ground (arith, d)

map_type_complete :
    (n : ℕ) (s : Bytes) (t : MediaType) (k : Option ℕ)
    → IsTail s t k
    → map_type n s ≡ some (record { input = n; type = t; sel = k })
unfolding per_type
map_type_complete n _ t _ (best {c = c} l) = map_type-letter n c t [] l
map_type_complete n _ t _ (kth {c = c} {ds = ds} {k = k} l i) =
    map_type-letter n c t (b':' ∷ ds) l ∙ ap (select_at n t) ((last_index_iff ds k).1 i)
map_type_complete n [] _ _ (absolute {k = k} (l, a, e, b)) = absurd (omega (arith, l))
map_type_complete n (d ∷ ds) _ _ (absolute {k = k} (l, a, e, b)) =
    map_type-digit n d ds (ground (arith, a))
    ∙ ap (select_at n unknown) ((last_index_iff (d ∷ ds) k).1 (l, a, e, b))

not_pad : (s r : Bytes) (n : ℕ) → scan_index s ≡ some (n, r) → is_graph_pad s ≡ false
unfolding scan_index
not_pad [] r n h = refl
not_pad (c ∷ s) r n h = elim (Bool-cases (is_digit c)) [
  | inl d ↦ ground (arith, d)
  | inr d ↦ absurd (none-some (sym (scan_index-NoDigit (c ∷ s) d) ∙ h))
]

-- parse_map_stream accepts exactly the texts N:T, N:T:K and N:D, with N, K and D decimal numbers
-- that an `int` holds (no sign, no space, nothing behind) and T one of v, a, s in either case, and
-- reads from each the input N, the type T and the index K, or no type and the index D.
pub parse_map_stream_iff :
    (s : Bytes) (r : Selector) → (parse_map_stream s ≡ some r) ↔ IsMapEntry s r
unfolding parse_map_stream
parse_map_stream_iff s r = (to, from)
  where
    colon :
        (o : Option (ℕ × Bytes))
        → scan_index s ≡ o
        → behind_colon map_type o ≡ some r
        → IsMapEntry s r
    colon none e h = absurd (none-some h)
    colon (some (n, [])) e h = absurd (none-some h)
    colon (some (n, c ∷ tail)) e h = elim (Bool-cases (c == b':')) [
      | inr q ↦ absurd (none-some (sym (if_false _ none q) ∙ h))
      | inl q ↦
          let (ds, p, i, nd) = scan_index_sound s (c ∷ tail) n e in
          let (m, t) = map_type_sound n tail r (sym (if_true _ none q) ∙ h) in
          let w : c ≡ b':' = ground (arith, q) in
          (ds, tail, p ∙ ap (λ x. ds ++ (x ∷ tail)) w, subst (IsIndex ds) (sym m) i, t)
    ]

    to : parse_map_stream s ≡ some r → IsMapEntry s r
    to h = elim (Bool-cases (is_graph_pad s)) [
      | inl g ↦ absurd (none-some (sym (if_true none _ g) ∙ h))
      | inr g ↦ colon (scan_index s) refl (sym (if_false none _ g) ∙ h)
    ]

    from : IsMapEntry s r → parse_map_stream s ≡ some r
    from (ds, tail, p, i, t) =
        let e : scan_index s ≡ some (r.input, b':' ∷ tail) =
          ap scan_index p ∙ scan_index-digits ds (b':' ∷ tail) r.input i refl in
        if_false none _ (not_pad s (b':' ∷ tail) r.input e)
        ∙ ap (behind_colon map_type) e
        ∙ map_type_complete r.input tail r.type r.sel t
