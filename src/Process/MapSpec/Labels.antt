-- ===== src/Process/MapSpec/Labels.antt =====
-- src/process.c: which entries name a graph pad, and which output a pad is routed to.
use ffmpeg_wasi.Base.{
  ℕ, suc, ◌+◌, ◌≡◌, refl, ap, sym, ◌∙◌, ◌↔◌, ◌⊎◌, inl, inr, true, false, ◌&&◌, List, [], ◌∷◌, ◌++◌,
  none, some, ◌==◌, length, take, any, get_elem?, arith, length-append, ◌≢◌, Bool-cases, if_true,
  if_false,
}
use ffmpeg_wasi.Base.Text.{Bytes, streq, streq_iff}
use ffmpeg_wasi.Process.MapSpec.{
  last_byte, unbracket, label_matches, Map, names, first_naming, find_output_for_pad,
}

-- An entry between brackets.
abbrev pub bracket : Bytes → Bytes
bracket label = b'[' ∷ (label ++ (b']' ∷ []))

last_byte-snoc : (c : ℕ) (s : Bytes) (d : ℕ) → last_byte c (s ++ (d ∷ [])) ≡ d
last_byte-snoc c [] d = refl
last_byte-snoc c (x ∷ s) d = last_byte-snoc x s d

take-snoc : (c : ℕ) (s : Bytes) → take (length s) (c ∷ s) ++ (last_byte c s ∷ []) ≡ c ∷ s
take-snoc c [] = refl
take-snoc c (d ∷ s) = ap (c ∷◌) (take-snoc d s)

take-front :
    (c : ℕ) (s : Bytes) (d : ℕ) → take (length (s ++ (d ∷ []))) (c ∷ (s ++ (d ∷ []))) ≡ c ∷ s
take-front c [] d = refl
take-front c (x ∷ s) d = ap (c ∷◌) (take-front x s d)

unbracket-bracket : (label : Bytes) → unbracket (bracket label) ≡ label
unbracket-bracket [] = refl
unbracket-bracket (c ∷ s) =
    if_true {b = b'[' == b'[' && last_byte c (s ++ (b']' ∷ [])) == b']'}
      (take (length (s ++ (b']' ∷ []))) (c ∷ (s ++ (b']' ∷ [])))) (bracket (c ∷ s))
      (ground (arith, last_byte-snoc c s b']'))
    ∙ take-front c s b']'

-- What unbracket makes of an entry.
unbracket_lem : (e : Bytes) → (bracket (unbracket e) ≡ e) ⊎ (unbracket e ≡ e)
unbracket_lem [] = inr refl
unbracket_lem (c ∷ []) = inr refl
unbracket_lem (c ∷ d ∷ s) = elim (Bool-cases (c == b'[' && last_byte d s == b']')) [
  | inl e ↦ inl (ap bracket (if_true _ _ e) ∙ closes c d s (ground (arith, e)) (ground (arith, e)))
  | inr e ↦ inr (if_false _ _ e)
]
  where
    closes :
        (c d : ℕ) (s : Bytes)
        → c ≡ b'['
        → last_byte d s ≡ b']'
        → bracket (take (length s) (d ∷ s)) ≡ c ∷ d ∷ s
    closes c d s p q =
        ap (λ x. b'[' ∷ (take (length s) (d ∷ s) ++ (x ∷ []))) (sym q)
        ∙ ap (b'[' ∷◌) (take-snoc d s)
        ∙ ap (◌∷ d ∷ s) (sym p)

open_end : (e : Bytes) → unbracket e ≡ e → (m : Bytes) → ¬ e ≡ bracket m
open_end e u m p =
    let q : m ≡ bracket m = sym (unbracket-bracket m) ∙ ap unbracket (sym p) ∙ u ∙ p in
    omega (arith, ap length q, length-append m (b']' ∷ []))

label_matches_iff : (e l : Bytes) → (label_matches e l ≡ true) ↔ (unbracket e ≡ l)
unfolding label_matches
label_matches_iff e l = (to, from)
  where
    to : (length l == length (unbracket e) && streq (unbracket e) l) ≡ true → unbracket e ≡ l
    to h = (streq_iff (unbracket e) l).0 (ground (arith, h))

    from : unbracket e ≡ l → (length l == length (unbracket e) && streq (unbracket e) l) ≡ true
    from p = ground (arith, (streq_iff (unbracket e) l).1 p, ap length p)

abbrev pub IsBracketed : Bytes → Type 0
IsBracketed e = (m : Bytes) × (e ≡ bracket m)

-- A `map` entry names a pad exactly if it is the pad's label between brackets, or is the label
-- itself and is not between brackets.
pub label_matches-names :
    (e l : Bytes) → (label_matches e l ≡ true) ↔ ((e ≡ bracket l) ⊎ ((e ≡ l) × ¬ IsBracketed e))
label_matches-names e l = (to, from)
  where
    to : label_matches e l ≡ true → (e ≡ bracket l) ⊎ ((e ≡ l) × ¬ IsBracketed e)
    to h =
        let u = (label_matches_iff e l).0 h in
        elim (unbracket_lem e) [
          | inl b ↦ inl (sym b ∙ ap bracket u)
          | inr b ↦ inr (sym b ∙ u, λ (m, p). open_end e b m p)
        ]

    from : (e ≡ bracket l) ⊎ ((e ≡ l) × ¬ IsBracketed e) → label_matches e l ≡ true
    from (inl p) = (label_matches_iff e l).1 (ap unbracket p ∙ unbracket-bracket l)
    from (inr (p, n)) = elim (unbracket_lem e) [
      | inl b ↦ absurd (n (unbracket e, sym b))
      | inr b ↦ (label_matches_iff e l).1 (b ∙ p)
    ]

first_naming_lem :
    (i : ℕ) (label : Bytes) (outs : List Map)
    → ((j : ℕ) × (m : Map) × (first_naming i label outs ≡ some (i + j))
        × (get_elem? outs j ≡ some m)
        × (names label m ≡ true)
        × (any (names label) (take j outs) ≡ false))
      ⊎ ((first_naming i label outs ≡ none) × (any (names label) outs ≡ false))
unfolding first_naming
first_naming_lem i label [] = inr (refl, refl)
first_naming_lem i label (m ∷ ms) = elim (Bool-cases (names label m)) [
  | inl e ↦ inl (0, m, ground (arith, e), refl, e, refl)
  | inr e ↦ elim (first_naming_lem (suc i) label ms) [
    | inl (j, x, f, g, n, u) ↦ inl (suc j, x, ground (arith, e, f), g, n, ground (arith, e, u))
    | inr (f, u) ↦ inr (ground (arith, e, f), ground (arith, e, u))
  ]
]

-- A pad goes to the first output whose `map` names its label. Where no `map` names it, it goes to
-- the only output, if there is just one and that has no `map`, and otherwise to none.
pub find_output_for_pad-first :
    (label : Bytes) (outs : List Map)
    → ((j : ℕ) × (m : Map) × (find_output_for_pad label outs ≡ some j)
        × (get_elem? outs j ≡ some m)
        × (names label m ≡ true)
        × (any (names label) (take j outs) ≡ false))
      ⊎ ((any (names label) outs ≡ false)
          × (((outs ≡ [] ∷ []) × (find_output_for_pad label outs ≡ some 0))
              ⊎ ((outs ≢ [] ∷ []) × (find_output_for_pad label outs ≡ none))))
unfolding find_output_for_pad
find_output_for_pad-first label outs = elim (first_naming_lem 0 label outs) [
  | inl (j, m, f, g, n, u) ↦ inl (j, m, ground (arith, f), g, n, u)
  | inr (f, u) ↦ inr (u, unmapped outs f)
]
  where
    unmapped :
        (outs : List Map)
        → first_naming 0 label outs ≡ none
        → ((outs ≡ [] ∷ []) × (find_output_for_pad label outs ≡ some 0))
          ⊎ ((outs ≢ [] ∷ []) × (find_output_for_pad label outs ≡ none))
    unmapped [] f = inr (λ p. cc, refl)
    unmapped ([] ∷ []) f = inl (refl, refl)
    unmapped ((x ∷ m) ∷ ms) f = inr (λ p. cc, ground (arith, f))
    unmapped ([] ∷ (n ∷ ms)) f = inr (λ p. cc, ground (arith, f))
