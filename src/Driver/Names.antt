-- ===== src/Driver/Names.antt =====
-- src/driver.c: has_str and add_names, which gather the names of the components of the build.
use ffmpeg_wasi.Base.{
  ℕ, ◌≡◌, refl, sym, ap, ◌∙◌, Bool, true, false, not, ◌&&◌, ◌||◌, List, [], ◌∷◌, ◌++◌, ltb, ◌==◌,
  if◌then◌else◌, length, any, inl, inr, arith, Bool-cases, if_true, if_false, if_elim, subst,
}
use ffmpeg_wasi.Base.Text.{Bytes, streq, streq_iff}

unfoldable pub has_str : List Bytes → Bytes → Bool
has_str arr s = any (λ it. streq it s) arr

abbrev on_first : ℕ → List Bytes → List Bytes
on_first c [] = (c ∷ []) ∷ []
on_first c (a ∷ as') = (c ∷ a) ∷ as'

-- The parts of a name between its commas. A name that ends in a comma has an empty last part here,
-- at which the code's loop ends; an empty part adds nothing.
unfoldable pub parts : Bytes → List Bytes
parts [] = [] ∷ []
parts (c ∷ s) = let rest = parts s in if c == b',' then [] ∷ rest else on_first c rest

-- The body of the loop, for one part.
unfoldable pub add_part : List Bytes → Bytes → List Bytes
unfolding has_str
add_part arr part =
    if ltb 0 (length part) && ltb (length part) 128
    then (if not (has_str arr part) then arr ++ (part ∷ []) else arr)
    else arr

abbrev pub add_parts : List Bytes → List Bytes → List Bytes
add_parts arr [] = arr
add_parts arr (p ∷ ps) = add_parts (add_part arr p) ps

unfoldable pub add_names : List Bytes → Bytes → List Bytes
unfolding parts add_part
add_names arr name = add_parts arr (parts name)

-- No entry twice.
abbrev pub is_distinct : List Bytes → Bool
is_distinct [] = true
is_distinct (a ∷ arr) = not (has_str arr a) && is_distinct arr

abbrev pub is_addable : Bytes → Bool
is_addable p = ltb 0 (length p) && ltb (length p) 128

streq_sym : (a b : Bytes) → streq a b ≡ streq b a
unfolding streq
streq_sym [] [] = refl
streq_sym [] (y ∷ b) = refl
streq_sym (x ∷ a) [] = refl
streq_sym (x ∷ a) (y ∷ b) = ground (arith, streq_sym a b)

has_str-snoc :
    (arr : List Bytes) (p s : Bytes) → has_str (arr ++ (p ∷ [])) s ≡ (has_str arr s || streq p s)
unfolding has_str
has_str-snoc [] p s = ground arith
has_str-snoc (a ∷ arr) p s = ground (arith, has_str-snoc arr p s)

is_distinct-snoc :
    (arr : List Bytes) (p : Bytes)
    → is_distinct arr ≡ true
    → has_str arr p ≡ false
    → is_distinct (arr ++ (p ∷ [])) ≡ true
unfolding has_str
is_distinct-snoc [] p d h = refl
is_distinct-snoc (a ∷ arr) p d h =
    ground (arith, d, h, is_distinct-snoc arr p, has_str-snoc arr p a, streq_sym a p)

kept :
    (arr : List Bytes) (p : Bytes)
    → has_str arr p ≡ true
    → (if not (has_str arr p) then arr ++ (p ∷ []) else arr) ≡ arr
kept arr p h = ground (arith, h)

added :
    (arr : List Bytes) (p : Bytes)
    → has_str arr p ≡ false
    → (if not (has_str arr p) then arr ++ (p ∷ []) else arr) ≡ arr ++ (p ∷ [])
added arr p h = ground (arith, h)

has_str-same :
    (arr : List Bytes) (p s : Bytes)
    → has_str arr p ≡ true
    → streq p s ≡ true
    → has_str arr s ≡ true
has_str-same arr p s h e = subst (λ x. has_str arr x ≡ true) ((streq_iff p s).0 e) h

known : (a b c : Bool) → (c ≡ true → a ≡ true) → a ≡ (a || b && c)
known a b c h = ground (arith, h)

add_part-has :
    (arr : List Bytes) (p s : Bytes)
    → has_str (add_part arr p) s ≡ (has_str arr s || is_addable p && streq p s)
unfolding add_part
add_part-has arr p s = elim (Bool-cases (is_addable p)) [
  | inr e ↦
      ap (λ x. has_str x s) (if_false (if not (has_str arr p) then arr ++ (p ∷ []) else arr) arr e)
      ∙ ground (arith, e)
  | inl e ↦ elim (Bool-cases (has_str arr p)) [
    | inl h ↦
        ap (λ x. has_str x s)
          (if_true (if not (has_str arr p) then arr ++ (p ∷ []) else arr) arr e ∙ kept arr p h)
        ∙ known (has_str arr s) (is_addable p) (streq p s) (has_str-same arr p s h)
    | inr h ↦
        ap (λ x. has_str x s)
          (if_true (if not (has_str arr p) then arr ++ (p ∷ []) else arr) arr e ∙ added arr p h)
        ∙ has_str-snoc arr p s
        ∙ ap (λ b. has_str arr s || b && streq p s) (sym e)
  ]
]

add_part-distinct :
    (arr : List Bytes) (p : Bytes) → is_distinct arr ≡ true → is_distinct (add_part arr p) ≡ true
unfolding add_part
add_part-distinct arr p d =
    if_elim (λ r. is_distinct r ≡ true) (ltb 0 (length p) && ltb (length p) 128) _ _
      (λ h.
        if_elim (λ r. is_distinct r ≡ true) (not (has_str arr p)) _ _
          (λ k. is_distinct-snoc arr p d (ground (arith, k))) (λ k. d))
      (λ h. d)

add_parts_lem :
    (arr ps : List Bytes) (s : Bytes)
    → (has_str (add_parts arr ps) s ≡ (has_str arr s || any (λ p. is_addable p && streq p s) ps))
      × (is_distinct arr ≡ true → is_distinct (add_parts arr ps) ≡ true)
add_parts_lem arr [] s = (ground arith, λ d. d)
add_parts_lem arr (p ∷ ps) s =
    let (h, d) = add_parts_lem (add_part arr p) ps s in
    (
      h
          ∙ ap (◌|| any (λ p. is_addable p && streq p s) ps) (add_part-has arr p s)
          ∙ assoc (has_str arr s) (is_addable p && streq p s)
              (any (λ p. is_addable p && streq p s) ps),
      λ e. d (add_part-distinct arr p e),
    )
  where
    assoc : (a b c : Bool) → ((a || b) || c) ≡ (a || (b || c))
    assoc a b c = ground arith

-- After add_names the array has exactly the entries it had before and the parts of the name
-- between its commas that have 1 to 127 bytes, and no entry stands in it twice, unless one did
-- before.
pub add_names-entries :
    (arr : List Bytes) (name s : Bytes)
    → (has_str (add_names arr name) s
        ≡ (has_str arr s || any (λ p. is_addable p && streq p s) (parts name)))
      × ((not (is_distinct arr) || is_distinct (add_names arr name)) ≡ true)
unfolding add_names
add_names-entries arr name s =
    let (h, d) = add_parts_lem arr (parts name) s in
    (h, unless (is_distinct arr) (is_distinct (add_parts arr (parts name))) d)
  where
    unless : (a b : Bool) → (a ≡ true → b ≡ true) → (not a || b) ≡ true
    unless true b f = f refl
    unless false b f = refl
