-- ===== src/Meta/RoundTrip.antt =====
-- src/meta.c: what meta_add_disposition names, meta_disposition_from_json reads back.
use ffmpeg_wasi.Base.{
  ℕ, suc, ◌+◌, ◌≡◌, refl, ap, ◌∙◌, subst, Bool, true, false, ◌&&◌, ◌||◌, List, [], ◌∷◌, some, ◌==◌,
  map, ltb, leb, length, arith, Bool-cases, if_true, if_false, inl, inr,
}
use ffmpeg_wasi.Base.Text.{Bytes, streq}
use ffmpeg_wasi.Meta.{
  Flags, dispositions, row_of, names_from, meta_add_disposition, matched, flags_from,
  meta_disposition_from_json,
}

-- Each name of the rest of a table is found in its own row.
abbrev Located : ℕ → List Bytes → Type 0
Located i [] = Unit
Located i (n ∷ ns) = (row_of 0 dispositions n ≡ some i) × Located (suc i) ns

dispositions-Located : Located 0 dispositions
unfolding row_of streq
dispositions-Located = (
  refl,
  (
    refl,
    (
      refl,
      (
        refl,
        (
          refl,
          (
            refl,
            (refl, (refl, (refl, (refl, (refl, (refl, (refl, (refl, (refl, (refl, tt)))))))))),
          ),
        ),
      ),
    ),
  ),
)

-- The rows from `i` on are row `i` and the rows behind it.
row_skipped :
    (i j m : ℕ) (a b : Bool)
    → (i ≡ j → b ≡ false)
    → (a || (leb (suc i) j && ltb j (suc i + m)) && b) ≡ (a || (leb i j && ltb j (i + suc m)) && b)
row_skipped i j m a b h = ground arith

row_taken :
    (i j m : ℕ) (a b : Bool)
    → (i ≡ j → b ≡ true)
    → ((i == j || a) || (leb (suc i) j && ltb j (suc i + m)) && b)
      ≡ (a || (leb i j && ltb j (i + suc m)) && b)
row_taken i j m a b h = ground arith

module _ {ℓ} {F : Type ℓ} (flags : Flags F) where
  abbrev read_back : F → List Bytes → F
  read_back f ns = flags_from flags f (map some ns)

  read_back-names_from :
      (i : ℕ) (ns : List Bytes) (d f : F) (j : ℕ)
      → Located i ns
      → flags.has_flag (read_back f (names_from flags i ns d)) j
        ≡ (flags.has_flag f j || (leb i j && ltb j (i + length ns)) && flags.has_flag d j)
  unfolding names_from flags_from
  read_back-names_from i [] d f j l = ground arith
  read_back-names_from i (n ∷ ns) d f j (l, ls) = elim (Bool-cases (flags.has_flag d i)) [
    | inr e ↦
        ap (λ x. flags.has_flag (read_back f x) j)
          (if_false (n ∷ names_from flags (suc i) ns d) (names_from flags (suc i) ns d) e)
        ∙ read_back-names_from (suc i) ns d f j ls
        ∙ row_skipped i j (length ns) (flags.has_flag f j) (flags.has_flag d j)
            (λ q. subst (λ x. flags.has_flag d x ≡ false) q e)
    | inl e ↦
        ap (λ x. flags.has_flag (read_back f x) j)
          (if_true (n ∷ names_from flags (suc i) ns d) (names_from flags (suc i) ns d) e)
        ∙ ap (λ o. flags.has_flag (read_back (matched flags f o) (names_from flags (suc i) ns d)) j)
            l
        ∙ read_back-names_from (suc i) ns d (flags.with_flag f i) j ls
        ∙ ap (λ b. b || (leb (suc i) j && ltb j (suc i + length ns)) && flags.has_flag d j)
            (flags.has_flag-with_flag f i j)
        ∙ row_taken i j (length ns) (flags.has_flag f j) (flags.has_flag d j)
            (λ q. subst (λ x. flags.has_flag d x ≡ true) q e)
  ]

  -- A set of flags that is named by meta_add_disposition and read by meta_disposition_from_json comes
  -- back with every flag that the table names, and no other.
  pub meta_disposition-round_trip :
      (d : F) (j : ℕ)
      → flags.has_flag
          (meta_disposition_from_json flags (some (map some (meta_add_disposition flags d))))
          j
        ≡ (ltb j 16 && flags.has_flag d j)
  unfolding meta_disposition_from_json meta_add_disposition
  meta_disposition-round_trip d j =
      read_back-names_from 0 dispositions d flags.no_flags j dispositions-Located
      ∙ ground (arith, flags.has_flag-no_flags j)
