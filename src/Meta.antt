-- ===== src/Meta.antt =====
-- src/meta.c: the named disposition flags, read from a stream and written to one.
mod Tests
pub mod RoundTrip
use ffmpeg_wasi.Base.{
  ℕ, suc, ◌≡◌, Bool, true, false, ◌||◌, List, [], ◌∷◌, Option, none, some, ◌==◌, if◌then◌else◌,
}
use ffmpeg_wasi.Base.Text.{Bytes, codes, streq}

-- The bits of an `int` that AV_DISPOSITION_* name, numbered by the rows of the table. Which bits they
-- are is libavformat's; the code relies on their being different ones.
pub record Flags {ℓ} (F : Type ℓ) : Type ℓ where
  pub no_flags : F
  pub with_flag : F → ℕ → F  -- flags |= DISPOSITIONS[i].flag
  pub has_flag : F → ℕ → Bool  -- flags & DISPOSITIONS[i].flag
  pub has_flag-no_flags : (i : ℕ) → has_flag no_flags i ≡ false
  pub has_flag-with_flag : (f : F) (i j : ℕ) → has_flag (with_flag f i) j ≡ (i == j || has_flag f j)

-- The names of the table DISPOSITIONS.
abbrev pub dispositions : List Bytes
dispositions =
    codes "default"
    ∷ codes "dub"
    ∷ codes "original"
    ∷ codes "comment"
    ∷ codes "lyrics"
    ∷ codes "karaoke"
    ∷ codes "forced"
    ∷ codes "hearing_impaired"
    ∷ codes "visual_impaired"
    ∷ codes "clean_effects"
    ∷ codes "attached_pic"
    ∷ codes "captions"
    ∷ codes "descriptions"
    ∷ codes "metadata"
    ∷ codes "dependent"
    ∷ codes "still_image"
    ∷ []

-- The inner loop of meta_disposition_from_json: the first row from `i` on with that name.
unfoldable pub row_of : ℕ → List Bytes → Bytes → Option ℕ
row_of i [] name = none
row_of i (n ∷ ns) name = let rest = row_of (suc i) ns name in if streq name n then some i else rest

module _ {ℓ} {F : Type ℓ} (flags : Flags F) where
  -- The loop of meta_add_disposition, from row `i` on: the names that it adds.
  unfoldable pub names_from : ℕ → List Bytes → F → List Bytes
  names_from i [] d = []
  names_from i (n ∷ ns) d =
      let rest = names_from (suc i) ns d in if flags.has_flag d i then n ∷ rest else rest

  unfoldable pub meta_add_disposition : F → List Bytes
  unfolding names_from
  meta_add_disposition d = names_from 0 dispositions d

  -- One name; one that is in no row is ignored.
  abbrev pub matched : F → Option ℕ → F
  matched f none = f
  matched f (some i) = flags.with_flag f i

  -- The loop over the array, whose entries are `none` where they are not strings.
  unfoldable pub flags_from : F → List (Option Bytes) → F
  unfolding row_of
  flags_from f [] = f
  flags_from f (none ∷ es) = flags_from f es
  flags_from f (some name ∷ es) = flags_from (matched f (row_of 0 dispositions name)) es

  -- `none` is a value that is no array.
  unfoldable pub meta_disposition_from_json : Option (List (Option Bytes)) → F
  unfolding flags_from
  meta_disposition_from_json none = flags.no_flags
  meta_disposition_from_json (some arr) = flags_from flags.no_flags arr
