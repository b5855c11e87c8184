-- ===== src/Frames/Template.antt =====
-- src/frames.c: template_int_conversions, the check of a path template before it becomes the format
-- of an snprintf. `none` is -1.
pub mod Sound
pub mod Grammar
use ffmpeg_wasi.Base.{
  ℕ, zero, suc, ◌+◌, ◌≤◌, ◌<◌, ◌≡◌, refl, ap, sym, ◌∙◌, ◌↔◌, ◌⊎◌, inl, inr, Bool, true, false, not,
  ◌&&◌, ◌||◌, List, [], ◌∷◌, ◌++◌, Option, none, some, ltb, leb, ◌==◌, if◌then◌else◌, length, all,
  arith, Bool-cases, if_true, if_false, subst, append_assoc, length-append,
}
use mathlib.Core.Option as Option
use ffmpeg_wasi.Base.Text.{Bytes, is_digit}

-- `strchr("-+ 0#", c)`
abbrev pub is_flag : ℕ → Bool
is_flag c = c == b'-' || (c == b'+' || (c == b' ' || (c == b'0' || c == b'#')))

abbrev pub is_integer : ℕ → Bool
is_integer c = c == b'd' || (c == b'i' || (c == b'u' || (c == b'x' || (c == b'X' || c == b'o'))))

-- `while (*p && test(*p)) p++;`
unfoldable pub skip : (ℕ → Bool) → Bytes → Bytes
skip test [] = []
skip test (c ∷ s) = let rest = skip test s in if test c then rest else c ∷ s

unfoldable pub skip_precision : Bytes → Bytes
unfolding skip
skip_precision [] = []
skip_precision (c ∷ s) = if c == b'.' then skip is_digit s else c ∷ s

-- The letter of the conversion, and what stands behind it.
abbrev pub letter : Bytes → Option Bytes
letter [] = none
letter (c ∷ s) = if is_integer c then some s else none

unfoldable pub conversion : Bytes → Option Bytes
unfolding skip skip_precision
conversion s = letter (skip_precision (skip is_digit (skip is_flag s)))

-- A conversion read, and the rest of the text counted.
abbrev pub counted : (Bytes → Option ℕ) → Option Bytes → Option ℕ
counted f none = none
counted f (some s) = Option.map suc (f s)

-- The loop; each round takes a byte at least, so the length of the text and one is fuel enough.
unfoldable pub count_from : ℕ → Bytes → Option ℕ
unfolding conversion
count_from zero s = none
count_from (suc fuel) [] = some 0
count_from (suc fuel) (c ∷ []) =
    let rest = count_from fuel [] in if not (c == b'%') then rest else none
count_from (suc fuel) (c ∷ d ∷ s) =
    let plain = count_from fuel (d ∷ s) in
    let percent = count_from fuel s in
    if not (c == b'%')
    then plain
    else if d == b'%'
    then percent
    else counted (count_from fuel) (conversion (d ∷ s))

unfoldable pub template_int_conversions : Bytes → Option ℕ
unfolding count_from
template_int_conversions t = count_from (suc (length t)) t
