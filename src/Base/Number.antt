-- ===== src/Base/Number.antt =====
-- strtol and strtoll of the C library in base 10, over the bounds of the type that they return.
use ffmpeg_wasi.Base.{
  ℕ, ◌+◌, ◌-◌, ◌*◌, ◌^◌, ◌≡◌, refl, ap, ◌∙◌, Bool, true, false, ◌||◌, [], ◌∷◌, ◌++◌, Option, none,
  some, arith, ◌==◌, if◌then◌else◌, all, if_false,
}
use ffmpeg_wasi.Base.Int.{ℤ, pos, negsuc, sub_ℕ, ltb_ℤ}
use ffmpeg_wasi.Base.Text.{Bytes, is_digit, is_space}

-- The digits at the front, and what follows them.
unfoldable pub span_digits : Bytes → Bytes × Bytes
span_digits [] = ([], [])
span_digits (c ∷ s) =
    if is_digit c then (let (ds, r) = span_digits s in (c ∷ ds, r)) else ([], c ∷ s)

-- The value of a row of digits behind those already read.
abbrev pub decimal : ℕ → Bytes → ℕ
decimal acc [] = acc
decimal acc (d ∷ ds) = decimal (acc * 10 + (d - b'0')) ds

abbrev pub skip_space : Bytes → Bytes
skip_space [] = []
skip_space (c ∷ s) = if is_space c then skip_space s else c ∷ s

-- The sign, if there is one: whether it is a minus, and what follows.
abbrev pub split_sign : Bytes → Bool × Bytes
split_sign [] = (false, [])
split_sign (c ∷ s) =
    if c == b'-' then (true, s) else if c == b'+' then (false, s) else (false, c ∷ s)

-- The value (at a bound of the type where it would lie outside), whether it did (ERANGE), and the
-- text behind it.
pub record Parsed : Type 0 where
  pub value : ℤ
  pub out_of_range : Bool
  pub rest : Bytes

abbrev pub saturate : ℤ → ℤ → ℤ → Bytes → Parsed
saturate lo hi v r = record {
  value = if ltb_ℤ v lo then lo else if ltb_ℤ hi v then hi else v;
  out_of_range = ltb_ℤ v lo || ltb_ℤ hi v;
  rest = r;
}

abbrev of_digits : ℤ → ℤ → Bool → Bytes × Bytes → Option Parsed
of_digits lo hi minus ([], r) = none
of_digits lo hi minus (d ∷ ds, r) =
    let n = decimal 0 (d ∷ ds) in some (saturate lo hi (if minus then sub_ℕ 0 n else pos n) r)

-- `none` where no digits stand, in which case `end == s`.
unfoldable pub strto : ℤ → ℤ → Bytes → Option Parsed
unfolding span_digits
strto lo hi s = let (minus, t) = split_sign (skip_space s) in of_digits lo hi minus (span_digits t)

-- `long` and `long long` of the native build: 64 bits.
abbrev pub long_min : ℤ
long_min = negsuc (2 ^ 63 - 1)

abbrev pub long_max : ℤ
long_max = pos (2 ^ 63 - 1)

-- A text that no digit begins.
abbrev pub NoDigit : Bytes → Type 0
NoDigit [] = Unit {0}
NoDigit (c ∷ s) = is_digit c ≡ false

pub span_digits-append :
    (ds r : Bytes) → all is_digit ds ≡ true → NoDigit r → span_digits (ds ++ r) ≡ (ds, r)
unfolding span_digits
span_digits-append [] [] a n = refl
span_digits-append [] (c ∷ r) a n = if_false _ _ n
span_digits-append (d ∷ ds) r a n = ground (arith, span_digits-append ds r)

front_digit :
    (d : ℕ) (s : Bytes) → is_digit d ≡ true → split_sign (skip_space (d ∷ s)) ≡ (false, d ∷ s)
front_digit d s h = ground arith

-- A row of digits with no sign or space before it.
pub strto-digits :
    (lo hi : ℤ) (d : ℕ) (ds r : Bytes)
    → all is_digit (d ∷ ds) ≡ true
    → NoDigit r
    → strto lo hi (d ∷ (ds ++ r)) ≡ some (saturate lo hi (pos (decimal 0 (d ∷ ds))) r)
unfolding strto
strto-digits lo hi d ds r a n =
    ap (λ (q : Bool × Bytes). of_digits lo hi q.0 (span_digits q.1))
      (front_digit d (ds ++ r) (ground arith))
    ∙ ap (of_digits lo hi false) (span_digits-append (d ∷ ds) r a n)
