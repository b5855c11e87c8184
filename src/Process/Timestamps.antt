-- ===== src/Process/Timestamps.antt =====
-- src/process.c: the saturating timestamp arithmetic (ts_add, ts_sub, median3).
-- A timestamp is the integer that the `int64_t` holds, with AV_NOPTS_VALUE at INT64_MIN.
use ffmpeg_wasi.Base.{◌≡◌, ◌⊎◌, ◌&&◌, arith, if◌then◌else◌}
use ffmpeg_wasi.Base.Int.{
  ℤ, pos, ◌+ℤ◌, ◌-ℤ◌, ◌≤ℤ◌, ltb_ℤ, int64_min, int64_max, IsInt64, min_ℤ, max_ℤ, +ℤ_parts, -ℤ_parts,
  eq_of_parts,
}

-- AV_NOPTS_VALUE of libavutil: the least `int64_t`.
abbrev pub nopts : ℤ
nopts = int64_min

unfoldable pub ts_add : ℤ → ℤ → ℤ
ts_add a b =
    if ltb_ℤ (pos 0) b && ltb_ℤ (int64_max -ℤ b) a
    then int64_max
    else if ltb_ℤ b (pos 0) && ltb_ℤ a (int64_min -ℤ b)
    then int64_min
    else a +ℤ b

unfoldable pub ts_sub : ℤ → ℤ → ℤ
ts_sub a b =
    if ltb_ℤ b (pos 0) && ltb_ℤ (int64_max +ℤ b) a
    then int64_max
    else if ltb_ℤ (pos 0) b && ltb_ℤ a (int64_min +ℤ b)
    then int64_min
    else a -ℤ b

unfoldable pub median3 : ℤ → ℤ → ℤ → ℤ
median3 a b c = max_ℤ (min_ℤ a b) (min_ℤ (max_ℤ a b) c)

-- An integer moved into the `int64_t` range: the nearest value that the type holds.
abbrev pub clamp_int64 : ℤ → ℤ
clamp_int64 a = max_ℤ int64_min (min_ℤ a int64_max)

-- On two `int64_t` values, `ts_add` is the true sum moved into range, and so is itself in range.
pub ts_add-clamp : (a b : ℤ) → IsInt64 a → IsInt64 b → ts_add a b ≡ clamp_int64 (a +ℤ b)
unfolding ts_add
ts_add-clamp a b ha hb = ground (
  arith,
  +ℤ_parts a b,
  -ℤ_parts int64_max b,
  -ℤ_parts int64_min b,
  eq_of_parts (a +ℤ b) int64_max,
  eq_of_parts (a +ℤ b) int64_min,
)

pub ts_sub-clamp : (a b : ℤ) → IsInt64 a → IsInt64 b → ts_sub a b ≡ clamp_int64 (a -ℤ b)
unfolding ts_sub
ts_sub-clamp a b ha hb = ground (
  arith,
  -ℤ_parts a b,
  +ℤ_parts int64_max b,
  +ℤ_parts int64_min b,
  eq_of_parts (a -ℤ b) int64_max,
  eq_of_parts (a -ℤ b) int64_min,
)

pub ts_add-IsInt64 : (a b : ℤ) → IsInt64 a → IsInt64 b → IsInt64 (ts_add a b)
ts_add-IsInt64 a b ha hb = rw (ts_add-clamp a b ha hb) (ground arith)

-- What the guards of ts_add and ts_sub compute before they test stays in the `int64_t` range on
-- the side where it is evaluated, and so does the sum or difference that they then return: no
-- signed operation of either function overflows.
pub ts_add_sub-no_overflow :
    (a b : ℤ)
    → IsInt64 a
    → IsInt64 b
    → ((b ≤ℤ pos 0) ⊎ (IsInt64 (int64_max -ℤ b) × IsInt64 (int64_min +ℤ b)))
      × ((pos 0 ≤ℤ b) ⊎ (IsInt64 (int64_min -ℤ b) × IsInt64 (int64_max +ℤ b)))
      × IsInt64 (ts_add a b)
      × IsInt64 (ts_sub a b)
ts_add_sub-no_overflow a b ha hb = (
  ground (arith, -ℤ_parts int64_max b, +ℤ_parts int64_min b),
  ground (arith, -ℤ_parts int64_min b, +ℤ_parts int64_max b),
  ts_add-IsInt64 a b ha hb,
  rw (ts_sub-clamp a b ha hb) (ground arith),
)

-- The sum of the three less their least and their greatest, as fftools writes it.
pub median3-sum :
    (a b c : ℤ) → median3 a b c ≡ a +ℤ b +ℤ c -ℤ min_ℤ a (min_ℤ b c) -ℤ max_ℤ a (max_ℤ b c)
unfolding median3
median3-sum a b c = ground (
  arith,
  +ℤ_parts a b,
  +ℤ_parts (a +ℤ b) c,
  -ℤ_parts (a +ℤ b +ℤ c) (min_ℤ a (min_ℤ b c)),
  -ℤ_parts (a +ℤ b +ℤ c -ℤ min_ℤ a (min_ℤ b c)) (max_ℤ a (max_ℤ b c)),
  eq_of_parts (median3 a b c) (a +ℤ b +ℤ c -ℤ min_ℤ a (min_ℤ b c) -ℤ max_ℤ a (max_ℤ b c)),
)
