-- ===== src/Process/Spec.antt =====
-- src/process.c: the job's description as op_process reads it, with spec_seconds. The parser is
-- cJSON's: a Json is what its calls tell of an item J, whose numbers are doubles T.
mod Tests
pub mod Options
pub mod Assigned
pub mod Outputs
pub mod Accepted
pub mod Several
pub mod Tree
use ffmpeg_wasi.Base.{
  ℕ, Bool, true, false, not, ◌&&◌, ◌||◌, List, [], ◌∷◌, Option, none, some, map, if◌then◌else◌,
}
use mathlib.Core.Option
use ffmpeg_wasi.Base.Int.{ℤ, pos}
use ffmpeg_wasi.Base.Text.{Bytes}

pub record Json (J T : Type 0) : Type 0 where
  pub get_object_item : J → Bytes → Option J  -- cJSON_GetObjectItemCaseSensitive
  pub children : J → List (Option Bytes × J)  -- cJSON_ArrayForEach, with `->string`
  pub is_object : J → Bool
  pub is_array : J → Bool
  pub is_true : J → Bool
  pub string_of : J → Option Bytes  -- cJSON_GetStringValue
  pub number_of : J → Option T  -- `->valuedouble`, if cJSON_IsNumber

-- The doubles: isfinite, 0, SPEC_SECONDS_MAX, `<`, and `(int64_t)(v * AV_TIME_BASE)`.
pub record Doubles (T : Type 0) : Type 0 where
  pub is_finite : T → Bool
  pub origin : T
  pub spec_seconds_max : T
  pub less : T → T → Bool
  pub micros : T → ℤ

-- `none` is -1.
unfoldable pub spec_seconds : {T : Type 0} → Doubles T → T → Option ℤ
spec_seconds d v =
    if not (d.is_finite v) || (d.less v d.origin || d.less d.spec_seconds_max v)
    then none
    else some (d.micros v)

module _ {J T : Type 0} (js : Json J T) where
  -- The calls on an item that may be NULL.
  abbrev pub children_of : Option J → List (Option Bytes × J)
  children_of none = []
  children_of (some j) = js.children j

  abbrev pub string_value : Option J → Option Bytes
  string_value none = none
  string_value (some j) = js.string_of j

  abbrev pub number_value : Option J → Option T
  number_value none = none
  number_value (some j) = js.number_of j

  abbrev pub object_of : Option J → Bool
  object_of none = false
  object_of (some j) = js.is_object j

  abbrev pub array_of : Option J → Bool
  array_of none = false
  array_of (some j) = js.is_array j

  abbrev pub truth_of : Option J → Bool
  truth_of none = false
  truth_of (some j) = js.is_true j

  -- The strings of an array, `none` for an element that is not one.
  abbrev pub strings_of : Option J → List (Option Bytes)
  strings_of j = map (λ (x : Option Bytes × J). js.string_of x.1) (children_of j)
