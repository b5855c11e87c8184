-- ===== src/Frames/Select.antt =====
-- src/frames.c: parse_select, the checks of op_frames before the run, and its exit code.
-- A number of the job's description is a double, an element of T, with what the code asks of it.
mod Tests
pub mod Bounded
use ffmpeg_wasi.Base.{
  ℕ, zero, suc, ◌+◌, Bool, true, false, not, ◌&&◌, ◌||◌, List, [], ◌∷◌, Option, none, some, ltb,
  leb, ◌==◌, if◌then◌else◌, length,
}
use mathlib.Core.Option
use ffmpeg_wasi.Base.Text.{Bytes, codes, streq}

-- FRAMES_DEFAULT_CAP and FRAMES_MAX_TARGETS
abbrev pub frames_default_cap : ℕ
frames_default_cap = 1000

abbrev pub frames_max_targets : ℕ
frames_max_targets = 4096

pub record Doubles (T : Type 0) : Type 0 where
  pub origin : T  -- 0
  pub plus : T → T → T
  pub less : T → T → Bool

-- What cJSON tells of a member: a number, a string, an array of such, or anything else.
pub data Item (T : Type 0) : Type 0 where
  number : T → Item T
  string : Bytes → Item T
  other : Item T

pub data Member (T : Type 0) : Type 0 where
  absent : Member T
  item : Item T → Member T
  array : List (Item T) → Member T

-- The members of `select` that are looked up.
pub record Select (T : Type 0) : Type 0 where
  pub timestamp : Member T
  pub timestamps : Member T
  pub interval : Member T
  pub scene : Member T

-- `enum sel_kind`, with the targets or the filter that go with it.
pub data Selection (T : Type 0) : Type 0 where
  at : List T → Selection T
  thumbnail : Selection T
  threshold : T → Selection T

module _ {T : Type 0} (d : Doubles T) where
  abbrev pub is_number : Member T → Bool
  is_number (item (number x)) = true
  is_number _ = false

  abbrev pub is_string : Member T → Bool
  is_string (item (string s)) = true
  is_string _ = false

  abbrev pub is_filled : Member T → Bool
  is_filled (array (x ∷ xs)) = true
  is_filled _ = false

  abbrev pub one : Bool → ℕ
  one b = if b then 1 else 0

  -- `set`
  unfoldable pub selectors : Select T → ℕ
  selectors sel =
      one (is_number sel.timestamp)
      + one (is_filled sel.timestamps)
      + one (is_number sel.interval)
      + one (is_number sel.scene || is_string sel.scene)

  abbrev pub and_target : T → Option (List T) → Option (List T)
  and_target x none = none
  and_target x (some xs) = some (x ∷ xs)

  -- The loop over `timestamps`, with `n` targets read and `limit` allowed.
  unfoldable pub listed : ℕ → ℕ → List (Item T) → Option (List T)
  listed limit n [] = some []
  listed limit n (number x ∷ xs) =
      let rest = listed limit (suc n) xs in if leb limit n then some [] else and_target x rest
  listed limit n (string s ∷ xs) = none
  listed limit n (other ∷ xs) = none

  -- The loop of `interval`, with room for so many targets; `dur` is `none` if it is unknown.
  unfoldable pub stepped : ℕ → Option T → T → T → List T
  stepped zero dur step t = []
  stepped (suc n) dur step t =
      let rest = stepped n dur step (d.plus t step) in
      elim dur [ none ↦ t ∷ rest | some end ↦ if d.less t end then t ∷ rest else [] ]

  -- `n >= cap || n >= FRAMES_MAX_TARGETS`, as the lesser of the two limits.
  abbrev pub limit_of : ℕ → ℕ
  limit_of cap = if ltb cap frames_max_targets then cap else frames_max_targets

  abbrev pub scene_of : Member T → Option (Selection T)
  scene_of (item (string s)) = if streq s (codes "thumbnail") then some thumbnail else none
  scene_of (item (number x)) = some (threshold x)
  scene_of _ = none

  -- `step <= 0`
  abbrev pub interval_of : ℕ → Option T → Member T → Member T → Option (Selection T)
  interval_of cap dur (item (number step)) scene =
      if d.less d.origin step then some (at (stepped (limit_of cap) dur step d.origin)) else none
  interval_of cap dur _ scene = scene_of scene

  abbrev pub timestamps_of : ℕ → Option T → Select T → Member T → Option (Selection T)
  timestamps_of cap dur sel (array (x ∷ xs)) = Option.map at (listed (limit_of cap) 0 (x ∷ xs))
  timestamps_of cap dur sel _ = interval_of cap dur sel.interval sel.scene

  abbrev pub timestamp_of : ℕ → Option T → Select T → Member T → Option (Selection T)
  timestamp_of cap dur sel (item (number x)) = some (at (x ∷ []))
  timestamp_of cap dur sel _ = timestamps_of cap dur sel sel.timestamps

  -- `none` for SEL_NONE. `dur` is the input's duration.
  unfoldable pub parse_select : Select T → Option T → ℕ → Option (Selection T)
  parse_select sel dur cap =
      if not (selectors sel == 1) then none else timestamp_of cap dur sel sel.timestamp

  -- `expected`, and the test of a template without a token.
  abbrev pub expected : ℕ → Selection T → ℕ
  expected cap (at ts) = length ts
  expected cap thumbnail = cap
  expected cap (threshold x) = cap

  unfoldable pub needs_token : ℕ → ℕ → Selection T → Bool
  needs_token ntok cap s = (ntok == 0) && ltb 1 (expected cap s)

-- `cap`, from the `valueint` of `count`, `none` if it is no number or not above 0.
abbrev pub cap_of : Option ℕ → ℕ
cap_of none = frames_default_cap
cap_of (some n) = if ltb 0 n then n else frames_default_cap
