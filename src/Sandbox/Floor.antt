-- ===== src/Sandbox/Floor.antt =====
-- src/sandbox.c: the state that is reported is the state that the process is in.
use ffmpeg_wasi.Base.{
  ◌≡◌, refl, Bool, true, false, not, ◌&&◌, List, [], ◌∷◌, ◌++◌, Option, if◌then◌else◌, any, all,
  count,
}
use ffmpeg_wasi.Base.Int.{pos, ltb_ℤ}
use ffmpeg_wasi.Base.Text.{Bytes, streq}
use ffmpeg_wasi.Sandbox.{
  Access, read_file, State, disabled, unavailable, landlock, Kernel, Call, create_ruleset, add_rule,
  no_new_privs, restrict_self, close_ruleset, handled, urandom, is_unset, is_off, sandbox_install,
}

abbrev pub is_landlock : State → Bool
is_landlock landlock = true
is_landlock _ = false

abbrev pub is_disabled : State → Bool
is_disabled disabled = true
is_disabled _ = false

abbrev pub is_confining : Call → Bool
is_confining (restrict_self b) = b
is_confining _ = false

abbrev pub is_created : Call → Bool
is_created (create_ruleset a b) = b
is_created _ = false

abbrev pub is_close : Call → Bool
is_close close_ruleset = true
is_close _ = false

-- A rule, if the call adds one, is to read /dev/urandom.
abbrev pub grants_urandom_only : Call → Bool
grants_urandom_only (add_rule path (read_file ∷ [])) = streq path urandom
grants_urandom_only (add_rule path _) = false
grants_urandom_only _ = true

-- What is shown of an outcome.
abbrev pub IsHonest : Bool → State × List Call → Type 0
IsHonest wanted (st, calls) =
    (is_landlock st ≡ any is_confining calls)
    × (is_disabled st ≡ not wanted)
    × (count is_created calls ≡ count is_close calls)
    × (all grants_urandom_only calls ≡ true)

-- sandbox_install with each test as a Boolean.
abbrev tests : (u o a c g n r : Bool) → List Access → State × List Call
tests u o a c g n r h =
    if u
    then (disabled, [])
    else if o
    then (disabled, [])
    else if a
    then (unavailable, [])
    else if not c
    then (unavailable, create_ruleset h false ∷ [])
    else (let calls : List Call =
          create_ruleset h true ∷ (if not g then [] else add_rule urandom (read_file ∷ []) ∷ []) in
        if not n
        then (unavailable, calls ++ (no_new_privs false ∷ close_ruleset ∷ []))
        else if not r
        then (unavailable, calls ++ (no_new_privs true ∷ restrict_self false ∷ close_ruleset ∷ []))
        else (landlock, calls ++ (no_new_privs true ∷ restrict_self true ∷ close_ruleset ∷ [])))

tests-IsHonest :
    (u o a c g n r : Bool) (h : List Access) → IsHonest (not u && not o) (tests u o a c g n r h)
unfolding streq
tests-IsHonest true o a c g n r h = (refl, refl, refl, refl)
tests-IsHonest false true a c g n r h = (refl, refl, refl, refl)
tests-IsHonest false false true c g n r h = (refl, refl, refl, refl)
tests-IsHonest false false false false g n r h = (refl, refl, refl, refl)
tests-IsHonest false false false true true false r h = (refl, refl, refl, refl)
tests-IsHonest false false false true false false r h = (refl, refl, refl, refl)
tests-IsHonest false false false true true true false h = (refl, refl, refl, refl)
tests-IsHonest false false false true false true false h = (refl, refl, refl, refl)
tests-IsHonest false false false true true true true h = (refl, refl, refl, refl)
tests-IsHonest false false false true false true true h = (refl, refl, refl, refl)

-- sandbox_install reports `landlock` exactly where landlock_restrict_self has succeeded, and
-- `disabled` exactly where there is no bridge or the sandbox was turned off. It closes
-- every ruleset that it created, and the one rule that it may add is to read /dev/urandom.
pub sandbox_install-IsHonest :
    (sock off : Option Bytes) (k : Kernel)
    → IsHonest (not (is_unset sock) && not (is_off off)) (sandbox_install sock off k)
unfolding sandbox_install
sandbox_install-IsHonest sock off k =
    tests-IsHonest (is_unset sock) (is_off off) (ltb_ℤ k.abi (pos 1)) k.creates k.opens_urandom
      k.takes_no_new_privs k.restricts (handled k.abi)
