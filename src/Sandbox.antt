-- ===== src/Sandbox.antt =====
-- src/sandbox.c: sandbox_install of the native build, as a function of the environment and of what
-- the kernel answers. The calls that it makes are its second result, in order.
mod Tests
pub mod Floor
use ffmpeg_wasi.Base.{
  ℕ, ◌≡◌, Bool, true, false, not, ◌&&◌, ◌||◌, List, [], ◌∷◌, ◌++◌, Option, none, some,
  if◌then◌else◌,
}
use ffmpeg_wasi.Base.Int.{ℤ, pos, ltb_ℤ, leb_ℤ}
use ffmpeg_wasi.Base.Text.{Bytes, codes, streq}

-- LANDLOCK_ACCESS_FS_*
pub data Access : Type 0 where
  execute write_file read_file read_dir remove_dir remove_file : Access
  make_char make_dir make_reg make_sock make_fifo make_block make_sym refer truncate : Access

-- The string that sandbox_state reports.
pub data State : Type 0 where
  disabled unavailable landlock : State

-- The answers: the ABI version, whether the ruleset is created, whether /dev/urandom can be opened,
-- and whether prctl and landlock_restrict_self succeed.
pub record Kernel : Type 0 where
  pub abi : ℤ
  pub creates : Bool
  pub opens_urandom : Bool
  pub takes_no_new_privs : Bool
  pub restricts : Bool

-- A system call with its arguments, and with whether it succeeded.
pub data Call : Type 0 where
  create_ruleset : List Access → Bool → Call
  add_rule : Bytes → List Access → Call
  no_new_privs restrict_self : Bool → Call
  close_ruleset : Call

-- The accesses that are handled under an ABI version.
unfoldable pub handled : ℤ → List Access
handled abi =
    execute
    ∷ write_file
    ∷ read_file
    ∷ read_dir
    ∷ remove_dir
    ∷ remove_file
    ∷ make_char
    ∷ make_dir
    ∷ make_reg
    ∷ make_sock
    ∷ make_fifo
    ∷ make_block
    ∷ make_sym
    ∷ ((if leb_ℤ (pos 2) abi then refer ∷ [] else [])
        ++ (if leb_ℤ (pos 3) abi then truncate ∷ [] else []))

abbrev pub urandom : Bytes
urandom = codes "/dev/urandom"

unfoldable pub grant : Kernel → Bytes → List Access → List Call
grant k path allowed = if not k.opens_urandom then [] else add_rule path allowed ∷ []

-- `!sock || !*sock`
abbrev pub is_unset : Option Bytes → Bool
is_unset none = true
is_unset (some []) = true
is_unset (some (c ∷ s)) = false

-- `off && strcmp(off, "1") == 0`
abbrev pub is_off : Option Bytes → Bool
is_off none = false
is_off (some s) = streq s (codes "1")

-- AFMPEG_NATIVE_SOCKET and AFMPEG_NO_SANDBOX.
unfoldable pub sandbox_install : Option Bytes → Option Bytes → Kernel → State × List Call
unfolding handled grant
sandbox_install sock off k =
    if is_unset sock
    then (disabled, [])
    else if is_off off
    then (disabled, [])
    else if ltb_ℤ k.abi (pos 1)
    then (unavailable, [])
    else if not k.creates
    then (unavailable, create_ruleset (handled k.abi) false ∷ [])
    else (let calls = create_ruleset (handled k.abi) true ∷ grant k urandom (read_file ∷ []) in
        if not k.takes_no_new_privs
        then (unavailable, calls ++ (no_new_privs false ∷ close_ruleset ∷ []))
        else if not k.restricts
        then (unavailable, calls ++ (no_new_privs true ∷ restrict_self false ∷ close_ruleset ∷ []))
        else (landlock, calls ++ (no_new_privs true ∷ restrict_self true ∷ close_ruleset ∷ [])))
