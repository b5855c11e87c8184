-- ===== src/Sandbox/Tests.antt =====
-- A kernel of ABI 4 that takes every call, under a bridge, for src/sandbox.c.
use ffmpeg_wasi.Base.{true, not, ◌&&◌, Option, none, some}
use ffmpeg_wasi.Base.Int.{pos}
use ffmpeg_wasi.Base.Text.{Bytes, codes}
use ffmpeg_wasi.Sandbox.{Kernel, is_unset, is_off, sandbox_install}
use ffmpeg_wasi.Sandbox.Floor.{IsHonest, sandbox_install-IsHonest}

abbrev kernel : Kernel
kernel = record {
  abi = pos 4;
  creates = true;
  opens_urandom = true;
  takes_no_new_privs = true;
  restricts = true;
}

abbrev bridge : Option Bytes
bridge = some (codes "/run/host")

sandbox_install-IsHonest_example :
    IsHonest (not (is_unset bridge) && not (is_off none)) (sandbox_install bridge none kernel)
sandbox_install-IsHonest_example = sandbox_install-IsHonest bridge none kernel
