-- ===== src/Process/Headers.antt =====
-- src/process.c: the loop of op_process that opens the outputs and writes their headers, and the one that
-- closes them at its end. Muxers is the calls on the muxers `c.out[i].ofmt`, by number, on the state S of
-- all of them; apply_output_metadata is modelled in Process/Metadata.
mod Tests
pub mod Closed
use ffmpeg_wasi.Base.{
  ℕ, zero, suc, Bool, true, false, not, ◌&&◌, List, [], ◌∷◌, Option, none, some, ltb, if◌then◌else◌,
}
use ffmpeg_wasi.Av.{AvError, einval, Result, ok, err, ◌>>=◌}
use ffmpeg_wasi.Process.Spec.Options.{Dictionary}

pub record Muxers (D S : Type 0) : Type 0 where
  pub no_file : ℕ → Bool  -- AVFMT_NOFILE
  pub has_pb : ℕ → S → Bool
  pub apply_metadata : ℕ → S → Option AvError × S  -- apply_output_metadata
  pub open_output : ℕ → S → Option AvError × S  -- afio_open_output
  pub install_muxer_io : ℕ → S → S
  pub write_header : ℕ → D → S → Result D × S  -- with the options that are left
  pub close_output : ℕ → S → S  -- afio_close_output

module _ {D S : Type 0} (dict : Dictionary D) (av : Muxers D S) where
  -- The next call, if the code is not an error.
  abbrev pub and_then : (S → Option AvError × S) → Option AvError × S → Option AvError × S
  and_then k (none, w) = k w
  and_then k (some code, w) = (some code, w)

  abbrev pub open_file : ℕ → S → Option AvError × S
  open_file i w = if av.no_file i then (none, w) else av.open_output i w

  -- An option that the muxer left is an error.
  abbrev pub after_header : Result D × S → Option AvError × S
  after_header (err code, w) = (some code, w)
  after_header (ok opts, w) = (if ltb 0 (dict.dict_count opts) then some einval else none, w)

  abbrev pub header_at : ℕ → D → S → Option AvError × S
  header_at i fmt_opts w = after_header (av.write_header i fmt_opts (av.install_muxer_io i w))

  unfoldable pub begin_output : ℕ → D → S → Option AvError × S
  begin_output i fmt_opts w =
      and_then (header_at i fmt_opts) (and_then (open_file i) (av.apply_metadata i w))

  -- The outputs from number `i` on, by their `fmt_opts`.
  unfoldable pub begin_outputs : ℕ → List D → S → Option AvError × S
  unfolding begin_output
  begin_outputs i [] w = (none, w)
  begin_outputs i (opts ∷ os) w = and_then (begin_outputs (suc i) os) (begin_output i opts w)

  -- The first half of the loop at `end`, over `n` outputs from number `i` on.
  unfoldable pub close_output_at : ℕ → S → S
  close_output_at i w = if av.has_pb i w && not (av.no_file i) then av.close_output i w else w

  unfoldable pub close_outputs : ℕ → ℕ → S → S
  unfolding close_output_at
  close_outputs zero i w = w
  close_outputs (suc n) i w = close_outputs n (suc i) (close_output_at i w)
