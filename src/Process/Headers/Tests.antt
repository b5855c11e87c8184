-- ===== src/Process/Headers/Tests.antt =====
-- Two outputs for src/process.c, of which the second has no file of its own and fails.
use ffmpeg_wasi.Base.{
  ◌≡◌, refl, ℕ, ◌==◌, Bool, true, false, List, [], ◌∷◌, none, some, if◌then◌else◌, if_false, arith,
}
use ffmpeg_wasi.Base.Text.{Bytes}
use ffmpeg_wasi.Av.{eio, ok, err}
use ffmpeg_wasi.Process.Spec.Tree.{entries}
use ffmpeg_wasi.Process.Headers.{Muxers, begin_output, begin_outputs, close_outputs}
use ffmpeg_wasi.Process.Headers.Closed.{IsMuxers, begin_outputs-Released}

-- The state says of each muxer whether it has a `pb`.
abbrev muxers : Muxers (List (Bytes × Bytes)) (ℕ → Bool)
muxers = record {
  no_file = λ i. i == 1;
  has_pb = λ i w. w i;
  apply_metadata = λ i w. (none, w);
  open_output = λ i w. (none, λ j. if i == j then true else w j);
  install_muxer_io = λ i w. w;
  write_header = λ i d w. (if i == 1 then err eio else ok [], w);
  close_output = λ i w. λ j. if i == j then false else w j;
}

laws : IsMuxers muxers
laws = record {
  metadata-pb = λ i w j. refl;
  open-pb = λ i w j n. if_false true (w j) (ground (arith, n));
  install-pb = λ i w j. refl;
  header_at-pb = λ i d w j. refl;
  close-pb = λ i w j. refl;
}

abbrev nothing : ℕ → Bool
nothing j = false

first_failure : (begin_outputs entries muxers 0 ([] ∷ [] ∷ []) nothing).0 ≡ some eio
unfolding begin_outputs begin_output
first_failure = refl

begin_outputs-Released_example :
    muxers.has_pb 0
      (close_outputs entries muxers 2 0 (begin_outputs entries muxers 0 ([] ∷ [] ∷ []) nothing).1)
    ≡ false
begin_outputs-Released_example =
    begin_outputs-Released entries muxers laws ([] ∷ [] ∷ []) nothing (λ j. refl) 0
