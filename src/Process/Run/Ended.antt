-- ===== src/Process/Run/Ended.antt =====
-- src/process.c: every input of a job comes to its end.
use ffmpeg_wasi.Base.{
  ℕ, ◌+◌, ◌<◌, ◌≡◌, sym, ap, ◌∙◌, subst, Bool, true, false, List, some, all, replicate, length,
  length-replicate,
}
use mathlib.Core.Option
use ffmpeg_wasi.Av.{Result, ok, err, IfOk}
use ffmpeg_wasi.Process.Run.{Job, demux, finished, run_job}
use ffmpeg_wasi.Process.Run.Machine.{
  Steps, Steps-length, IfDone, Through, IfDone-weaken, demux-Steps,
}
use ffmpeg_wasi.Process.Run.Ends.{Bounded, demux-Done, live-replicate}

module _ {S : Type 0} (job : Job S) (left : S → ℕ) where
  -- All of the `n_in` inputs have ended, in steps from the state before the loop.
  abbrev pub AllEnded : ℕ → S → List Bool × ℕ × S → Type 0
  AllEnded n_in w (es, n, w') =
      Steps job 0 (replicate n_in false) w es w' × (length es ≡ n_in) × (all (λ b. b) es ≡ true)

  IfDone-IfOk :
      (P : List Bool × ℕ × S → Type 0) (m : Result (List Bool × ℕ × S))
      → IfDone job P (some m)
      → IfOk P m
  IfDone-IfOk P (err code) p = tt
  IfDone-IfOk P (ok x) p = p

  -- If what is left to read is bounded, then on more rounds than there are packets left and inputs the
  -- demux loop comes to an end: with an error, or with the end of every input, each in one of the steps
  -- in which an input gives a packet or ends for good; and the run of the job comes to what follows.
  pub run_job_ended :
      (fuel n_in n_out : ℕ) (w : S)
      → Bounded job left
      → left w + n_in < fuel
      → (m : Result (List Bool × ℕ × S)) × (demux job fuel (replicate n_in false) n_in w ≡ some m)
        × IfOk (AllEnded n_in w) m
        × (run_job job fuel n_in n_out w ≡ some (finished job n_out m))
  unfolding run_job
  run_job_ended fuel n_in n_out w h l =
      let (m, e) =
        demux-Done job left fuel (replicate n_in false) n_in w h (live-replicate job left n_in)
          (rw (sym (live-replicate job left n_in)) l) in
      (
        m,
        e,
        IfDone-IfOk (AllEnded n_in w) m (
            subst (IfDone job (AllEnded n_in w)) e (
              IfDone-weaken job (Through job (replicate n_in false) w) (AllEnded n_in w) _
                (λ x t. (
                  t.0,
                  Steps-length job 0 (replicate n_in false) x.0 w x.2 t.0
                      ∙ length-replicate n_in false,
                  t.2,
                ))
                (demux-Steps job fuel (replicate n_in false) n_in w
                  (live-replicate job left n_in)))),
        ap (Option.map (finished job n_out)) e,
      )
