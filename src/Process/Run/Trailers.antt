-- ===== src/Process/Run/Trailers.antt =====
-- src/process.c: the trailers of a job's outputs.
use ffmpeg_wasi.Base.{ℕ, zero, suc, ◌≡◌, refl, ap, ◌∙◌, List, [], ◌∷◌, Option, none, some}
use ffmpeg_wasi.Av.{AvError}
use ffmpeg_wasi.Process.Run.{Job, first_error, write_trailers}

module _ {S : Type 0} (job : Job S) where
  -- What av_write_trailer answers for each of `n` outputs from number `j` on, one after the other, and
  -- the state after all of them.
  abbrev pub answers : ℕ → ℕ → S → List (Option AvError)
  answers zero j w = []
  answers (suc n) j w = (job.trailer j w).0 ∷ answers n (suc j) (job.trailer j w).1

  abbrev pub written : ℕ → ℕ → S → S
  written zero j w = w
  written (suc n) j w = written n (suc j) (job.trailer j w).1

  abbrev pub first_of : List (Option AvError) → Option AvError
  first_of [] = none
  first_of (none ∷ os) = first_of os
  first_of (some code ∷ os) = some code

  first_error-first_of :
      (rc o : Option AvError) (os : List (Option AvError))
      → first_error job (first_error job rc o) (first_of os)
        ≡ first_error job rc (first_of (o ∷ os))
  first_error-first_of none none os = refl
  first_error-first_of none (some code) os = refl
  first_error-first_of (some rc) o os = refl

  first_error-none : (rc : Option AvError) → rc ≡ first_error job rc none
  first_error-none none = refl
  first_error-none (some code) = refl

  write_trailers-answers :
      (n j : ℕ) (rc : Option AvError) (w : S)
      → write_trailers job n j rc w ≡ (first_error job rc (first_of (answers n j w)), written n j w)
  unfolding write_trailers
  write_trailers-answers zero j rc w = ap (λ x. (x, w)) (first_error-none rc)
  write_trailers-answers (suc n) j rc w =
      write_trailers-answers n (suc j) (first_error job rc (job.trailer j w).0) (job.trailer j w).1
      ∙ ap (λ x. (x, written n (suc j) (job.trailer j w).1))
          (first_error-first_of rc (job.trailer j w).0 _)

  -- The trailer of every output is written, also behind one that fails, and the answer is the first
  -- error among them, if there is one.
  pub write_trailers-first :
      (n_out : ℕ) (w : S)
      → write_trailers job n_out 0 none w ≡ (first_of (answers n_out 0 w), written n_out 0 w)
  write_trailers-first n_out w = write_trailers-answers n_out 0 none w
