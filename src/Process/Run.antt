-- ===== src/Process/Run.antt =====
-- src/process.c: the run of a job in op_process, from the demux loop to the exit code.
-- A Job is what the loop calls: the lanes and the graph, modelled in Process/Graph and
-- Process/Copying, and libav's demuxers and muxers, on the state S of all of them.
mod Tests
pub mod Machine
pub mod Ends
pub mod Ended
pub mod Trailers
use ffmpeg_wasi.Base.{
  ℕ, zero, suc, ◌-◌, Bool, true, false, not, ◌&&◌, ◌||◌, List, [], ◌∷◌, Option, none, some, ltb,
  ◌==◌, if◌then◌else◌, length, replicate,
}
use mathlib.Core.Option
use ffmpeg_wasi.Base.Int.{ℤ, ltb_ℤ, ◌==ℤ◌, int64_max}
use ffmpeg_wasi.Av.{AvError, eof, is_eof, Rational, Result, ok, err, ◌>>=◌}
use ffmpeg_wasi.Process.Mux.{Packet, is_set, time_base_q}
use ffmpeg_wasi.Process.Window.{decoded_at}
use ffmpeg_wasi.Process.Graph.{Units}

pub record Job (S : Type 0) : Type 0 where
  pub units : Units
  pub spent : ℕ → S → Bool  -- input_is_spent
  pub read : ℕ → S → Result Packet × S  -- av_read_frame
  pub cutoff : ℕ → ℤ  -- in_cutoff_us
  pub base_of : ℕ → Packet → Rational  -- the time base of the packet's stream
  pub io_error : ℕ → S → Option AvError  -- `pb->error`, if it is negative
  pub feed : ℕ → Packet → S → Result S
  pub copy_packet : ℕ → Packet → S → Result S
  pub sub_packet : ℕ → Packet → S → Result S
  pub flush_decoders : ℕ → S → Result S  -- the pads of an input, then its subtitle decoders
  pub pull_sinks : S → Result S
  pub flush_encoders : S → Result S
  pub flush_copy_bsfs : S → Result S
  pub trailer : ℕ → S → Option AvError × S  -- av_write_trailer

module _ {S : Type 0} (job : Job S) where
  -- A packet past every window of its input.
  unfoldable pub is_late : ℕ → Packet → Bool
  is_late i pkt =
      not (job.cutoff i ==ℤ int64_max)
      && (is_set (decoded_at pkt)
          && ltb_ℤ (job.cutoff i)
              (job.units.rescale_q (decoded_at pkt) (job.base_of i pkt) time_base_q))

  -- What is read of an input, the cutoff applied.
  abbrev pub cut_off : ℕ → Result Packet × S → Result Packet × S
  cut_off i (err code, w) = (err code, w)
  cut_off i (ok pkt, w) = if is_late i pkt then (err eof, w) else (ok pkt, w)

  unfoldable pub next_packet : ℕ → S → Result Packet × S
  next_packet i w = if job.spent i w then (err eof, w) else cut_off i (job.read i w)

  -- The AVIO of an input that was read to its end is asked whether it failed.
  abbrev pub unless_failed : Option AvError → Result S → Result S
  unless_failed none r = r
  unless_failed (some code) r = err code

  -- The end of an input: nothing was read of a spent one, so its AVIO is not asked.
  unfoldable pub end_input : ℕ → Bool → S → Result S
  end_input i spent w =
      let flushed = job.flush_decoders i w >>= job.pull_sinks in
      if spent then flushed else unless_failed (job.io_error i w) flushed

  -- A packet passes the three lanes.
  unfoldable pub route : ℕ → Packet → S → Result S
  route i pkt w = job.feed i pkt w >>= job.copy_packet i pkt >>= job.sub_packet i pkt

  abbrev pub with_flag : Bool → Result S → Result (Bool × S)
  with_flag b (err code) = err code
  with_flag b (ok w) = ok (b, w)

  -- What is done with the answer: whether the input has ended, and the state.
  unfoldable pub take_packet : ℕ → Bool → Result Packet × S → Result (Bool × S)
  take_packet i spent (ok pkt, w) = with_flag false (route i pkt w)
  take_packet i spent (err code, w) =
      if is_eof code then with_flag true (end_input i spent w) else err code

  unfoldable pub visit : ℕ → S → Result (Bool × S)
  visit i w = take_packet i (job.spent i w) (next_packet i w)

  abbrev pub and_flags : Bool → Result (List Bool × ℕ × S) → Result (List Bool × ℕ × S)
  and_flags b (err code) = err code
  and_flags b (ok (es, n, w)) = ok (b ∷ es, n, w)

  abbrev pub counted : Bool → ℕ → ℕ
  counted ended remaining = if ended then remaining - 1 else remaining

  -- One round over the inputs from number `i` on: `eof[]`, `remaining` and the state after it.
  unfoldable pub round : ℕ → List Bool → ℕ → S → Result (List Bool × ℕ × S)
  round i [] remaining w = ok ([], remaining, w)
  round i (true ∷ es) remaining w = and_flags true (round (suc i) es remaining w)
  round i (false ∷ es) remaining w =
      visit i w >>= λ (x : Bool × S). and_flags x.0 (round (suc i) es (counted x.0 remaining) x.1)

  abbrev pub next_round :
      (List Bool → ℕ → S → Option (Result (List Bool × ℕ × S)))
      → Result (List Bool × ℕ × S)
      → Option (Result (List Bool × ℕ × S))
  next_round k (err code) = some (err code)
  next_round k (ok (es, n, w)) = k es n w

  -- The demux loop, on fuel: `none` when it runs out.
  unfoldable pub demux : ℕ → List Bool → ℕ → S → Option (Result (List Bool × ℕ × S))
  demux zero es remaining w = none
  demux (suc n) es remaining w =
      if ltb 0 remaining
      then next_round (demux n) (round 0 es remaining w)
      else some (ok (es, remaining, w))

  -- The trailers from output `j` on: all are written, and the first error is the answer.
  abbrev pub first_error : Option AvError → Option AvError → Option AvError
  first_error none code = code
  first_error (some code) _ = some code

  unfoldable pub write_trailers : ℕ → ℕ → Option AvError → S → Option AvError × S
  write_trailers zero j rc w = (rc, w)
  write_trailers (suc n) j rc w =
      let (tr, w') = job.trailer j w in write_trailers n (suc j) (first_error rc tr) w'

  abbrev pub closed_by : Option AvError × S → Result S
  closed_by (none, w) = ok w
  closed_by (some code, w) = err code

  -- Behind the loop: the last frames, packets and filters, then the trailers.
  unfoldable pub finish : ℕ → S → Result S
  finish n_out w = job.pull_sinks w >>= job.flush_encoders >>= job.flush_copy_bsfs >>= λ w'.
      closed_by (write_trailers n_out 0 none w')

  abbrev pub finished : ℕ → Result (List Bool × ℕ × S) → Result S
  finished n_out (err code) = err code
  finished n_out (ok (es, n, w)) = finish n_out w

  -- The run of a job whose inputs and outputs are open, `n_in` and `n_out` of them.
  unfoldable pub run_job : ℕ → ℕ → ℕ → S → Option (Result S)
  run_job fuel n_in n_out w = Option.map (finished n_out) (demux fuel (replicate n_in false) n_in w)

-- The exit code of op_process: `malformed`, and what the job has come to.
unfoldable pub exit_code {κ} : {A : Type κ} → Bool → Result A → ℕ
exit_code malformed (err code) = if malformed then 2 else 1
exit_code malformed (ok a) = if malformed then 2 else 0
