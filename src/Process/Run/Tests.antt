-- ===== src/Process/Run/Tests.antt =====
-- Concrete jobs for the demux loop of src/process.c.
use ffmpeg_wasi.Base.{
  ℕ, zero, suc, ◌<◌, ◌≤◌, ◌≡◌, refl, ap, Bool, true, false, List, [], ◌∷◌, none, some, arith,
  replicate,
}
use ffmpeg_wasi.Base.Int.{pos, int64_max}
use ffmpeg_wasi.Av.{AvError, eof, Rational, Result, ok, err, IfOk}
use ffmpeg_wasi.Process.Mux.{Packet}
use ffmpeg_wasi.Process.Graph.{Units}
use ffmpeg_wasi.Process.Run.{
  write_trailers, Job, demux, run_job, finished, is_late, next_packet, route, end_input,
}
use ffmpeg_wasi.Process.Run.Machine.{IfDone, Through, demux-Steps}
use ffmpeg_wasi.Process.Run.Ended.{AllEnded, run_job_ended}
use ffmpeg_wasi.Process.Run.Trailers.{answers, written, first_of, write_trailers-first}

abbrev second : Rational
second = record { num = 1; den = 1 }

abbrev plain : Units
plain = record {
  rescale_q = λ t a b. t;
  differ = λ a b. false;
  inv_q = λ r. r;
  packet_rescale_ts = λ p a b. p;
}

abbrev packet_at : ℕ → Packet
packet_at t = record {
  pts = pos t;
  dts = pos t;
  duration = pos 1;
  size = pos 1;
  stream_index = pos 0;
}

-- A demuxer with `n` packets left.
abbrev read_down : ℕ → ℕ → Result Packet × ℕ
read_down i zero = (err eof, 0)
read_down i (suc n) = (ok (packet_at n), n)

abbrev accept : ℕ → Packet → ℕ → Result ℕ
accept i pkt n = ok n

-- A job that only reads.
abbrev reader : Job ℕ
reader = record {
  units = plain;
  spent = λ i n. false;
  read = read_down;
  cutoff = λ i. int64_max;
  base_of = λ i pkt. second;
  io_error = λ i n. none;
  feed = accept;
  copy_packet = accept;
  sub_packet = accept;
  flush_decoders = λ i n. ok n;
  pull_sinks = λ n. ok n;
  flush_encoders = λ n. ok n;
  flush_copy_bsfs = λ n. ok n;
  trailer = λ j n. (none, n);
}

demux-Steps_example :
    IfDone reader (Through reader (false ∷ false ∷ []) 3) (demux reader 9 (false ∷ false ∷ []) 2 3)
demux-Steps_example = demux-Steps reader 9 (false ∷ false ∷ []) 2 3 refl

read_down_lem : (i w w' : ℕ) (pkt : Packet) → next_packet reader i w ≡ (ok pkt, w') → w' < w
unfolding next_packet is_late
read_down_lem i zero w' pkt e = ground (arith, ap is_packet e)
  where
    is_packet : Result Packet × ℕ → Bool
    is_packet (ok p, n) = true
    is_packet (err code, n) = false
read_down_lem i (suc n) w' pkt e =
    let p : n ≡ w' = ap (λ (x : Result Packet × ℕ). x.1) e in omega (arith, p)

read_end_lem : (i w w' : ℕ) (code : AvError) → next_packet reader i w ≡ (err code, w') → w' ≤ w
unfolding next_packet is_late
read_end_lem i zero w' code e =
    let p : 0 ≡ w' = ap (λ (x : Result Packet × ℕ). x.1) e in omega (arith, p)
read_end_lem i (suc n) w' code e =
    let p : n ≡ w' = ap (λ (x : Result Packet × ℕ). x.1) e in omega (arith, p)

same_state : (w w' : ℕ) → ◌≡◌ {A = Result ℕ} (ok w) (ok w') → w' ≤ w
same_state w w' e = let p : w ≡ w' = ap state_of e in omega (arith, p)
  where
    state_of : Result ℕ → ℕ
    state_of (ok n) = n
    state_of (err code) = 0

route_lem : (i w w' : ℕ) (pkt : Packet) → route reader i pkt w ≡ ok w' → w' ≤ w
unfolding route
route_lem i w w' pkt e = same_state w w' e

end_lem : (i : ℕ) (b : Bool) (w w' : ℕ) → end_input reader i b w ≡ ok w' → w' ≤ w
unfolding end_input
end_lem i true w w' e = same_state w w' e
end_lem i false w w' e = same_state w w' e

run_job_ended_example :
    (m : Result (List Bool × ℕ × ℕ)) × (demux reader 6 (replicate 2 false) 2 3 ≡ some m)
    × IfOk (AllEnded reader (λ n. n) 2 3) m
    × (run_job reader 6 2 1 3 ≡ some (finished reader 1 m))
run_job_ended_example =
    run_job_ended reader (λ n. n) 6 2 1 3
      (read_down_lem, read_end_lem, (λ i w w' pkt e. route_lem i w w' pkt e), end_lem) (omega arith)

write_trailers-first_example :
    write_trailers reader 2 0 none 3
    ≡ (first_of reader (answers reader 2 0 3), written reader 2 0 3)
write_trailers-first_example = write_trailers-first reader 2 3
