-- ===== src/Progress/Emitter.antt =====
-- src/progress.c: the state of an emitter and its operations. The file descriptor is held as
-- whether it is open, the device as the records written to it, and what `open` and `write` answer
-- as arguments. A record that `snprintf` would truncate (the `n >= sizeof buf` return) needs more
-- than 160 bytes, and `fits` stands for that test.
use ffmpeg_wasi.Base.{
  ℕ, ◌+◌, Bool, true, false, ◌&&◌, ◌||◌, not, List, [], ◌∷◌, ◌++◌, if◌then◌else◌,
}
use ffmpeg_wasi.Base.Int.{ℤ, pos, ◌+ℤ◌, ◌-ℤ◌, ltb_ℤ, leb_ℤ}

-- One NDJSON record, by its fields.
pub record Line : Type 0 where
  pub frame : ℕ
  pub out_time_us : ℤ
  pub total_size : ℤ
  pub duration_us : ℤ

pub record Progress : Type 0 where
  pub active : Bool  -- fd >= 0
  pub out_time_us : ℤ
  pub total_size : ℤ
  pub frames : ℕ
  pub duration_us : ℤ
  pub last_emit_us : ℤ
  pub emitted : Bool

-- What the host sees: complete records, in order.
abbrev pub Channel : Type 0
Channel = List Line

-- EMIT_INTERVAL_US
abbrev pub emit_interval_us : ℤ
emit_interval_us = pos 100000

-- `bridged` is afio_bridge_active(), `opened` is what open() would answer. The second result is
-- whether open() is called at all, which creates or truncates the file.
unfoldable pub progress_open : Bool → ℤ → Bool → Bool → Progress × Bool
progress_open enabled duration_us bridged opened =
    let calls_open = enabled && not bridged in
    (
      record {
        active = calls_open && opened;
        out_time_us = pos 0;
        total_size = pos 0;
        frames = 0;
        duration_us = if ltb_ℤ (pos 0) duration_us then duration_us else pos 0;
        last_emit_us = pos 0;
        emitted = false;
      },
      calls_open,
    )

abbrev pub line_of : Progress → Line
line_of p = record {
  frame = p.frames;
  out_time_us = p.out_time_us;
  total_size = p.total_size;
  duration_us = p.duration_us;
}

-- How the environment answers one emission: whether the record fits the buffer, and whether the
-- write takes all of it. A short or failed write closes the descriptor.
pub record Answer : Type 0 where
  pub fits : Bool
  pub whole : Bool

unfoldable pub progress_emit : Progress → Channel → Answer → Progress × Channel
progress_emit p ch a =
    if not p.active
    then (p, ch)
    else if not a.fits
    then (p, ch)
    else if not a.whole
    then (record p { active = false }, ch)
    else (record p { emitted = true; last_emit_us = p.out_time_us }, ch ++ (line_of p ∷ []))

-- The three counters, before the test for an emission.
abbrev pub note_counters : Progress → Bool → ℤ → ℤ → Progress
note_counters p is_video out_time_us pkt_size = record p {
  total_size = if ltb_ℤ (pos 0) pkt_size then p.total_size +ℤ pkt_size else p.total_size;
  frames = if is_video then p.frames + 1 else p.frames;
  out_time_us =
      if leb_ℤ (pos 0) out_time_us && ltb_ℤ p.out_time_us out_time_us
      then out_time_us
      else p.out_time_us;
}

-- `!p->emitted || p->out_time_us - p->last_emit_us >= EMIT_INTERVAL_US`
abbrev pub is_due : Progress → Bool
is_due p = not p.emitted || leb_ℤ emit_interval_us (p.out_time_us -ℤ p.last_emit_us)

unfoldable pub progress_note : Progress → Channel → Bool → ℤ → ℤ → Answer → Progress × Channel
progress_note p ch is_video out_time_us pkt_size a =
    let q = note_counters p is_video out_time_us pkt_size in
    if not q.active then (q, ch) else if is_due q then progress_emit q ch a else (q, ch)

unfoldable pub progress_finish : Progress → Channel → Answer → Progress × Channel
progress_finish p ch a = progress_emit p ch a

-- One call of progress_note, with what the environment answers if it leads to a write.
pub record Note : Type 0 where
  pub is_video : Bool
  pub out_time_us : ℤ
  pub pkt_size : ℤ
  pub answer : Answer

-- The calls that pmux makes over a job, in order.
unfoldable pub run : Progress → Channel → List Note → Progress × Channel
run p ch [] = (p, ch)
run p ch (n ∷ ns) =
    let (q, ch') = progress_note p ch n.is_video n.out_time_us n.pkt_size n.answer in run q ch' ns
