-- ===== src/Progress/Totals.antt =====
-- src/progress.c: the counters, the last record of a job, and the cases where nothing is written.
use ffmpeg_wasi.Base.{
  ◌+◌, ◌≡◌, refl, ◌∙◌, ap, Bool, true, false, ◌&&◌, List, [], ◌∷◌, ◌++◌, if◌then◌else◌, arith, All,
  count,
}
use ffmpeg_wasi.Base.Int.{ℤ, pos, ◌+ℤ◌, ltb_ℤ, leb_ℤ, max_ℤ}
use ffmpeg_wasi.Progress.Emitter.{
  Progress, Channel, progress_open, line_of, Answer, progress_emit, note_counters, progress_note,
  progress_finish, Note, run,
}

-- The bytes of the packets with a positive size, added to those so far.
abbrev pub bytes_after : ℤ → List Note → ℤ
bytes_after b [] = b
bytes_after b (n ∷ ns) = bytes_after (if ltb_ℤ (pos 0) n.pkt_size then b +ℤ n.pkt_size else b) ns

-- The furthest known output time.
abbrev pub furthest : ℤ → List Note → ℤ
furthest t [] = t
furthest t (n ∷ ns) =
    furthest (if leb_ℤ (pos 0) n.out_time_us && ltb_ℤ t n.out_time_us then n.out_time_us else t) ns

-- The emitter after the calls, but for the fields that an emission sets.
abbrev pub Counted : Progress → List Note → Progress → Type 0
Counted p ns q =
    (q.frames ≡ p.frames + count (λ (n : Note). n.is_video) ns)
    × (q.total_size ≡ bytes_after p.total_size ns)
    × (q.out_time_us ≡ furthest p.out_time_us ns)
    × (q.duration_us ≡ p.duration_us)

-- An emission leaves the counters alone, so a call of progress_note does what note_counters does.
note-counters :
    (p : Progress) (ch : Channel) (v : Bool) (t s : ℤ) (a : Answer)
    → let q = (progress_note p ch v t s a).0 in
      let c = note_counters p v t s in
      (q.frames ≡ c.frames)
      × (q.total_size ≡ c.total_size)
      × (q.out_time_us ≡ c.out_time_us)
      × (q.duration_us ≡ c.duration_us)
unfolding progress_note progress_emit
note-counters p ch v t s a = ground arith

run-Counted : (ns : List Note) (p : Progress) (ch : Channel) → Counted p ns (run p ch ns).0
unfolding run
run-Counted [] p ch = (omega arith, refl, refl, refl)
run-Counted (n ∷ ns) p ch = ground (
  arith,
  note-counters p ch n.is_video n.out_time_us n.pkt_size n.answer,
  run-Counted ns (progress_note p ch n.is_video n.out_time_us n.pkt_size n.answer).0
      (progress_note p ch n.is_video n.out_time_us n.pkt_size n.answer).1,
)

abbrev pub IsGood : Note → Type 0
IsGood n = (n.answer.fits ≡ true) × (n.answer.whole ≡ true)

note-active :
    (p : Progress) (ch : Channel) (n : Note)
    → p.active ≡ true
    → IsGood n
    → (progress_note p ch n.is_video n.out_time_us n.pkt_size n.answer).0.active ≡ true
unfolding progress_note progress_emit
note-active p ch n on g = ground arith

run-active :
    (ns : List Note) (p : Progress) (ch : Channel)
    → p.active ≡ true
    → All IsGood ns
    → (run p ch ns).0.active ≡ true
unfolding run
run-active [] p ch on g = on
run-active (n ∷ ns) p ch on (g, gs) = run-active ns _ _ (note-active p ch n on g) gs

finish-last :
    (p : Progress) (ch : Channel) (a : Answer)
    → p.active ≡ true
    → a.fits ≡ true
    → a.whole ≡ true
    → (progress_finish p ch a).1 ≡ ch ++ (line_of p ∷ [])
unfolding progress_finish progress_emit
finish-last p ch a on f w = ground arith

-- With progress asked for, the bridge off, the device there and no write failing, the record that
-- progress_finish appends carries the whole job: the number of video packets, the bytes of all
-- packets, the furthest output time and the target duration (0 if it was not positive).
pub finish-Counted :
    (duration : ℤ) (ns : List Note) (a : Answer)
    → All IsGood ns
    → a.fits ≡ true
    → a.whole ≡ true
    → let (p, ch) = run (progress_open true duration false true).0 [] ns in
      (progress_finish p ch a).1
      ≡ ch
        ++ (record {
          frame = count (λ (n : Note). n.is_video) ns;
          out_time_us = furthest (pos 0) ns;
          total_size = bytes_after (pos 0) ns;
          duration_us = max_ℤ (pos 0) duration;
        }
            ∷ [])
unfolding progress_open
finish-Counted d ns a g f w =
    let p0 : Progress = (progress_open true d false true).0 in
    let c : Counted p0 ns (run p0 [] ns).0 = run-Counted ns p0 [] in
    finish-last (run p0 [] ns).0 (run p0 [] ns).1 a (run-active ns p0 [] refl g) f w
    ∙ ground (arith, c)

emit-inert :
    (p : Progress) (ch : Channel) (a : Answer) → p.active ≡ false → progress_emit p ch a ≡ (p, ch)
unfolding progress_emit
emit-inert p ch a off = ground arith

note-inert :
    (p : Progress) (ch : Channel) (n : Note)
    → p.active ≡ false
    → let (q, ch') = progress_note p ch n.is_video n.out_time_us n.pkt_size n.answer in
      (q.active ≡ false) × (ch' ≡ ch)
unfolding progress_note
note-inert p ch n off = ground arith

run-inert :
    (ns : List Note) (p : Progress) (ch : Channel)
    → p.active ≡ false
    → ((run p ch ns).0.active ≡ false) × ((run p ch ns).1 ≡ ch)
unfolding run
run-inert [] p ch off = (off, refl)
run-inert (n ∷ ns) p ch off =
    let (q, e) = note-inert p ch n off in
    let (r, e') =
      run-inert ns _ (progress_note p ch n.is_video n.out_time_us n.pkt_size n.answer).1 q in
    (r, e' ∙ e)

-- After a write that was short or failed the emitter stays silent: no later call of progress_note,
-- nor progress_finish, appends to the half line that the channel then holds.
pub short_write-silent :
    (p : Progress) (ch : Channel) (a b : Answer) (ns : List Note)
    → p.active ≡ true
    → a.fits ≡ true
    → a.whole ≡ false
    → let (q, ch') = progress_emit p ch a in
      let (r, ch'') = run q ch' ns in (ch'' ≡ ch) × (progress_finish r ch'' b ≡ (r, ch))
unfolding progress_emit progress_finish
short_write-silent p ch a b ns on f short =
    let (r, e) = run-inert ns (record p { active = false }) ch refl in
    ground (
      arith,
      r,
      e,
      emit-inert (run (record p { active = false }) ch ns).0
          (run (record p { active = false }) ch ns).1 b,
    )

-- With the native bridge active, open() is never called and nothing is ever written, whatever the
-- job asks for.
pub bridged-silent :
    (enabled : Bool) (duration : ℤ) (opened : Bool) (ns : List Note) (a : Answer)
    → let (p, called) = progress_open enabled duration true opened in
      let (q, ch) = run p [] ns in (called ≡ false) × (ch ≡ []) × ((progress_finish q ch a).1 ≡ [])
unfolding progress_open progress_finish
bridged-silent e d o ns a =
    let p : Progress = (progress_open e d true o).0 in
    let off : p.active ≡ false = ground arith in
    let (r, c) = run-inert ns p [] off in
    (ground arith, c, ap (λ (s : Progress × Channel). s.1) (emit-inert _ _ a r) ∙ c)
