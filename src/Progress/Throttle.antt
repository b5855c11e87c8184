-- ===== src/Progress/Throttle.antt =====
-- src/progress.c: what the host sees on the channel over a whole job.
use ffmpeg_wasi.Base.{◌≤◌, ◌≡◌, refl, Bool, true, false, not, List, [], ◌∷◌, ◌++◌, arith, if_elim}
use ffmpeg_wasi.Base.Int.{ℤ, ◌+ℤ◌, ◌≤ℤ◌, +ℤ_parts, -ℤ_parts}
use ffmpeg_wasi.Progress.Emitter.{
  Line, Progress, Channel, emit_interval_us, progress_open, line_of, Answer, progress_emit,
  note_counters, is_due, progress_note, Note, run,
}

-- `x` may stand directly before `y` on the channel.
pub record Follows (x y : Line) : Type 0 where
  pub spaced : x.out_time_us +ℤ emit_interval_us ≤ℤ y.out_time_us
  pub frames_grow : x.frame ≤ y.frame
  pub size_grows : x.total_size ≤ℤ y.total_size

-- Each record follows the one before it.
abbrev pub IsThrottled : Channel → Type 0
IsThrottled [] = Unit {0}
IsThrottled (x ∷ []) = Unit {0}
IsThrottled (x ∷ y ∷ r) = Follows x y × IsThrottled (y ∷ r)

-- What the emitter remembers of the last record.
abbrev Remembers : Progress → Channel → Type 0
Remembers p [] = p.emitted ≡ false
Remembers p (x ∷ []) =
    (p.emitted ≡ true)
    × (x.out_time_us ≡ p.last_emit_us)
    × (x.frame ≤ p.frames)
    × (x.total_size ≤ℤ p.total_size)
Remembers p (x ∷ y ∷ r) = Remembers p (y ∷ r)

append-IsThrottled :
    (p : Progress) (ch : Channel)
    → IsThrottled ch
    → Remembers p ch
    → is_due p ≡ true
    → IsThrottled (ch ++ (line_of p ∷ []))
append-IsThrottled p [] t m d = tt
append-IsThrottled p (x ∷ []) t m d = (
  ground (arith, +ℤ_parts x.out_time_us emit_interval_us, -ℤ_parts p.out_time_us p.last_emit_us),
  tt,
)
append-IsThrottled p (x ∷ y ∷ r) (f, t) m d = (f, append-IsThrottled p (y ∷ r) t m d)

append-Remembers :
    (p : Progress) (ch : Channel)
    → Remembers (record p { emitted = true; last_emit_us = p.out_time_us }) (ch ++ (line_of p ∷ []))
append-Remembers p [] = (refl, refl, omega arith, omega arith)
append-Remembers p (x ∷ []) = (refl, refl, omega arith, omega arith)
append-Remembers p (x ∷ y ∷ r) = append-Remembers p (y ∷ r)

Remembers-note_counters :
    (p : Progress) (ch : Channel) (v : Bool) (t s : ℤ)
    → Remembers p ch
    → Remembers (note_counters p v t s) ch
Remembers-note_counters p [] v t s m = m
Remembers-note_counters p (x ∷ []) v t s m = ground (arith, +ℤ_parts p.total_size s)
Remembers-note_counters p (x ∷ y ∷ r) v t s m = Remembers-note_counters p (y ∷ r) v t s m

Remembers-inert :
    (p : Progress) (ch : Channel) → Remembers p ch → Remembers (record p { active = false }) ch
Remembers-inert p [] m = m
Remembers-inert p (x ∷ []) m = m
Remembers-inert p (x ∷ y ∷ r) m = Remembers-inert p (y ∷ r) m

record Inv (s : Progress × Channel) : Type 0 where
  throttled : IsThrottled s.1
  remembered : Remembers s.0 s.1

emit-Inv :
    (p : Progress) (ch : Channel) (a : Answer)
    → Inv (p, ch)
    → is_due p ≡ true
    → Inv (progress_emit p ch a)
unfolding progress_emit
emit-Inv p ch a i d = ground (
  arith,
  append-IsThrottled p ch i.throttled i.remembered d,
  append-Remembers p ch,
  Remembers-inert p ch i.remembered,
)

note-Inv :
    (p : Progress) (ch : Channel) (v : Bool) (t s : ℤ) (a : Answer)
    → Inv (p, ch)
    → Inv (progress_note p ch v t s a)
unfolding progress_note
note-Inv p ch v t s a i =
    if_elim Inv (not q.active) _ _ (λ _. j)
      λ _. if_elim Inv (is_due q) _ _ (emit-Inv q ch a j) (λ _. j)
  where
    q : Progress
    q = note_counters p v t s

    j : Inv (q, ch)
    j = record {
      throttled = i.throttled;
      remembered = Remembers-note_counters p ch v t s i.remembered;
    }

run-Inv : (ns : List Note) (p : Progress) (ch : Channel) → Inv (p, ch) → Inv (run p ch ns)
unfolding run
run-Inv [] p ch i = i
run-Inv (n ∷ ns) p ch i =
    let (q, ch') = progress_note p ch n.is_video n.out_time_us n.pkt_size n.answer in
    run-Inv ns q ch' (note-Inv p ch n.is_video n.out_time_us n.pkt_size n.answer i)

-- However the job calls progress_note and whatever the writes answer, the records written lie at
-- least 100 ms of media time apart, and their frame and byte counts never fall.
pub run-IsThrottled :
    (enabled : Bool) (duration : ℤ) (bridged opened : Bool) (ns : List Note)
    → IsThrottled (run (progress_open enabled duration bridged opened).0 [] ns).1
unfolding progress_open
run-IsThrottled e d b o ns =
    (run-Inv ns (progress_open e d b o).0 []
      (record { throttled = tt; remembered = refl })).throttled
