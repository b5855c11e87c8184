-- ===== src/Process/Tests.antt =====
-- Concrete jobs for src/process.c.
use ffmpeg_wasi.Base.{
  ℕ, zero, suc, subst, ◌≡◌, ◌↔◌, ◌⊎◌, refl, true, false, List, [], ◌∷◌, none, some, get_elem?, any,
  All, arith,
}
use ffmpeg_wasi.Base.Int.{ℤ, pos, ◌+ℤ◌, ◌-ℤ◌, ◌≤ℤ◌, ◌<ℤ◌, int64_max, IsInt64}
use ffmpeg_wasi.Base.Text.{codes}
use ffmpeg_wasi.Av.{
  IfOk, Rational, MediaType, unknown, video, audio, data_stream, subtitle, attachment, Result, ok,
  err, stream_not_found,
}
use ffmpeg_wasi.Process.Timestamps.{nopts}
use ffmpeg_wasi.Process.Mux.{Packet, Format, Stream}
use ffmpeg_wasi.Process.Mux.Sequence.{mux_all, fresh_last_dts, dts_of, Rises, mux_all-Rises}
use ffmpeg_wasi.Process.MapSpec.{parse_map_stream}
use ffmpeg_wasi.Process.MapSpec.Grammar.{IsMapEntry, parse_map_stream_iff}
use ffmpeg_wasi.Process.Window.{
  Window, seek_base, sub_cutoff, sub_window, chapter_window, in_cutoff_us, av_time_base,
}
use ffmpeg_wasi.Process.Window.Subtitle.{origin, shown_from, shown_until, sub_window-exact}
use ffmpeg_wasi.Process.Window.Copy.{copy_run, windowed, copy_run-windowed}
use ffmpeg_wasi.Process.Window.Chapter.{chapter_window-exact}
use ffmpeg_wasi.Process.Window.Demux.{is_unbounded, ends_at, in_cutoff_us-covers}
use ffmpeg_wasi.Process.Lanes.{Output, no_tables, add_copy_descriptors}
use ffmpeg_wasi.Process.Lanes.Valid.{Filled, add_copy_descriptors-IsFilled}

abbrev strict : Format
strict = record { no_timestamps = false; ts_nonstrict = false }

-- A packet whose dts is past its pts.
abbrev late : Packet
late = record { pts = pos 10; dts = pos 12; duration = pos 1; size = pos 100; stream_index = pos 0 }

abbrev ost : Stream
ost = record { index = pos 0; codec_type = video; time_base = record { num = 1; den = 25 } }

mux_all-Rises_example :
    Rises strict nopts (dts_of 0 (mux_all strict fresh_last_dts ((ost, late) ∷ (ost, late) ∷ [])))
mux_all-Rises_example = mux_all-Rises strict 0 ((ost, late) ∷ (ost, late) ∷ []) refl (
  (omega arith, omega arith, refl, omega arith, refl),
  ((omega arith, omega arith, refl, omega arith, refl), tt),
)

parse_map_stream_iff_example :
    (parse_map_stream (codes "1:a:2") ≡ some (record { input = 1; type = audio; sel = some 2 }))
    ↔ IsMapEntry (codes "1:a:2") (record { input = 1; type = audio; sel = some 2 })
parse_map_stream_iff_example =
    parse_map_stream_iff (codes "1:a:2") (record { input = 1; type = audio; sel = some 2 })

abbrev streams : List MediaType
streams = video ∷ audio ∷ subtitle ∷ audio ∷ []

-- Two seconds, from a seek to ten.
abbrev window : Window
window = record {
  duration = record { is_positive = true; micros = pos 2000000 };
  end = record { is_positive = false; micros = pos 0 };
  copy_ts = false;
}

sub_window-exact_example :
    let seek0 : ℤ = seek_base (pos 10000000) in
    let cutoff : ℤ = sub_cutoff seek0 window in
    let f : ℤ = shown_from seek0 (pos 9500000) in
    let u : ℤ = shown_until cutoff (pos 9500000 +ℤ pos 4000000) in
    ((sub_window window (pos 10000000) (pos 9500000) (pos 4000000) ≡ none)
      × ((cutoff ≤ℤ pos 9500000)
          ⊎ ((u ≤ℤ f) × ((cutoff <ℤ pos 9500000 +ℤ pos 4000000) ⊎ (pos 9500000 <ℤ seek0)))))
    ⊎ ((sub_window window (pos 10000000) (pos 9500000) (pos 4000000)
          ≡ some (f -ℤ origin false seek0, u -ℤ f))
        × (pos 9500000 <ℤ cutoff)
        × ((f <ℤ u) ⊎ ((f ≡ pos 9500000) × (u ≡ pos 9500000 +ℤ pos 4000000))))
sub_window-exact_example =
    sub_window-exact window (pos 10000000) (pos 9500000) (pos 4000000) (omega arith) (omega arith)
      (omega arith) (omega arith) (λ e. cc)

chapter_window-exact_example :
    let z : ℤ = origin false (pos 10) in
    ((chapter_window (pos 10) (pos 30) false (pos 5) (pos 40) ≡ none)
      × ((pos 30 ≤ℤ pos 5) ⊎ (pos 40 ≤ℤ pos 10)))
    ⊎ ((chapter_window (pos 10) (pos 30) false (pos 5) (pos 40)
          ≡ some (shown_from (pos 10) (pos 5) -ℤ z, shown_until (pos 30) (pos 40) -ℤ z))
        × (shown_from (pos 10) (pos 5) <ℤ shown_until (pos 30) (pos 40)))
chapter_window-exact_example =
    chapter_window-exact (pos 10) (pos 30) false (pos 5) (pos 40) (omega arith) (omega arith)

in_cutoff_us-covers_example :
    ((any is_unbounded (window ∷ []) ≡ true)
      × (in_cutoff_us (pos 10000000) (window ∷ []) ≡ int64_max))
    ⊎ ((any is_unbounded (window ∷ []) ≡ false)
        × IsInt64 (in_cutoff_us (pos 10000000) (window ∷ []))
        × All
            (λ o.
              IsInt64 (ends_at (pos 10000000) o)
              × (ends_at (pos 10000000) o +ℤ av_time_base
                  ≤ℤ in_cutoff_us (pos 10000000) (window ∷ [])))
            (window ∷ []))
in_cutoff_us-covers_example =
    in_cutoff_us-covers (pos 10000000) (window ∷ []) (omega arith) ((omega arith), tt)

-- One input with three streams; its video copied, its subtitles transcoded.
abbrev one_input : List MediaType
one_input = video ∷ audio ∷ subtitle ∷ []

abbrev job : List Output
job =
    record {
      vcodec = some (codes "copy");
      acodec = none;
      scodec = some (codes "mov_text");
      map = some (codes "0:v") ∷ some (codes "0:2") ∷ [];
    }
    ∷ []

abbrev best_in : ℕ → MediaType → Result ℕ
best_in zero video = ok 0
best_in _ _ = err stream_not_found

best_in_lem :
    (i k : ℕ) (t : MediaType) (ts : List MediaType)
    → get_elem? (one_input ∷ []) i ≡ some ts
    → best_in i t ≡ ok k
    → get_elem? ts k ≡ some t
best_in_lem zero k video ts g e =
    let p : one_input ≡ ts = cc in
    let q : 0 ≡ k = cc in
    subst (λ x. get_elem? x k ≡ some video) p
      (subst (λ x. get_elem? one_input x ≡ some video) q refl)
best_in_lem zero k unknown ts g e = absurd (cc)
best_in_lem zero k audio ts g e = absurd (cc)
best_in_lem zero k data_stream ts g e = absurd (cc)
best_in_lem zero k subtitle ts g e = absurd (cc)
best_in_lem zero k attachment ts g e = absurd (cc)
best_in_lem (suc i) k t ts g e = absurd (cc)

add_copy_descriptors-IsFilled_example :
    IfOk
      (Filled job one_input [] best_in best_in_lem)
      (add_copy_descriptors best_in (one_input ∷ []) 0 job no_tables)
add_copy_descriptors-IsFilled_example =
    add_copy_descriptors-IsFilled job one_input [] best_in best_in_lem

-- Time bases that are microseconds already.
abbrev same_base : ℤ → Rational → Rational → ℤ
same_base t a b = t

abbrev micros : Rational
micros = record { num = 1; den = 1000000 }

abbrev past_window : Packet
past_window = record late { pts = pos 2000010; dts = pos 2000010 }

copy_run-windowed_example :
    copy_run same_base window micros nopts (late ∷ past_window ∷ [])
    ≡ (pos 10, windowed same_base window micros (pos 10) (late ∷ past_window ∷ []))
copy_run-windowed_example =
    copy_run-windowed same_base window micros late (past_window ∷ []) refl refl
