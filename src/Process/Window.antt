-- ===== src/Process/Window.antt =====
-- src/process.c: the seek and output windows. job_seek_offset_us, out_cutoff_us, the early-EOF
-- thresholds of op_process, the window of write_copy_pkt, and those of write_sub_pkt and copy_chapters.
-- A window is stated in seconds by doubles that spec_seconds has checked; the model has, for each,
-- whether it is above 0 and its value as `(int64_t)(x * AV_TIME_BASE)`.
pub mod Subtitle
pub mod Demux
pub mod Chapter
pub mod Copy
pub mod Duration
use ffmpeg_wasi.Base.{
  ℕ, Bool, true, false, not, ◌&&◌, ◌||◌, List, [], ◌∷◌, Option, none, some, if◌then◌else◌,
}
use ffmpeg_wasi.Base.Int.{ℤ, pos, ◌+ℤ◌, ◌-ℤ◌, ltb_ℤ, leb_ℤ, ◌==ℤ◌, int64_max}
use ffmpeg_wasi.Av.{Rational}
use ffmpeg_wasi.Process.Timestamps.{nopts, ts_add, ts_sub}
use ffmpeg_wasi.Process.Mux.{Packet, is_set, time_base_q}

pub record Seconds : Type 0 where
  pub is_positive : Bool
  pub micros : ℤ

-- The window of an output.
pub record Window : Type 0 where
  pub duration : Seconds
  pub end : Seconds
  pub copy_ts : Bool

-- AV_TIME_BASE, in microseconds.
abbrev pub av_time_base : ℤ
av_time_base = pos 1000000

-- The `seek_us` of the inputs, in order.
unfoldable pub job_seek_offset_us : List ℤ → ℤ
job_seek_offset_us [] = pos 0
job_seek_offset_us (s ∷ ss) = let rest = job_seek_offset_us ss in if is_set s then s else rest

unfoldable pub out_cutoff_us : List ℤ → Window → ℤ
unfolding job_seek_offset_us
out_cutoff_us seeks out =
    if out.duration.is_positive
    then (if out.copy_ts then job_seek_offset_us seeks else pos 0) +ℤ out.duration.micros
    else if out.end.is_positive
    then out.end.micros
    else int64_max

-- The seek position of an input, 0 where it has none.
abbrev pub seek_base : ℤ → ℤ
seek_base seek = if is_set seek then seek else pos 0

-- Where one output's window ends on the timeline of an input that is sought to `seek`.
unfoldable pub cut_of : ℤ → Window → ℤ
cut_of seek o =
    if o.duration.is_positive
    then seek_base seek +ℤ o.duration.micros
    else (if o.copy_ts then pos 0 else seek_base seek) +ℤ o.end.micros

-- The inner loop: `none` once an output without a window is met.
unfoldable pub max_cut : ℤ → ℤ → List Window → Option ℤ
unfolding cut_of
max_cut seek m [] = some m
max_cut seek m (o ∷ os) =
    let rest = max_cut seek (if ltb_ℤ m (cut_of seek o) then cut_of seek o else m) os in
    if not o.duration.is_positive && not o.end.is_positive then none else rest

-- `in_cutoff_us` of an input.
unfoldable pub in_cutoff_us : ℤ → List Window → ℤ
unfolding max_cut
in_cutoff_us seek outs = elim (max_cut seek (pos 0) outs) [
  | none ↦ int64_max
  | some m ↦ m +ℤ av_time_base
]

-- The cutoff of the copy lane on the source's timeline.
unfoldable pub copy_cutoff : ℤ → Window → ℤ
copy_cutoff rebase out =
    if out.duration.is_positive
    then ts_add rebase out.duration.micros
    else if out.end.is_positive
    then ts_add (if out.copy_ts then pos 0 else rebase) out.end.micros
    else int64_max

abbrev pub shift : ℤ → Packet → Packet
shift off pkt = record pkt {
  pts = if is_set pkt.pts then ts_sub pkt.pts off else pkt.pts;
  dts = if is_set pkt.dts then ts_sub pkt.dts off else pkt.dts;
}

-- `anchor` and `t`: where a packet is presented, and where it is decoded.
abbrev pub anchor_of : Packet → ℤ
anchor_of pkt = if is_set pkt.pts then pkt.pts else pkt.dts

abbrev pub decoded_at : Packet → ℤ
decoded_at pkt = if is_set pkt.dts then pkt.dts else pkt.pts

-- The pair's offset, taken from the first packet with a timestamp. `rescale` is av_rescale_q.
unfoldable pub captured : (ℤ → Rational → Rational → ℤ) → Rational → ℤ → Packet → ℤ
captured rescale src_tb rebase pkt =
    if not (is_set rebase) && is_set (anchor_of pkt)
    then rescale (anchor_of pkt) src_tb time_base_q
    else rebase

-- The packet after the window and the shift, `none` if it lies past the window.
unfoldable pub cut_packet :
    (ℤ → Rational → Rational → ℤ) → Window → Rational → ℤ → Packet → Option Packet
unfolding copy_cutoff
cut_packet rescale out src_tb rebase pkt =
    if leb_ℤ (copy_cutoff rebase out) (rescale (decoded_at pkt) src_tb time_base_q)
    then none
    else if out.copy_ts
    then some pkt
    else some (shift (rescale rebase time_base_q src_tb) pkt)

-- write_copy_pkt up to the packet's duration: the pair's offset after the call, and the packet that
-- goes on.
unfoldable pub copy_window :
    (ℤ → Rational → Rational → ℤ) → Window → Rational → ℤ → Packet → ℤ × Option Packet
unfolding captured cut_packet
copy_window rescale out src_tb rebase pkt =
    if not (is_set (decoded_at pkt))
    then (rebase, some pkt)
    else (let rebase' = captured rescale src_tb rebase pkt in
        (rebase', cut_packet rescale out src_tb rebase' pkt))

-- The window of write_sub_pkt: the start and the duration of the cue in the output, `none` if it
-- is dropped. `start_us` and `dur_us` are the event's on the source timeline.
abbrev pub sub_cutoff : ℤ → Window → ℤ
sub_cutoff seek0 out =
    if out.duration.is_positive
    then seek0 +ℤ out.duration.micros
    else if out.end.is_positive
    then (if out.copy_ts then pos 0 else seek0) +ℤ out.end.micros
    else int64_max

-- The clip at the end: whether it is one, and the duration.
unfoldable pub clip_end : ℤ → ℤ → ℤ → Bool × ℤ
clip_end cutoff start_us dur_us =
    if not (cutoff ==ℤ int64_max) && ltb_ℤ cutoff (ts_add start_us dur_us)
    then (true, cutoff -ℤ start_us)
    else (false, dur_us)

-- The clip at the start: whether it is one, the start in the output, and the duration.
unfoldable pub clip_start : Bool → ℤ → ℤ → ℤ → Bool × ℤ × ℤ
clip_start copy_ts seek0 start_us dur_us =
    let out_us = if copy_ts then start_us else ts_sub start_us seek0 in
    if ltb_ℤ out_us (pos 0)
    then (true, pos 0, dur_us +ℤ out_us)
    else if copy_ts && ltb_ℤ start_us seek0
    then (true, seek0, dur_us -ℤ (seek0 -ℤ start_us))
    else (false, out_us, dur_us)

unfoldable pub sub_window : Window → ℤ → ℤ → ℤ → Option (ℤ × ℤ)
unfolding clip_end clip_start
sub_window out seek start_us dur_us =
    let seek0 = seek_base seek in
    let cutoff = sub_cutoff seek0 out in
    if leb_ℤ cutoff start_us
    then none
    else (let (at_end, dur1) = clip_end cutoff start_us dur_us in
        let (at_start, out_us, dur2) = clip_start out.copy_ts seek0 start_us dur1 in
        if (at_end || at_start) && leb_ℤ dur2 (pos 0) then none else some (out_us, dur2))

-- The window of copy_chapters: the start and the end that the copy gets, `none` if it is left out.
unfoldable pub chapter_window : ℤ → ℤ → Bool → ℤ → ℤ → Option (ℤ × ℤ)
chapter_window seek0 cutoff copy_ts start_us end_us =
    if leb_ℤ cutoff start_us
    then none
    else if leb_ℤ end_us seek0
    then none
    else (let end' = if ltb_ℤ cutoff end_us then cutoff else end_us in
        let start' = if ltb_ℤ start_us seek0 then seek0 else start_us in
        if copy_ts then some (start', end') else some (start' -ℤ seek0, end' -ℤ seek0))
