-- ===== src/Process/Mux.antt =====
-- src/process.c: mux_fixup_ts and pmux, which every packet passes on its way to a muxer.
pub mod Accepts
pub mod Sequence
use ffmpeg_wasi.Base.{
  ℕ, ◌≡◌, Bool, true, false, ◌&&◌, ◌||◌, not, List, [], ◌∷◌, ltb, leb, ◌==◌, get_elem?, set,
  if◌then◌else◌, Option, none, some,
}
use ffmpeg_wasi.Base.Int.{ℤ, pos, pos_part, negsuc, ltb_ℤ, leb_ℤ, ◌==ℤ◌, max_ℤ}
use ffmpeg_wasi.Av.{MediaType, video, audio, subtitle, eq_type, Rational}
use ffmpeg_wasi.Process.Timestamps.{nopts, ts_add, median3}
use ffmpeg_wasi.Progress.Emitter.{Progress, Channel, Answer, progress_note}

-- The fields of an AVPacket that the engine reads or writes.
pub record Packet : Type 0 where
  pub pts : ℤ
  pub dts : ℤ
  pub duration : ℤ
  pub size : ℤ
  pub stream_index : ℤ

-- The flags of the output format that mux_fixup_ts asks for.
pub record Format : Type 0 where
  pub no_timestamps : Bool  -- AVFMT_NOTIMESTAMPS
  pub ts_nonstrict : Bool  -- AVFMT_TS_NONSTRICT

-- An output stream: its index in the muxer, its media type and its time base.
pub record Stream : Type 0 where
  pub index : ℤ
  pub codec_type : MediaType
  pub time_base : Rational

-- MAX_GOUT, MAX_CPY, MAX_SUB and their sum MAX_MUX_STREAMS.
abbrev pub max_gout : ℕ
max_gout = 16

abbrev pub max_cpy : ℕ
max_cpy = 32

abbrev pub max_sub : ℕ
max_sub = 16

abbrev pub max_mux_streams : ℕ
max_mux_streams = 64

abbrev pub is_set : ℤ → Bool
is_set t = not (t ==ℤ nopts)

-- The first correction: a dts past its pts is guessed anew, for both.
unfoldable pub guess_order : ℤ → Packet → Packet
guess_order last pkt =
    if is_set pkt.dts && is_set pkt.pts && ltb_ℤ pkt.pts pkt.dts
    then (let m = median3 pkt.pts pkt.dts (ts_add last (pos 1)) in record pkt { pts = m; dts = m })
    else pkt

abbrev pub is_clamped_type : MediaType → Bool
is_clamped_type t = eq_type t audio || eq_type t video || eq_type t subtitle

-- `ts_add(*last, !(flags & AVFMT_TS_NONSTRICT))`: the least dts that the muxer accepts.
unfoldable pub floor_after : Format → ℤ → ℤ
floor_after fmt last = ts_add last (if fmt.ts_nonstrict then pos 0 else pos 1)

-- The second correction: a dts that does not advance is moved up.
unfoldable pub clamp_dts : Format → MediaType → ℤ → Packet → Packet
clamp_dts fmt type last pkt =
    let least = floor_after fmt last in
    if is_clamped_type type && is_set pkt.dts && is_set last && ltb_ℤ pkt.dts least
    then record pkt {
      pts = if leb_ℤ pkt.dts pkt.pts then max_ℤ pkt.pts least else pkt.pts;
      dts = least;
    }
    else pkt

unfoldable pub fixup : Format → MediaType → ℤ → Packet → Packet
fixup fmt type last pkt =
    if fmt.no_timestamps then pkt else clamp_dts fmt type last (guess_order last pkt)

-- `last_dts[i]`; the array has MAX_MUX_STREAMS entries, and the guard keeps the index inside.
abbrev pub last_at : List ℤ → ℕ → ℤ
last_at a i = elim (get_elem? a i) [ none ↦ nopts | some t ↦ t ]

-- mux_fixup_ts: the array of the output's last dts values, and the packet, after the call.
unfoldable pub mux_fixup_ts : Format → List ℤ → Stream → Packet → List ℤ × Packet
mux_fixup_ts fmt last_dts ost pkt =
    if ltb_ℤ ost.index (pos 0) || leb_ℤ (pos max_mux_streams) ost.index
    then (last_dts, pkt)
    else let i = pos_part ost.index in
      let pkt' = fixup fmt ost.codec_type (last_at last_dts i) pkt in
      (set last_dts i pkt'.dts, pkt')

-- AV_TIME_BASE_Q
abbrev pub time_base_q : Rational
time_base_q = record { num = 1; den = 1000000 }

-- pmux, up to the call of av_interleaved_write_frame, which takes the packet that is returned.
-- `rescale` is av_rescale_q; the progress state is `none` for a NULL emitter.
unfoldable pub pmux :
    (ℤ → Rational → Rational → ℤ)
    → Format
    → List ℤ
    → Option Progress
    → Channel
    → Stream
    → Packet
    → Answer
    → List ℤ × Packet × Option Progress × Channel
pmux rescale fmt last_dts prog ch ost pkt a =
    let (last_dts', pkt') = mux_fixup_ts fmt last_dts ost pkt in
    elim prog [
      | none ↦ (last_dts', pkt', none, ch)
      | some p ↦
          let ot =
            if is_set pkt'.pts then rescale pkt'.pts ost.time_base time_base_q else negsuc 0 in
          let (p', ch') = progress_note p ch (eq_type ost.codec_type video) ot pkt'.size a in
          (last_dts', pkt', some p', ch')
    ]
