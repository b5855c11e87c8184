-- ===== src/Process/Graph/Encode.antt =====
-- src/process.c: drain_encoder, which encodes one frame, or flushes, and writes the packets that
-- come out. `encode` sends the frame and then receives packets until a call fails; `write` is pmux
-- with av_interleaved_write_frame. The state S is the one of libav's objects.
use ffmpeg_wasi.Base.{
  ℕ, ◌≡◌, ◌⊎◌, subst, refl, sym, ap, ◌∙◌, inl, inr, Bool, true, false, not, ◌&&◌, List, [], ◌∷◌,
  Option, ltb, if◌then◌else◌, if_true, if_false, Bool-cases, arith,
}
use mathlib.Core.Option
use ffmpeg_wasi.Base.Int.{ℤ, pos, ◌+ℤ◌, leb_ℤ, ◌==ℤ◌, int64_max}
use ffmpeg_wasi.Av.{AvError, audio, eq_type, Result, ok, err, ◌>>=◌}
use ffmpeg_wasi.Process.Timestamps.{ts_add}
use ffmpeg_wasi.Process.Mux.{Packet, Stream, is_set, time_base_q}
use ffmpeg_wasi.Process.Window.{Window, job_seek_offset_us, out_cutoff_us}
use ffmpeg_wasi.Process.Graph.{Frame, GOut, Units, Drained, ended}
use ffmpeg_wasi.Process.Graph.Push.{is_positive}

-- AV_PICTURE_TYPE_NONE
abbrev pub picture_type_none : ℕ
picture_type_none = 0

-- The job's offset: the first seek position of an input that is sought, 0 if none is.
abbrev pub IsFirstSeek : List ℤ → ℤ → Type 0
IsFirstSeek [] off = off ≡ pos 0
IsFirstSeek (s ∷ ss) off =
    ((is_set s ≡ true) × (off ≡ s)) ⊎ ((is_set s ≡ false) × IsFirstSeek ss off)

job_seek_offset_us-IsFirstSeek : (ss : List ℤ) → IsFirstSeek ss (job_seek_offset_us ss)
unfolding job_seek_offset_us
job_seek_offset_us-IsFirstSeek [] = refl
job_seek_offset_us-IsFirstSeek (s ∷ ss) = elim (Bool-cases (is_set s)) [
  | inl e ↦ inl (e, if_true _ _ e)
  | inr e ↦
      inr (e, subst (IsFirstSeek ss) (sym (if_false _ _ e)) (job_seek_offset_us-IsFirstSeek ss))
]

module _ (u : Units) (seeks : List ℤ) (out : Window) (g : GOut) where
  -- The offset that brings a packet back to the source's timeline.
  unfoldable pub restored : Packet → Packet
  unfolding job_seek_offset_us
  restored pkt =
      let off = u.rescale_q (job_seek_offset_us seeks) time_base_q g.enc.time_base in
      if out.copy_ts
      then record pkt {
        pts = if is_set pkt.pts then ts_add pkt.pts off else pkt.pts;
        dts = if is_set pkt.dts then ts_add pkt.dts off else pkt.dts;
      }
      else pkt

  -- Whether a packet lies past the output's window.
  unfoldable pub is_past : Packet → Bool
  unfolding out_cutoff_us
  is_past pkt =
      let cutoff = out_cutoff_us seeks out in
      not (cutoff ==ℤ int64_max)
      && (is_set pkt.pts && leb_ℤ cutoff (u.rescale_q pkt.pts g.enc.time_base time_base_q))

  -- The duration of a packet that the encoder gave none.
  unfoldable pub derived_duration : Packet → ℤ
  derived_duration pkt =
      if is_positive g.enc.framerate
      then u.rescale_q (pos 1) (u.inv_q g.enc.framerate) g.enc.time_base
      else if eq_type g.enc.codec_type audio && ltb 0 g.enc.frame_size
      then u.rescale_q (pos g.enc.frame_size) (record { num = 1; den = g.enc.sample_rate })
          g.enc.time_base
      else pkt.duration

  unfoldable pub with_duration : Packet → Packet
  unfolding derived_duration
  with_duration pkt =
      if leb_ℤ pkt.duration (pos 0) then record pkt { duration = derived_duration pkt } else pkt

  -- The packet as the muxer of the output takes it.
  abbrev pub addressed : Packet → Packet
  addressed pkt = record (u.packet_rescale_ts (with_duration pkt) g.enc.time_base g.ost.time_base) {
    stream_index = g.ost.index;
  }

  module _ {S : Type 0} (write : Stream → Packet → S → Result S) where
    -- The loop over the packets that come out of the encoder.
    unfoldable pub drain_loop : List Packet → AvError → S → Result S
    drain_loop [] last w = ended last w
    drain_loop (pkt ∷ pkts) last w =
        let rest = drain_loop pkts last in
        if is_past (restored pkt) then rest w else write g.ost (addressed (restored pkt)) w >>= rest

    unfoldable pub drain_encoder :
        (Option Frame → S → Result (Drained Packet × S)) → Option Frame → S → Result S
    drain_encoder encode frame w =
        encode (Option.map (λ (f : Frame). record f { pict_type = picture_type_none }) frame) w
        >>= λ (x : Drained Packet × S). drain_loop x.0.items x.0.last x.1

  -- Where the output's window ends, in microseconds; INT64_MAX for no end.
  abbrev pub end_at : ℤ → ℤ
  end_at off =
      if out.duration.is_positive
      then (if out.copy_ts then off else pos 0) +ℤ out.duration.micros
      else if out.end.is_positive
      then out.end.micros
      else int64_max

  -- A packet on the timeline of the output.
  abbrev pub moved : ℤ → Packet → Packet
  moved off pkt =
      let by = u.rescale_q off time_base_q g.enc.time_base in
      if out.copy_ts
      then record pkt {
        pts = if is_set pkt.pts then ts_add pkt.pts by else pkt.pts;
        dts = if is_set pkt.dts then ts_add pkt.dts by else pkt.dts;
      }
      else pkt

  abbrev pub lies_past : ℤ → Packet → Bool
  lies_past end pkt =
      not (end ==ℤ int64_max)
      && (is_set pkt.pts && leb_ℤ end (u.rescale_q pkt.pts g.enc.time_base time_base_q))

  -- The encoder's own duration, or else that of one frame at its frame rate, or else that of the
  -- samples of one audio frame.
  abbrev pub lasts : Packet → ℤ
  lasts pkt =
      if not (leb_ℤ pkt.duration (pos 0))
      then pkt.duration
      else if ltb 0 g.enc.framerate.num && ltb 0 g.enc.framerate.den
      then u.rescale_q (pos 1) (u.inv_q g.enc.framerate) g.enc.time_base
      else if eq_type g.enc.codec_type audio && ltb 0 g.enc.frame_size
      then u.rescale_q (pos g.enc.frame_size) (record { num = 1; den = g.enc.sample_rate })
          g.enc.time_base
      else pkt.duration

  -- The packet in the time base and under the index of the output's stream.
  abbrev pub muxed : Packet → Packet
  muxed pkt =
      record (u.packet_rescale_ts (record pkt { duration = lasts pkt }) g.enc.time_base
        g.ost.time_base) { stream_index = g.ost.index }

  -- The packets of a list that lie inside the window, as the muxer takes them.
  abbrev pub inside : ℤ → List Packet → List Packet
  inside off [] = []
  inside off (pkt ∷ pkts) =
      if lies_past (end_at off) (moved off pkt)
      then inside off pkts
      else muxed (moved off pkt) ∷ inside off pkts

  restored-moved : (pkt : Packet) → restored pkt ≡ moved (job_seek_offset_us seeks) pkt
  unfolding restored
  restored-moved pkt = refl

  is_past-lies_past :
      (pkt : Packet) → is_past pkt ≡ lies_past (end_at (job_seek_offset_us seeks)) pkt
  unfolding is_past
  is_past-lies_past pkt = refl

  with_duration-lasts : (pkt : Packet) → with_duration pkt ≡ record pkt { duration = lasts pkt }
  unfolding with_duration
  with_duration-lasts pkt = ground arith

  module _ {S : Type 0} (write : Stream → Packet → S → Result S) where
    abbrev pub write_all : List Packet → S → Result S
    write_all [] w = ok w
    write_all (pkt ∷ pkts) w = write g.ost pkt w >>= write_all pkts

    and_then :
        (f h k : S → Result S) (m : Result S)
        → ((x : S) → f x ≡ (h x >>= k))
        → (m >>= f) ≡ (m >>= h >>= k)
    and_then f h k (err code) e = refl
    and_then f h k (ok x) e = e x

    drain_loop-inside_at :
        (pkts : List Packet) (last : AvError) (w : S)
        → drain_loop write pkts last w
          ≡ (write_all (inside (job_seek_offset_us seeks) pkts) w >>= ended last)
    unfolding drain_loop
    drain_loop-inside_at [] last w = refl
    drain_loop-inside_at (pkt ∷ pkts) last w =
        elim (Bool-cases (lies_past (end_at off) (moved off pkt))) [
          | inl p ↦
              if_true _ _ (past ∙ p)
              ∙ drain_loop-inside_at pkts last w
              ∙ ap (λ x. write_all x w >>= ended last) (sym (if_true _ _ p))
          | inr p ↦
              if_false _ _ (past ∙ p)
              ∙ ap (λ x. write g.ost x w >>= drain_loop write pkts last) taken
              ∙ and_then _ _ _ (write g.ost (muxed (moved off pkt)) w)
                  (drain_loop-inside_at pkts last)
              ∙ ap (λ x. write_all x w >>= ended last) (sym (if_false _ _ p))
        ]
      where
        off : ℤ
        off = job_seek_offset_us seeks

        past : is_past (restored pkt) ≡ lies_past (end_at off) (moved off pkt)
        past = is_past-lies_past (restored pkt) ∙ ap (lies_past (end_at off)) (restored-moved pkt)

        taken : addressed (restored pkt) ≡ muxed (moved off pkt)
        taken =
            ap addressed (restored-moved pkt)
            ∙ ap
                (λ p. record (u.packet_rescale_ts p g.enc.time_base g.ost.time_base) {
                  stream_index = g.ost.index;
                })
                (with_duration-lasts (moved off pkt))

    -- A drain of the encoder writes exactly the packets whose pts, on the timeline of the output and in
    -- microseconds, lies before the end of the output's window, if it has one, in the order in which
    -- they come out: moved by the job's seek offset where the output keeps the source's timestamps, with
    -- the duration filled in where the encoder gave none, and in the time base and under the index of
    -- the output's stream. It fails with the first error of the muxer, or else with the code that ends
    -- the drain, if that is neither EAGAIN nor AVERROR_EOF.
    pub drain_loop-inside :
        (pkts : List Packet) (last : AvError) (w : S)
        → (off : ℤ) × IsFirstSeek seeks off
          × (drain_loop write pkts last w ≡ (write_all (inside off pkts) w >>= ended last))
    drain_loop-inside pkts last w = (
      job_seek_offset_us seeks,
      job_seek_offset_us-IsFirstSeek seeks,
      drain_loop-inside_at pkts last w,
    )
