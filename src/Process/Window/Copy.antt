-- ===== src/Process/Window/Copy.antt =====
-- src/process.c: the packets of one copied pair of input and output, in the order in which they come.
use ffmpeg_wasi.Base.{
  ◌≡◌, refl, sym, ap, ◌∙◌, true, false, not, List, [], ◌∷◌, Option, none, some, if_elim, if_false,
  ◌&&◌, if◌then◌else◌, arith,
}
use ffmpeg_wasi.Base.Int.{ℤ, pos, leb_ℤ, int64_max}
use ffmpeg_wasi.Av.{Rational}
use ffmpeg_wasi.Process.Timestamps.{nopts, ts_add, ts_sub}
use ffmpeg_wasi.Process.Mux.{Packet, is_set, time_base_q}
use ffmpeg_wasi.Process.Window.{Window, decoded_at, captured, cut_packet, copy_cutoff, copy_window}

abbrev pub keep : Option Packet → List Packet → List Packet
keep none ps = ps
keep (some p) ps = p ∷ ps

module _ (rescale : ℤ → Rational → Rational → ℤ) (out : Window) (tb : Rational) where
  -- The pair's offset after the packets, and those that go on.
  unfoldable pub copy_run : ℤ → List Packet → ℤ × List Packet
  copy_run r [] = (r, [])
  copy_run r (p ∷ ps) =
      let (r1, o) = copy_window rescale out tb r p in
      let (r2, os) = copy_run r1 ps in (r2, keep o os)

  -- Where the window of the output ends on the source's timeline, in microseconds, for the offset `r`.
  abbrev pub closes_at : ℤ → ℤ
  closes_at r =
      if out.duration.is_positive
      then ts_add r out.duration.micros
      else if not out.end.is_positive
      then int64_max
      else if out.copy_ts
      then ts_add (pos 0) out.end.micros
      else ts_add r out.end.micros

  abbrev pub earlier_by : ℤ → ℤ → ℤ
  earlier_by off t = if is_set t then ts_sub t off else t

  -- What becomes of one packet.
  abbrev pub carried : ℤ → Packet → Option Packet
  carried r p =
      if not (is_set p.pts) && not (is_set p.dts)
      then some p
      else if leb_ℤ (closes_at r) (rescale (if is_set p.dts then p.dts else p.pts) tb time_base_q)
      then none
      else if out.copy_ts
      then some p
      else some (record p {
        pts = earlier_by (rescale r time_base_q tb) p.pts;
        dts = earlier_by (rescale r time_base_q tb) p.dts;
      })

  -- The packets that a fixed offset lets through, each taken by itself.
  abbrev pub windowed : ℤ → List Packet → List Packet
  windowed r [] = []
  windowed r (p ∷ ps) = keep (carried r p) (windowed r ps)

  copy_window-carried :
      (r : ℤ) (p : Packet) → is_set r ≡ true → (copy_window rescale out tb r p).1 ≡ carried r p
  unfolding copy_window captured cut_packet copy_cutoff
  copy_window-carried r p h = ground (arith, h)

  captured-settled : (r : ℤ) (p : Packet) → is_set r ≡ true → captured rescale tb r p ≡ r
  unfolding captured
  captured-settled r p h = ground (arith, h)

  pub settled : (r : ℤ) (p : Packet) → is_set r ≡ true → (copy_window rescale out tb r p).0 ≡ r
  unfolding copy_window
  settled r p h =
      if_elim (λ (x : ℤ × Option Packet). x.0 ≡ r) (not (is_set (decoded_at p))) _ _ (λ e. refl)
        (λ e. captured-settled r p h)

  copy_run-settled :
      (r : ℤ) (ps : List Packet) → is_set r ≡ true → copy_run r ps ≡ (r, windowed r ps)
  unfolding copy_run
  copy_run-settled r [] h = refl
  copy_run-settled r (p ∷ ps) h =
      ap (λ x. ((copy_run x ps).0, keep (copy_window rescale out tb r p).1 (copy_run x ps).1))
        (settled r p h)
      ∙ ap (λ x. ((copy_run r ps).0, keep x (copy_run r ps).1)) (copy_window-carried r p h)
      ∙ ap (λ (x : ℤ × List Packet). (x.0, keep (carried r p) x.1)) (copy_run-settled r ps h)

  captured-first :
      (p : Packet)
      → is_set p.pts ≡ true
      → captured rescale tb nopts p ≡ rescale p.pts tb time_base_q
  unfolding captured
  captured-first p h = ground (arith, h)

  first_packet :
      (p : Packet)
      → is_set p.pts ≡ true
      → is_set (rescale p.pts tb time_base_q) ≡ true
      → copy_window rescale out tb nopts p
        ≡ copy_window rescale out tb (rescale p.pts tb time_base_q) p
  unfolding copy_window
  first_packet p h k =
      if_false {b = not (is_set (decoded_at p))} _ _ (timed p h)
      ∙ ap (λ r. (r, cut_packet rescale out tb r p))
          (captured-first p h ∙ sym (captured-settled (rescale p.pts tb time_base_q) p k))
      ∙ sym (if_false {b = not (is_set (decoded_at p))} _ _ (timed p h))
    where
      timed : (p : Packet) → is_set p.pts ≡ true → not (is_set (decoded_at p)) ≡ false
      timed p h = ground (arith, h)

  -- From the first packet on, which has a pts that av_rescale_q does not make AV_NOPTS_VALUE, the
  -- offset of the pair stays that packet's pts in microseconds, and each packet of the stream is taken
  -- by itself, whatever came before it: one without a timestamp goes on as it is; one that is decoded at
  -- the end of the window, as counted from the offset, or past it is dropped; and any other goes on with
  -- its pts and its dts earlier by the offset, with saturation, or as it is where the output keeps the
  -- timestamps.
  pub copy_run-windowed :
      (p : Packet) (ps : List Packet)
      → is_set p.pts ≡ true
      → is_set (rescale p.pts tb time_base_q) ≡ true
      → copy_run nopts (p ∷ ps)
        ≡ (rescale p.pts tb time_base_q, windowed (rescale p.pts tb time_base_q) (p ∷ ps))
  unfolding copy_run
  copy_run-windowed p ps h k =
      ap (λ (x : ℤ × Option Packet). ((copy_run x.0 ps).0, keep x.1 (copy_run x.0 ps).1))
        (first_packet p h k)
      ∙ copy_run-settled (rescale p.pts tb time_base_q) (p ∷ ps) k
