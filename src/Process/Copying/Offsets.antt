-- ===== src/Process/Copying/Offsets.antt =====
-- src/process.c: the offset of a pair of input and output is captured once.
use ffmpeg_wasi.Base.{
  ℕ, suc, ◌≡◌, refl, sym, ap, ◌∙◌, Bool, true, false, ◌&&◌, List, [], ◌∷◌, Option, none, some, ◌==◌,
  if_elim, arith,
}
use ffmpeg_wasi.Base.Int.{ℤ, pos, ◌==ℤ◌}
use ffmpeg_wasi.Av.{AvError, is_eof, Rational, Result, ok, err, ◌>>=◌, IfOk, IfOk-bind, IfOk-weaken}
use ffmpeg_wasi.Process.Mux.{Packet, Stream, is_set}
use ffmpeg_wasi.Process.Window.{Window}
use ffmpeg_wasi.Process.Window.Copy.{settled}
use ffmpeg_wasi.Process.Graph.{Units, Drained}
use ffmpeg_wasi.Process.Copying.{
  Cpy, Offsets, set_offset, after_window, write_copy_pkt, next_filtered, write_filtered, result_of,
  through_filter, copy_via, copy_one, copy_packet, flush_via, flush_copy_bsfs,
}

-- Every offset that is known stays what it is.
abbrev pub Settled : Offsets → Offsets → Type 0
Settled r r' = (i o : ℕ) → is_set (r i o) ≡ true → r' i o ≡ r i o

Settled-trans : (r s t : Offsets) → Settled r s → Settled s t → Settled r t
Settled-trans r s t p q i o h = q i o (ap is_set (p i o h) ∙ h) ∙ p i o h

set_offset-Settled :
    (i o : ℕ) (t : ℤ) (r : Offsets)
    → (is_set (r i o) ≡ true → t ≡ r i o)
    → Settled r (set_offset i o t r)
set_offset-Settled i o t r p a b h =
    if_elim (λ x. x ≡ r a b) (a == i && b == o) _ _
      (λ e. here a b (ground (arith, e)) (ground (arith, e)) h) (λ e. refl)
  where
    here : (a b : ℕ) → a ≡ i → b ≡ o → is_set (r a b) ≡ true → t ≡ r a b
    here a b e f h = rw (e, f) (p (rw (sym e, sym f) h))

module _ {S : Type 0} (u : Units) (window_of : ℕ → Window)
    (write : ℕ → Stream → Packet → S → Option AvError × S)
    (filter : ℕ → Option Packet → S → Result (Drained Packet × S)) where
  abbrev Known : Offsets → Offsets × S → Type 0
  Known r x = Settled r x.0

  after_window-Settled :
      (cp : Cpy) (tb : Rational) (x : Offsets × S) (y : ℤ × Option Packet)
      → (is_set (x.0 cp.in_idx cp.out_idx) ≡ true → y.0 ≡ x.0 cp.in_idx cp.out_idx)
      → Known x.0 (after_window u window_of write filter cp tb x y).1
  unfolding after_window
  after_window-Settled cp tb (r, w) (t, none) h = set_offset-Settled cp.in_idx cp.out_idx t r h
  after_window-Settled cp tb (r, w) (t, some pkt) h = set_offset-Settled cp.in_idx cp.out_idx t r h

  write_copy_pkt-Settled :
      (cp : Cpy) (tb : Rational) (pkt : Packet) (x : Offsets × S)
      → Known x.0 (write_copy_pkt u window_of write filter cp tb pkt x).1
  unfolding write_copy_pkt
  write_copy_pkt-Settled cp tb pkt (r, w) =
      after_window-Settled cp tb (r, w) _
        (settled u.rescale_q (window_of cp.out_idx) tb (r cp.in_idx cp.out_idx) pkt)

  write_filtered-Settled :
      (cp : Cpy) (tb : Rational) (pkts : List Packet) (last : AvError) (x : Offsets × S)
      → Known x.0 (write_filtered u window_of write filter cp tb pkts last x).1
  unfolding write_filtered
  write_filtered-Settled cp tb [] last x = λ i o h. refl
  write_filtered-Settled cp tb (pkt ∷ pkts) last x =
      go _ (write_copy_pkt u window_of write filter cp tb pkt x)
        (write_copy_pkt-Settled cp tb pkt x) (λ y. write_filtered-Settled cp tb pkts last y)
    where
      go :
          (k : Offsets × S → Option AvError × (Offsets × S)) (y : Option AvError × (Offsets × S))
          → Known x.0 y.1
          → ((z : Offsets × S) → Known z.0 (k z).1)
          → Known x.0 (next_filtered u window_of write filter k y).1
      go k (none, y) p q = Settled-trans _ _ _ p (q y)
      go k (some code, y) p q = p

  result_of-Settled :
      (is_end : AvError → Bool) (r : Offsets) (y : Option AvError × (Offsets × S))
      → Known r y.1
      → IfOk (Known r) (result_of u window_of write filter is_end y)
  result_of-Settled is_end r (none, y) p = p
  result_of-Settled is_end r (some code, y) p =
      if_elim (IfOk (Known r)) (is_end code) _ _ (λ e. p) (λ e. tt)

  through_filter-Settled :
      (is_end : AvError → Bool) (cp : Cpy) (tb : Rational) (r : Offsets)
      (m : Result (Drained Packet × S))
      → IfOk (Known r) (through_filter u window_of write filter is_end cp tb r m)
  through_filter-Settled is_end cp tb r (err code) = tt
  through_filter-Settled is_end cp tb r (ok (d, w)) =
      result_of-Settled is_end r _ (write_filtered-Settled cp tb d.items d.last (r, w))

  copy_via-Settled :
      (i : ℕ) (cp : Cpy) (src : Packet) (x : Offsets × S) (b : Option Rational)
      → IfOk (Known x.0) (copy_via u window_of write filter i cp src x b)
  copy_via-Settled i cp src x none =
      result_of-Settled (λ code. false) x.0 _ (write_copy_pkt-Settled cp cp.src_tb src x)
  copy_via-Settled i cp src (r, w) (some tb) = through_filter-Settled _ cp tb r _

  flush_via-Settled :
      (i : ℕ) (cp : Cpy) (x : Offsets × S) (b : Option Rational)
      → IfOk (Known x.0) (flush_via u window_of write filter i cp x b)
  flush_via-Settled i cp x none = λ a o h. refl
  flush_via-Settled i cp (r, w) (some tb) = through_filter-Settled is_eof cp tb r _

  Known-bind :
      (r : Offsets) (m : Result (Offsets × S)) (f : Offsets × S → Result (Offsets × S))
      → IfOk (Known r) m
      → ((y : Offsets × S) → IfOk (Known y.0) (f y))
      → IfOk (Known r) (m >>= f)
  Known-bind r m f p q =
      IfOk-bind (Known r) (Known r) m f p
        (λ y k. IfOk-weaken (Known y.0) (Known r) _ (λ z l. Settled-trans r y.0 z.0 k l) (q y))

  -- Once the offset of a pair of input and output is captured, no copied packet changes it, whatever
  -- stream of the pair it belongs to, with a bitstream filter or without, and whatever the muxer and
  -- the filter answer. Where copy_packet fails, nothing is said.
  pub copy_packet-Settled :
      (in_idx : ℕ) (pkt : Packet) (i : ℕ) (cps : List Cpy) (x : Offsets × S)
      → IfOk
          (λ (y : Offsets × S). Settled x.0 y.0)
          (copy_packet u window_of write filter in_idx pkt i cps x)
  unfolding copy_packet copy_one
  copy_packet-Settled in_idx pkt i [] x = λ a o h. refl
  copy_packet-Settled in_idx pkt i (cp ∷ cps) x =
      if_elim (IfOk (Known x.0)) (cp.in_idx == in_idx && pos cp.st_idx ==ℤ pkt.stream_index) _ _
        (λ e.
          Known-bind x.0 _ _ (copy_via-Settled i cp pkt x cp.bsf)
            (λ y. copy_packet-Settled in_idx pkt (suc i) cps y))
        (λ e. copy_packet-Settled in_idx pkt (suc i) cps x)

  pub flush_copy_bsfs-Settled :
      (i : ℕ) (cps : List Cpy) (x : Offsets × S)
      → IfOk
          (λ (y : Offsets × S). Settled x.0 y.0)
          (flush_copy_bsfs u window_of write filter i cps x)
  unfolding flush_copy_bsfs
  flush_copy_bsfs-Settled i [] x = λ a o h. refl
  flush_copy_bsfs-Settled i (cp ∷ cps) x =
      Known-bind x.0 _ _ (flush_via-Settled i cp x cp.bsf)
        (λ y. flush_copy_bsfs-Settled (suc i) cps y)
