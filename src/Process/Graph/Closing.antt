-- ===== src/Process/Graph/Closing.antt =====
-- src/process.c: after the flush of an input, every pad that it feeds is closed.
use ffmpeg_wasi.Base.{
  ◌||◌, ℕ, suc, ◌≡◌, refl, ap, ◌∙◌, ◌⊎◌, inl, inr, Bool, true, false, List, [], ◌∷◌, Option, none,
  some, ◌==◌, if_elim,
}
use ffmpeg_wasi.Base.Int.{ℤ}
use ffmpeg_wasi.Av.{
  AvError, is_eof, Result, ok, err, IfOk, IfOk-bind, IfOk-weaken, IfOk-any, is_eagain,
}
use ffmpeg_wasi.Process.Mux.{Packet}
use ffmpeg_wasi.Process.Graph.{Frame, GIn, Units, Drained, ended}
use ffmpeg_wasi.Process.Graph.Push.{
  Seek, seek_frame, settle, to_src_tb, push_into, push_kept, push_frame, push_frames,
}
use ffmpeg_wasi.Process.Graph.Feed.{and_pads, decode_pad, told, close_pad, flush_pads}

-- All that push_frame can change of a pad is its base, and that it is closed.
abbrev pub Kept : GIn → GIn → Type 0
Kept g h = (r : ℤ) × (b : Bool) × (h ≡ record g { rebase = r; closed = b || g.closed })

-- The pads after the flush of input `in_idx`: those it feeds are closed, the others as before.
abbrev pub Flushed : ℕ → List GIn → List GIn → Type 0
Flushed in_idx [] [] = Unit
Flushed in_idx (g ∷ gs) (h ∷ hs) =
    ((((g.in_idx == in_idx) ≡ true) × Kept g h × (h.closed ≡ true))
      ⊎ (((g.in_idx == in_idx) ≡ false) × (h ≡ g)))
    × Flushed in_idx gs hs
Flushed in_idx [] (h ∷ hs) = true ≡ false
Flushed in_idx (g ∷ gs) [] = true ≡ false

settle-Kept :
    {S : Type 0} (g : GIn) (x : Option AvError × S)
    → IfOk (λ (y : GIn × S). Kept g y.0) (settle g x)
unfolding settle
settle-Kept g (none, w) = (g.rebase, false, refl)
settle-Kept {S = S} g (some code, w) =
    if_elim (IfOk (λ (y : GIn × S). Kept g y.0)) (is_eof code) _ _ (λ e. (g.rebase, true, refl))
      (λ e. tt)

pub Kept-trans : (g h k : GIn) → Kept g h → Kept h k → Kept g k
Kept-trans g h k (r, b, p) (r', true, q) =
    (r', true, q ∙ ap (λ (x : GIn). record x { rebase = r'; closed = true }) p)
Kept-trans g h k (r, b, p) (r', false, q) =
    (r', b, q ∙ ap (λ (x : GIn). record x { rebase = r' }) p)

module _ {S : Type 0} (u : Units) (decode : ℕ → Option Packet → S → Result (Drained Frame × S))
    (add : ℕ → Option Frame → S → Option AvError × S) (seek_of : GIn → Seek) where
  abbrev pub KeptPad : GIn → GIn × S → Type 0
  KeptPad g x = Kept g x.0

  push_kept-Kept :
      (i : ℕ) (s : Seek) (g : GIn) (w : S) (o : Option (ℤ × Frame))
      → IfOk (KeptPad g) (push_kept u (λ f. add i (some f)) s g w o)
  unfolding push_kept push_into
  push_kept-Kept i s g w none = (g.rebase, false, refl)
  push_kept-Kept i s g w (some (base, f)) =
      if_elim (IfOk (KeptPad g)) g.closed _ _ (λ e. (base, false, refl))
        (λ e.
          IfOk-weaken (KeptPad (record g { rebase = base })) (KeptPad g) _ (λ x k. k)
            (settle-Kept (record g { rebase = base })
              (add i (some (to_src_tb u (record g { rebase = base }) f)) w)))

  push_frames-Kept :
      (i : ℕ) (s : Seek) (g : GIn) (fs : List Frame) (w : S)
      → IfOk (KeptPad g) (push_frames u (λ f. add i (some f)) s g fs w)
  unfolding push_frames push_frame
  push_frames-Kept i s g [] w = (g.rebase, false, refl)
  push_frames-Kept i s g (f ∷ fs) w =
      IfOk-bind (KeptPad g) (KeptPad g) _ _ (push_kept-Kept i s g w (seek_frame u s g.rebase f))
        (λ x k.
          IfOk-weaken (KeptPad x.0) (KeptPad g) _ (λ y l. Kept-trans g x.0 y.0 k l)
            (push_frames-Kept i s x.0 fs x.1))

  ended-IfOk : (P : GIn × S → Type 0) (code : AvError) (x : GIn × S) → P x → IfOk P (ended code x)
  ended-IfOk P code x p = if_elim (IfOk P) (is_eagain code || is_eof code) _ _ (λ e. p) (λ e. tt)

  pub decode_pad-Kept :
      (i : ℕ) (pkt : Option Packet) (g : GIn) (w : S)
      → IfOk (KeptPad g) (decode_pad u decode add seek_of i pkt g w)
  unfolding decode_pad
  decode_pad-Kept i pkt g w =
      IfOk-bind (λ (x : Drained Frame × S). Unit {0}) (KeptPad g) (decode i pkt w) _
        (IfOk-any (decode i pkt w))
        (λ x t.
          IfOk-bind (KeptPad g) (KeptPad g) _ _ (push_frames-Kept i (seek_of g) g x.0.items x.1)
            (λ y k. ended-IfOk (KeptPad g) x.0.last y k))

  Shut : GIn → GIn × S → Type 0
  Shut g x = Kept g x.0 × (x.0.closed ≡ true)

  told-Shut :
      (g h : GIn) (x : Option AvError × S)
      → Kept g h
      → IfOk (Shut g) (told u decode add seek_of h x)
  unfolding Shut
  told-Shut g h (none, w) (r, b, p) =
      ((r, true, ap (λ (x : GIn). record x { closed = true }) p), refl)
  told-Shut g h (some code, w) (r, b, p) =
      if_elim (IfOk (Shut g)) (is_eof code) _ _
        (λ e. ((r, true, ap (λ (x : GIn). record x { closed = true }) p), refl)) (λ e. tt)

  close_pad-Shut :
      (i : ℕ) (g h : GIn) (w : S)
      → Kept g h
      → IfOk (Shut g) (close_pad u decode add seek_of i (h, w))
  unfolding close_pad Shut
  close_pad-Shut i g h w k =
      if_elim (IfOk (Shut g)) h.closed _ _ (λ e. (k, e)) (λ e. told-Shut g h (add i none w) k)

  and_pads-Flushed :
      (in_idx : ℕ) (g h : GIn) (gs : List GIn) (m : Result (List GIn × S))
      → Flushed in_idx (g ∷ []) (h ∷ [])
      → IfOk (λ (x : List GIn × S). Flushed in_idx gs x.0) m
      → IfOk (λ (x : List GIn × S). Flushed in_idx (g ∷ gs) x.0) (and_pads h m)
  and_pads-Flushed in_idx g h gs (err code) (a, b) c = tt
  and_pads-Flushed in_idx g h gs (ok (hs, w)) (a, b) c = (a, c)

  -- If the flush at the end of an input succeeds, every pad of that input is closed, with nothing but
  -- its base changed beside that, and every other pad is as it was.
  pub flush_pads-Flushed :
      (in_idx i : ℕ) (gs : List GIn) (w : S)
      → IfOk
          (λ (x : List GIn × S). Flushed in_idx gs x.0)
          (flush_pads u decode add seek_of in_idx i gs w)
  unfolding flush_pads Shut
  flush_pads-Flushed in_idx i [] w = tt
  flush_pads-Flushed in_idx i (g ∷ gs) w =
      if_elim (IfOk (λ (x : List GIn × S). Flushed in_idx (g ∷ gs) x.0)) (g.in_idx == in_idx) _ _
        (λ e.
          IfOk-bind (Shut g) (λ (x : List GIn × S). Flushed in_idx (g ∷ gs) x.0) _ _
            (IfOk-bind (KeptPad g) (Shut g) _ _ (decode_pad-Kept i none g w)
              (λ x k. close_pad-Shut i g x.0 x.1 k))
            (λ x k.
              and_pads-Flushed in_idx g x.0 gs _ (inl (e, k.0, k.1), tt)
                (flush_pads-Flushed in_idx (suc i) gs x.1)))
        (λ e.
          and_pads-Flushed in_idx g g gs _ (inr (e, refl), tt)
            (flush_pads-Flushed in_idx (suc i) gs w))
