-- ===== src/Frames/Grab/Watched.antt =====
-- src/frames.c: what is written, and what the reply says of it. The file system is watched from outside
-- the code: next to the state of libav's objects stands the list of the files that afio_write_file has
-- reported as written.
use ffmpeg_wasi.Base.{
  ℕ, zero, suc, ◌+◌, ◌-◌, ◌≤◌, ◌<◌, ◌≡◌, refl, ap, ◌∙◌, Bool, List, [], ◌∷◌, ◌++◌, Option, none,
  some, length, arith, if_elim, length-append,
}
use ffmpeg_wasi.Base.Text.{Bytes}
use ffmpeg_wasi.Av.{AvError, Result, ok, err}
use ffmpeg_wasi.Process.Graph.{Frame}
use ffmpeg_wasi.Frames.Grab.{
  Entry, Frames, Calls, on_ok, ignore, is_end, noted, wrote, write_image, write_frame, write_at,
  take_sink, sink_loop, added, emit_one,
}

-- The files after a write of one.
abbrev pub also : Bytes → Option AvError → List Bytes → List Bytes
also path none files = files ++ (path ∷ [])
also path (some code) files = files

abbrev pub with_files : {S : Type 0} → List Bytes → Option S → Option (S × List Bytes)
with_files files none = none
with_files files (some w) = some (w, files)

-- The same calls, over a state that has the paths of the files written so far.
abbrev pub watched : {T S : Type 0} → Calls T S → Calls T (S × List Bytes)
watched av = record {
  image = λ frame w. ((av.image frame w.0).0, ((av.image frame w.0).1, w.1));
  write_file = λ path bytes w. (
    (av.write_file path bytes w.0).0,
    ((av.write_file path bytes w.0).1, also path (av.write_file path bytes w.0).0 w.1),
  );
  add = λ frame w. ((av.add frame w.0).0, ((av.add frame w.0).1, w.1));
  get = λ w. ((av.get w.0).0, ((av.get w.0).1, w.1));
  decode = λ pkt w. ((av.decode pkt w.0).0, ((av.decode pkt w.0).1, w.1));
  flush = λ w. ((av.flush w.0).0, ((av.flush w.0).1, w.1));
  seek = λ ts w. with_files w.1 (av.seek ts w.0);
  packets = λ w. av.packets w.0;
  start = av.start;
  seconds = av.seconds;
  is_nonneg = av.is_nonneg;
  vstream = av.vstream;
}

module _ {T S : Type 0} (av : Calls T S) (path_of : ℕ → Result Bytes) (cap : ℕ) where
  -- What the engine counts and reports, the state of libav's objects and the files.
  abbrev pub State : Type 0
  State = Frames T × (S × List Bytes)

  -- The entries carry the numbers from `k` on, and the paths that the template gives for them.
  abbrev pub IsNumbered : ℕ → List (Entry T) → Type 0
  IsNumbered k [] = Unit
  IsNumbered k (e ∷ es) = (e.index ≡ k) × (path_of k ≡ ok e.path) × IsNumbered (suc k) es

  -- The paths of the entries.
  abbrev pub listed : List (Entry T) → List Bytes
  listed [] = []
  listed (e ∷ es) = e.path ∷ listed es

  -- No more than `cap` files are written, the reply has one entry for each, in order, and these are
  -- numbered.
  abbrev pub IsFaithful : State → Type 0
  IsFaithful (f, (w, files)) =
      (f.written ≤ cap)
      × (length f.jframes ≡ f.written)
      × IsNumbered 0 f.jframes
      × (listed f.jframes ≡ files)

  abbrev pub Holds : Option AvError × State → Type 0
  Holds o = IsFaithful o.1

  -- After a write: one more frame, or an error.
  abbrev OneMore : ℕ → Option AvError × State → Type 0
  OneMore n (none, s) = IsFaithful s × (s.0.written ≡ suc n)
  OneMore n (some code, s) = IsFaithful s

  listed-snoc :
      (es : List (Entry T)) (e : Entry T) → listed (es ++ (e ∷ [])) ≡ listed es ++ (e.path ∷ [])
  listed-snoc [] e = refl
  listed-snoc (x ∷ es) e = ap (x.path ∷◌) (listed-snoc es e)

  IsNumbered-snoc :
      (k : ℕ) (es : List (Entry T)) (e : Entry T)
      → IsNumbered k es
      → e.index ≡ k + length es
      → path_of (k + length es) ≡ ok e.path
      → IsNumbered k (es ++ (e ∷ []))
  IsNumbered-snoc k [] e h p q = (omega (arith, p), ap path_of (omega arith) ∙ q, tt)
  IsNumbered-snoc k (x ∷ es) e (a, b, h) p q =
      (a, b, IsNumbered-snoc (suc k) es e h (omega (arith, p)) (ap path_of (omega arith) ∙ q))

  noted-IsFaithful :
      (path : Bytes) (t : Option T) (f : Frames T) (w v : S) (files : List Bytes)
      → IsFaithful (f, (w, files))
      → f.written < cap
      → path_of f.written ≡ ok path
      → IsFaithful (noted (watched av) path_of cap path t f, (v, files ++ (path ∷ [])))
  noted-IsFaithful path t f w v files (a, b, c, d) l e = (
    omega (arith, l),
    length-append f.jframes _ ∙ omega (arith, b),
    IsNumbered-snoc 0 f.jframes _ c (omega (arith, b)) (ap path_of (omega (arith, b)) ∙ e),
    listed-snoc f.jframes _ ∙ ap (λ x. x ++ (path ∷ [])) d,
  )

  write_frame-OneMore :
      (frame : Frame) (path : Bytes) (t : Option T) (f : Frames T) (w : S) (files : List Bytes)
      → IsFaithful (f, (w, files))
      → f.written < cap
      → path_of f.written ≡ ok path
      → OneMore f.written (write_frame (watched av) path_of cap frame path t (f, (w, files)))
  unfolding write_frame
  write_frame-OneMore frame path t f w files h l e =
      imaged (av.image frame w).0 (av.image frame w).1
    where
      wrote-OneMore :
          (o : Option AvError) (v : S)
          → OneMore f.written (wrote (watched av) path_of cap path t f (o, (v, also path o files)))
      wrote-OneMore none v = (noted-IsFaithful path t f w v files h l e, refl)
      wrote-OneMore (some code) v = h

      imaged :
          (r : Result Bytes) (v : S)
          → OneMore f.written (write_image (watched av) path_of cap path t f (r, (v, files)))
      imaged (err code) v = h
      imaged (ok bytes) v =
          wrote-OneMore (av.write_file path bytes v).0 (av.write_file path bytes v).1

  write_at-OneMore :
      (t : Option T) (frame : Frame) (f : Frames T) (w : S) (files : List Bytes) (r : Result Bytes)
      → IsFaithful (f, (w, files))
      → f.written < cap
      → path_of f.written ≡ r
      → OneMore f.written (write_at (watched av) path_of cap t frame (f, (w, files)) r)
  write_at-OneMore t frame f w files (err code) h l e = h
  write_at-OneMore t frame f w files (ok path) h l e =
      write_frame-OneMore frame path t f w files h l e

  on_ok-OneMore :
      (k : State → Option AvError × State) (n : ℕ) (o : Option AvError × State)
      → OneMore n o
      → ((s : State) → IsFaithful s → s.0.written ≡ suc n → Holds (k s))
      → Holds (on_ok k o)
  on_ok-OneMore k n (none, s) (h, e) f = f s h e
  on_ok-OneMore k n (some code, s) h f = h

  pub on_ok-Holds :
      (k : State → Option AvError × State) (o : Option AvError × State)
      → Holds o
      → ((s : State) → IsFaithful s → Holds (k s))
      → Holds (on_ok k o)
  on_ok-Holds k (none, s) h f = f s h
  on_ok-Holds k (some code, s) h f = h

  pub ignore-Holds :
      (p : AvError → Bool) (o : Option AvError × State) → Holds o → Holds (ignore p o)
  ignore-Holds p (none, s) h = h
  ignore-Holds p (some code, s) h = if_elim Holds (p code) _ _ (λ e. h) (λ e. h)

  pub sink_loop-Holds :
      (stops : AvError → Bool) (t : Option T) (n : ℕ) (f : Frames T) (w : S) (files : List Bytes)
      → n ≤ cap - f.written
      → IsFaithful (f, (w, files))
      → Holds (sink_loop (watched av) path_of cap stops t n (f, (w, files)))
  unfolding sink_loop
  sink_loop-Holds stops t zero f w files l h = h
  sink_loop-Holds stops t (suc n) f w files l h =
      taken (sink_loop (watched av) path_of cap stops t n)
        (λ s i e. sink_loop-Holds stops t n s.0 s.1.0 s.1.1 (omega (arith, l, e)) i) (av.get w).0
        (av.get w).1
    where
      taken :
          (k : State → Option AvError × State)
          → ((s : State) → IsFaithful s → s.0.written ≡ suc f.written → Holds (k s))
          → (r : Result Frame) (v : S)
          → Holds (take_sink (watched av) path_of cap stops k t f (r, (v, files)))
      taken k i (err code) v = if_elim Holds (stops code) _ _ (λ e. h) (λ e. h)
      taken k i (ok frame) v =
          on_ok-OneMore k f.written _
            (write_at-OneMore t frame f v files (path_of f.written) h (omega (arith, l)) refl) i

  pub emit_one-Holds :
      (frame : Frame) (t : Option T) (s : State)
      → IsFaithful s
      → Holds (emit_one (watched av) path_of cap frame t s)
  unfolding emit_one
  emit_one-Holds frame t (f, (w, files)) h = added-Holds (av.add _ w).0 (av.add _ w).1
    where
      added-Holds :
          (o : Option AvError) (v : S)
          → Holds (
              added
                (watched av)
                path_of
                cap
                t
                (record f { pts_counter = suc f.pts_counter })
                (o, (v, files)))
      added-Holds none v = sink_loop-Holds is_end t (cap - f.written) _ v files (omega arith) h
      added-Holds (some code) v = h

  abbrev pub Kept : (State → Option AvError × State) → Type 0
  Kept k = (s : State) → IsFaithful s → Holds (k s)
