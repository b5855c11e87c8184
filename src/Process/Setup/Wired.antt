-- ===== src/Process/Setup/Wired.antt =====
-- src/process.c: what the graph's inputs and outputs are after its set-up.
use ffmpeg_wasi.Base.{
  ◌≡◌, refl, sym, ap, ◌∙◌, ℕ, ◌≤◌, ◌<◌, false, List, [], ◌∷◌, ◌++◌, map, Option, none, some, arith,
  length, length-append, leb, get_elem?, if_elim, if_true, Pairwise, append_assoc, append-nil,
}
use ffmpeg_wasi.Base.Text.{Bytes}
use ffmpeg_wasi.Av.{
  einval, decoder_not_found, MediaType, video, eq_type, Result, ok, err, IfOk, IfOk-bind,
  IfOk-behind, IfOk-weaken, IfOk-known,
}
use ffmpeg_wasi.Process.Graph.{GIn}
use ffmpeg_wasi.Process.MapSpec.{Selector, parse_input_pad, resolve_map_stream}
use ffmpeg_wasi.Process.Setup.{InStream, Decoder, Filters}
use ffmpeg_wasi.Process.Setup.Sources.{
  max_gin, source_base, source_of, call_result, gin_of, after_decoder, with_decoder, of_input,
  add_buffersrc, selected, add_named, add_sources,
}

module _ {C D S : Type 0} (av : Filters C D S) (best : ℕ → MediaType → Result ℕ)
    (inputs : List (List InStream)) where
  abbrev pub types_of : List InStream → List MediaType
  types_of streams = map (λ (t : InStream). t.type) streams

  -- A pad that reads the stream a selector chooses.
  abbrev pub Reads : Selector → GIn → Type 0
  Reads s g =
      (g.in_idx ≡ s.input)
      × ((streams : List InStream) × (get_elem? inputs s.input ≡ some streams)
          × (resolve_map_stream (best s.input) (types_of streams) s.type s.sel ≡ ok g.st_idx)
          × ((st : InStream) × (get_elem? streams g.st_idx ≡ some st)
              × (g.pkt_timebase ≡ st.time_base)
              × (s.type ≡ video → g.src_tb ≡ st.time_base)))
      × (g.closed ≡ false)

  -- An input of the graph, to the name of its pad.
  abbrev pub IsSource : Option Bytes → GIn → Type 0
  IsSource name g =
      (text : Bytes) × (name ≡ some text)
      × ((s : Selector) × (parse_input_pad text ≡ some s) × Reads s g)

  -- One more pad, that R holds of.
  abbrev Adds : (GIn → Type 0) → List GIn → List GIn × S → Type 0
  Adds R gin x = (g : GIn) × (x.0 ≡ gin ++ (g ∷ [])) × R g × (length gin < max_gin)

  after_decoder-Adds :
      (R : GIn → Type 0) (gin : List GIn) (s : Selector) (st : ℕ) (stream : InStream)
      (r : Result Decoder × S)
      → ((dec : Decoder) → R (gin_of av best inputs s st stream dec))
      → length gin < max_gin
      → IfOk (Adds R gin) (after_decoder av best inputs gin s st stream r)
  after_decoder-Adds R gin s st stream (err code, w) h l = tt
  after_decoder-Adds R gin s st stream (ok dec, w) h l =
      IfOk-behind (Adds R gin)
        (call_result (av.create_source (length gin) (source_of s.type stream dec) w)) _
        (λ w1.
          IfOk-behind (Adds R gin) (call_result (av.link_source (length gin) w1)) _
            (λ w2. (gin_of av best inputs s st stream dec, refl, h dec, l)))

  source_base-video :
      (type : MediaType) (st : InStream) (dec : Decoder)
      → type ≡ video
      → source_base type st dec ≡ st.time_base
  unfolding source_base
  source_base-video type st dec e =
      if_true st.time_base (record { num = 1; den = dec.sample_rate }) (ap (λ t. eq_type t video) e)

  of_input-Adds :
      (gin : List GIn) (s : Selector) (found : Option (List InStream)) (w : S)
      → get_elem? inputs s.input ≡ found
      → length gin < max_gin
      → IfOk (Adds (Reads s) gin) (of_input av best inputs gin s found w)
  of_input-Adds gin s none w e l = tt
  of_input-Adds gin s (some streams) w e l =
      IfOk-bind
        (λ (st : ℕ). resolve_map_stream (best s.input) (types_of streams) s.type s.sel ≡ ok st)
        (Adds (Reads s) gin) (resolve_map_stream (best s.input) (types_of streams) s.type s.sel)
        (λ (st : ℕ). with_decoder av best inputs gin s st (get_elem? streams st) w)
        (IfOk-known (resolve_map_stream (best s.input) (types_of streams) s.type s.sel))
        (λ st r. at st r (get_elem? streams st) refl)
    where
      at :
          (st : ℕ)
          → resolve_map_stream (best s.input) (types_of streams) s.type s.sel ≡ ok st
          → (o : Option InStream) → get_elem? streams st ≡ o
          → IfOk (Adds (Reads s) gin) (with_decoder av best inputs gin s st o w)
      at st r none q = tt
      at st r (some stream) q =
          if_elim (IfOk (Adds (Reads s) gin)) (av.find_decoder s.input st)
            (after_decoder av best inputs gin s st stream
              (av.open_decoder (length gin) s.input st w))
            (err decoder_not_found)
            (λ f.
              after_decoder-Adds (Reads s) gin s st stream
                (av.open_decoder (length gin) s.input st w)
                (λ dec. (
                  refl,
                  (streams, e, r, (stream, q, refl, source_base-video s.type stream dec)),
                  refl,
                ))
                l)
            (λ f. tt)

  add_named-Adds :
      (pad : Option Bytes) (gin : List GIn) (w : S)
      → IfOk (Adds (IsSource pad) gin) (add_named av best inputs pad (gin, w))
  unfolding add_buffersrc
  add_named-Adds none gin w = tt
  add_named-Adds (some text) gin w = by_selector (parse_input_pad text) refl
    where
      added :
          (s : Selector)
          → parse_input_pad text ≡ some s
          → IfOk (Adds (IsSource (some text)) gin) (add_buffersrc av best inputs s (gin, w))
      added s e =
          if_elim (IfOk (Adds (IsSource (some text)) gin)) (leb max_gin (length gin)) (err einval)
            (of_input av best inputs gin s (get_elem? inputs s.input) w) (λ full. tt)
            (λ room.
              IfOk-weaken (Adds (Reads s) gin) (Adds (IsSource (some text)) gin)
                (of_input av best inputs gin s (get_elem? inputs s.input) w)
                (λ x (g, p, r, l). (g, p, (text, refl, (s, e, r)), l))
                (of_input-Adds gin s (get_elem? inputs s.input) w refl (ground (arith, room))))

      by_selector :
          (o : Option Selector)
          → parse_input_pad text ≡ o
          → IfOk (Adds (IsSource (some text)) gin) (selected av best inputs o (gin, w))
      by_selector none e = tt
      by_selector (some s) e = added s e

  -- What a loop adds to the graph's inputs before it.
  abbrev pub GInExtends : List (Option Bytes) → List GIn → List GIn × S → Type 0
  GInExtends pads gin x =
      (new : List GIn) × (x.0 ≡ gin ++ new) × Pairwise IsSource pads new × (length x.0 ≤ max_gin)

  pub add_sources-GInExtends :
      (pads : List (Option Bytes)) (gin : List GIn) (w : S)
      → length gin ≤ max_gin
      → IfOk (GInExtends pads gin) (add_sources av best inputs pads (gin, w))
  unfolding add_sources
  add_sources-GInExtends [] gin w l = ([], sym (append-nil gin), tt, l)
  add_sources-GInExtends (pad ∷ pads) gin w l =
      IfOk-bind (Adds (IsSource pad) gin) (GInExtends (pad ∷ pads) gin)
        (add_named av best inputs pad (gin, w)) (add_sources av best inputs pads)
        (add_named-Adds pad gin w)
        (λ (gin', w') (g, p, r, m).
          IfOk-weaken (GInExtends pads gin') (GInExtends (pad ∷ pads) gin)
            (add_sources av best inputs pads (gin', w'))
            (λ x (new, q, rs, b).
              (g ∷ new, q ∙ ap (◌++ new) p ∙ append_assoc gin (g ∷ []) new, (r, rs), b))
            (add_sources-GInExtends pads gin' w'
              (omega (arith, ap length p, length-append gin (g ∷ [])))))
