-- ===== src/Process/Setup/Routed.antt =====
-- src/process.c: where the sinks of the graph lead.
use ffmpeg_wasi.Base.{
  ◌≡◌, refl, sym, ap, ◌∙◌, ℕ, ◌≤◌, List, [], ◌∷◌, ◌++◌, map, Option, none, some, arith, length,
  length-append, leb, get_elem?, if_elim, Pairwise, append_assoc, append-nil,
}
use ffmpeg_wasi.Base.Int.{pos}
use ffmpeg_wasi.Base.Text.{Bytes}
use ffmpeg_wasi.Av.{einval, err, ◌>>=◌, IfOk, IfOk-bind, IfOk-behind, IfOk-weaken}
use ffmpeg_wasi.Process.Mux.{max_gout}
use ffmpeg_wasi.Process.MapSpec.{Map, find_output_for_pad}
use ffmpeg_wasi.Process.Lanes.{Output}
use ffmpeg_wasi.Process.Setup.{Sink, OutPad, Filters}
use ffmpeg_wasi.Process.Setup.Sources.{call_result}
use ffmpeg_wasi.Process.Setup.Sinks.{
  label_of, codec_for, pin_sink, sink_of, with_encoder, by_codec, routed, to_output, add_buffersink,
  add_sinks,
}

module _ {C D S : Type 0} (av : Filters C D S) (outs : List Output) where
  abbrev pub maps : List Map
  maps = map (λ (o : Output). o.map) outs

  -- An output that a pad of a kind is routed to, with its codec for that kind, which has an encoder.
  abbrev pub Takes : OutPad → ℕ → Type 0
  Takes pad o =
      (find_output_for_pad (label_of pad.name) maps ≡ some o)
      × ((out : Output) × (get_elem? outs o ≡ some out)
          × ((codec : Bytes) × (codec_for pad.type out ≡ some codec)
              × ((enc : C) × (av.find_encoder codec ≡ some enc))))

  abbrev pub IsRouted : OutPad → Sink → Type 0
  IsRouted pad k = Takes pad k.out_idx × (k.type ≡ pad.type) × (k.next_pts ≡ pos 0)

  abbrev Adds : OutPad → List Sink → List Sink × S → Type 0
  Adds pad gout x = (k : Sink) × (x.0 ≡ gout ++ (k ∷ [])) × IsRouted pad k

  to_output-Adds :
      (pad : OutPad) (gout : List Sink) (w : S) (o : Option ℕ)
      → find_output_for_pad (label_of pad.name) maps ≡ o
      → IfOk (Adds pad gout) (to_output av outs pad gout w o)
  to_output-Adds pad gout w none e = tt
  to_output-Adds pad gout w (some o) e = to_routed (get_elem? outs o) refl
    where
      to_sink :
          (out : Output) (codec : Bytes) (c : Option C)
          → get_elem? outs o ≡ some out
          → codec_for pad.type out ≡ some codec
          → av.find_encoder codec ≡ c
          → IfOk (Adds pad gout) (with_encoder av pad o gout w c)
      to_sink out codec none p q r = tt
      to_sink out codec (some enc) p q r =
          IfOk-behind (Adds pad gout) (pin_sink av (length gout) pad.type enc w) _ (λ w1.
            IfOk-behind (Adds pad gout) (call_result (av.init_sink (length gout) w1)) _ (λ w2.
              IfOk-behind (Adds pad gout) (call_result (av.link_sink (length gout) w2)) _ (λ w3.
                (sink_of av pad o, refl, ((e, (out, p, (codec, q, (enc, r)))), refl, refl)))))

      to_codec :
          (out : Output) (codec : Option Bytes)
          → get_elem? outs o ≡ some out
          → codec_for pad.type out ≡ codec
          → IfOk (Adds pad gout) (by_codec av pad o gout w codec)
      to_codec out none p q = tt
      to_codec out (some codec) p q = to_sink out codec (av.find_encoder codec) p q refl

      to_routed :
          (out : Option Output)
          → get_elem? outs o ≡ out
          → IfOk (Adds pad gout) (routed av pad o gout w out)
      to_routed none p = tt
      to_routed (some out) p = to_codec out (codec_for pad.type out) p refl

  abbrev pub SinksExtend : List OutPad → List Sink → List Sink × S → Type 0
  SinksExtend pads gout x =
      (new : List Sink) × (x.0 ≡ gout ++ new) × Pairwise IsRouted pads new × (length x.0 ≤ max_gout)

  pub add_sinks-SinksExtend :
      (pads : List OutPad) (gout : List Sink) (w : S)
      → length gout ≤ max_gout
      → IfOk (SinksExtend pads gout) (add_sinks av outs pads (gout, w))
  unfolding add_sinks add_buffersink
  add_sinks-SinksExtend [] gout w l = ([], sym (append-nil gout), tt, l)
  add_sinks-SinksExtend (pad ∷ pads) gout w l =
      if_elim (IfOk (SinksExtend (pad ∷ pads) gout)) (leb max_gout (length gout)) (err einval)
        (add_buffersink av outs pad (gout, w) >>= add_sinks av outs pads) (λ full. tt)
        (λ room.
          IfOk-bind (Adds pad gout) (SinksExtend (pad ∷ pads) gout)
            (add_buffersink av outs pad (gout, w)) (add_sinks av outs pads)
            (to_output-Adds pad gout w (find_output_for_pad (label_of pad.name) maps) refl)
            (λ (gout', w') (k, p, r).
              IfOk-weaken (SinksExtend pads gout') (SinksExtend (pad ∷ pads) gout)
                (add_sinks av outs pads (gout', w'))
                (λ x (new, q, rs, b).
                  (k ∷ new, q ∙ ap (◌++ new) p ∙ append_assoc gout (k ∷ []) new, (r, rs), b))
                (add_sinks-SinksExtend pads gout' w'
                  (ground (arith, room, ap length p, length-append gout (k ∷ []))))))
