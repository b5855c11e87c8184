-- ===== src/Frames/Grab/Tests.antt =====
-- A decoder that never runs dry, for src/frames.c.
use ffmpeg_wasi.Base.{ℕ, zero, suc, refl, true, [], ◌∷◌, Option, none, some, arith}
use ffmpeg_wasi.Base.Int.{pos}
use ffmpeg_wasi.Base.Text.{Bytes, codes}
use ffmpeg_wasi.Av.{eof, eagain, Result, ok, err}
use ffmpeg_wasi.Process.Mux.{Packet}
use ffmpeg_wasi.Process.Graph.{Frame}
use ffmpeg_wasi.Frames.Grab.{Frames, Calls, expand_path, grab_targets, grab_scene}
use ffmpeg_wasi.Frames.Grab.Watched.{IsFaithful, watched}
use ffmpeg_wasi.Frames.Grab.Numbered.{grab_targets-IsFaithful, grab_scene-IsFaithful}

abbrev picture : Frame
picture = record {
  pts = pos 7;
  best_effort_timestamp = pos 7;
  duration = pos 1;
  nb_samples = pos 0;
  pict_type = 1;
  metadata = [];
}

abbrev packet_0 : Packet
packet_0 = record { pts = pos 7; dts = pos 7; duration = pos 1; size = pos 1; stream_index = pos 0 }

-- The state is the number of frames that the graph has ready.
abbrev ready : ℕ → Result Frame × ℕ
ready zero = (err eagain, 0)
ready (suc n) = (ok picture, n)

abbrev calls : Calls ℕ ℕ
calls = record {
  image = λ f n. (ok (codes "png"), n);
  write_file = λ path bytes n. (none, n);
  add = λ f n. (none, suc n);
  get = ready;
  decode = λ pkt n. (ok (record { items = picture ∷ picture ∷ picture ∷ []; last = eagain }), n);
  flush = λ n. (record { items = picture ∷ []; last = eof }, n);
  seek = λ ts n. some n;
  packets = λ n. record { items = packet_0 ∷ packet_0 ∷ []; last = eof };
  start = λ t. pos t;
  seconds = λ t. 7;
  is_nonneg = λ t. true;
  vstream = pos 0;
}

-- The number in unary, in place of snprintf's decimal.
abbrev tally : Bytes → ℕ → Option Bytes
tally tmpl zero = some tmpl
tally tmpl (suc n) = tally (49 ∷ tmpl) n

abbrev fresh : Frames ℕ
fresh = record { pts_counter = 0; written = 0; jframes = [] }

grab_targets-IsFaithful_example :
    IsFaithful calls
      (expand_path tally (codes "a%d") 1)
      2
      (grab_targets
        (watched calls)
        (expand_path tally (codes "a%d") 1)
        2
        (3 ∷ 5 ∷ 6 ∷ [])
        (fresh, (0, []))).1
grab_targets-IsFaithful_example =
    grab_targets-IsFaithful calls (expand_path tally (codes "a%d") 1) 2 (3 ∷ 5 ∷ 6 ∷ [])
      (fresh, (0, [])) (omega arith, refl, tt, refl)

grab_scene-IsFaithful_example :
    IsFaithful calls
      (expand_path tally (codes "a%d") 1)
      2
      (grab_scene (watched calls) (expand_path tally (codes "a%d") 1) 2 (fresh, (0, []))).1
grab_scene-IsFaithful_example =
    grab_scene-IsFaithful calls (expand_path tally (codes "a%d") 1) 2 (fresh, (0, []))
      (omega arith, refl, tt, refl)
