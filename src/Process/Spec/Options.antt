-- ===== src/Process/Spec/Options.antt =====
-- src/process.c: the dictionaries of options: opts_from_json, and open_encoder_opts, which every
-- encoder is opened by. A dictionary D is libav's.
use ffmpeg_wasi.Base.{ℕ, List, [], ◌∷◌, Option, none, some, ltb, if◌then◌else◌}
use ffmpeg_wasi.Base.Text.{Bytes}
use ffmpeg_wasi.Av.{einval, Result, ok, err, ◌>>=◌}
use ffmpeg_wasi.SpecOpts.{spec_option_in_bounds}
use ffmpeg_wasi.Process.Spec.{Json, children_of, object_of}

-- av_dict_set with no flags (`none` is a NULL key), av_dict_copy with no flags of the second
-- dictionary into the first, av_dict_count, and NULL.
pub record Dictionary (D : Type 0) : Type 0 where
  pub null : D
  pub dict_set : D → Option Bytes → Bytes → Result D
  pub dict_copy : D → D → D
  pub dict_count : D → ℕ

module _ {J T D : Type 0} (js : Json J T) (dict : Dictionary D) where
  -- A member of the object, by its string.
  unfoldable pub set_option : D → Option Bytes → Option Bytes → Result D
  set_option out key none = err einval
  set_option out key (some value) =
      spec_option_in_bounds key (some value) >>= λ (u : Unit {0}). dict.dict_set out key value

  unfoldable pub set_options : D → List (Option Bytes × J) → Result D
  set_options out [] = ok out
  set_options out ((key, kv) ∷ kvs) =
      set_option out key (js.string_of kv) >>= λ (out' : D). set_options out' kvs

  unfoldable pub opts_from_json : D → Option J → Result D
  opts_from_json out obj = if object_of js obj then set_options out (children_of js obj) else ok out

-- What avcodec_open2 leaves of the options, on the state S of libav's objects.
abbrev pub consumed : {D S : Type 0} → Dictionary D → Result D × S → Result (Unit {0}) × S
consumed dict (err code, w) = (err code, w)
consumed dict (ok opts, w) = (if ltb 0 (dict.dict_count opts) then err einval else ok tt, w)

-- `start` is avcodec_open2 on the encoder.
unfoldable pub open_encoder_opts :
    {D S : Type 0} → Dictionary D → (D → S → Result D × S) → D → D → S → Result (Unit {0}) × S
open_encoder_opts dict start common kind w =
    consumed dict (start (dict.dict_copy (dict.dict_copy dict.null common) kind) w)
