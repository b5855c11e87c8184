-- ===== src/Process/Spec/Accepted.antt =====
-- src/process.c: which outputs are accepted, and what an accepted one holds.
use ffmpeg_wasi.Base.{
  ◌≡◌, refl, Bool, true, false, not, ◌&&◌, ◌||◌, Option, none, some, if◌then◌else◌, if_elim, map,
}
use ffmpeg_wasi.Base.Text.{Bytes, codes}
use ffmpeg_wasi.Av.{Result, ok, err, IfOk-at}
use ffmpeg_wasi.Process.Window.{Seconds, Window}
use ffmpeg_wasi.Process.Lanes.{Output}
use ffmpeg_wasi.Process.Spec.{Json, Doubles, spec_seconds, string_value, number_value, children_of}
use ffmpeg_wasi.Process.Spec.Options.{Dictionary}
use ffmpeg_wasi.Process.Spec.Assigned.{
  IsDictionary, AllAssigned, members, opts_from_json-AllAssigned,
}
use ffmpeg_wasi.Process.Spec.Outputs.{
  Out, Parse, malformed, parsed, has_codec, seconds_of, window_from, window_of, member_options,
  lanes_of, out_with, options_then, parse_rest, parse_window, parse_path, parse_output,
}

abbrev pub IfParsed {ℓ κ} : {A : Type ℓ} → (A → Type κ) → Parse A → Type κ
IfParsed P (parsed a) = P a
IfParsed P _ = Unit

module _ {J T D M : Type 0} (js : Json J T) (num : Doubles T) (dict : Dictionary D)
    (alloc : Option Bytes → Bytes → Option M) (same : Bytes → Bytes → Bool)
    (get : D → Bytes → Option Bytes) (is_dict : IsDictionary dict same get) where
  -- A bound of a window: unset where the member is no number, or else a number of seconds in range.
  abbrev pub IsBound : Option T → Seconds → Type 0
  IsBound none s = s.is_positive ≡ false
  IsBound (some v) s =
      (num.is_finite v ≡ true)
      × (num.less v num.origin ≡ false)
      × (num.less num.spec_seconds_max v ≡ false)
      × (s.is_positive ≡ num.less num.origin v)
      × (s.micros ≡ num.micros v)

  abbrev pub IsWindow : J → Window → Type 0
  IsWindow spec w =
      IsBound (number_value js (js.get_object_item spec (codes "duration"))) w.duration
      × IsBound (number_value js (js.get_object_item spec (codes "end"))) w.end
      × (w.duration.is_positive && w.end.is_positive ≡ false)

  -- The members of the object under a name are options, and a dictionary holds them.
  abbrev pub Holds : J → Bytes → D → Type 0
  Holds spec name d =
      AllAssigned js dict same get is_dict
        (members js dict same get is_dict (js.get_object_item spec name)) dict.null d

  -- The codecs and the `map` of the description; an element of the `map` that is no string is `none`.
  abbrev pub HasLanes : J → Output → Type 0
  HasLanes spec o =
      (o.vcodec ≡ string_value js (js.get_object_item spec (codes "video_codec")))
      × (o.acodec ≡ string_value js (js.get_object_item spec (codes "audio_codec")))
      × (o.scodec ≡ string_value js (js.get_object_item spec (codes "subtitle_codec")))
      × (o.map
          ≡ map (λ (x : Option Bytes × J). js.string_of x.1)
              (children_of js (js.get_object_item spec (codes "map"))))

  -- What an accepted output is, to its description.
  abbrev pub IsOutput : J → Out J D M → Type 0
  IsOutput spec o =
      (string_value js (js.get_object_item spec (codes "path")) ≡ some o.path)
      × (has_codec js num dict alloc o.lanes ≡ true)
      × HasLanes spec o.lanes
      × IsWindow spec o.window
      × Holds spec (codes "options") o.enc_opts
      × Holds spec (codes "video_options") o.venc_opts
      × Holds spec (codes "audio_options") o.aenc_opts
      × Holds spec (codes "subtitle_options") o.senc_opts
      × Holds spec (codes "format_options") o.fmt_opts
      × (alloc o.format o.path ≡ some o.ofmt)

  abbrev IfSeconds : Option T → Option Seconds → Type 0
  IfSeconds v none = Unit
  IfSeconds v (some s) = IsBound v s

  seconds_of-IsBound : (v : Option T) → IfSeconds v (seconds_of js num dict alloc v)
  unfolding seconds_of spec_seconds
  seconds_of-IsBound none = refl
  seconds_of-IsBound (some v) =
      by_test (num.is_finite v) (num.less v num.origin) (num.less num.spec_seconds_max v) refl refl
        refl
    where
      seconds : Seconds
      seconds = record { is_positive = num.less num.origin v; micros = num.micros v }

      by_test :
          (a b c : Bool)
          → num.is_finite v ≡ a
          → num.less v num.origin ≡ b
          → num.less num.spec_seconds_max v ≡ c
          → IfSeconds (some v) (elim (if not a || (b || c) then none else some (num.micros v)) [
            | none ↦ none
            | some t ↦ some (record { is_positive = num.less num.origin v; micros = t })
          ])
      by_test true false false p q r = (p, q, r, refl, refl)
      by_test true false true p q r = tt
      by_test true true c p q r = tt
      by_test false b c p q r = tt

  abbrev IfWindow : J → Option Window → Type 0
  IfWindow spec none = Unit
  IfWindow spec (some w) = IsWindow spec w

  window_of-IsWindow : (spec : J) → IfWindow spec (window_of js num dict alloc spec)
  unfolding window_of
  window_of-IsWindow spec =
      let d = number_value js (js.get_object_item spec (codes "duration")) in
      let e = number_value js (js.get_object_item spec (codes "end")) in
      from _ (seconds_of js num dict alloc d) (seconds_of js num dict alloc e)
        (seconds_of-IsBound d) (seconds_of-IsBound e)
    where
      from :
          (copy_ts : Bool) (d e : Option Seconds)
          → IfSeconds (number_value js (js.get_object_item spec (codes "duration"))) d
          → IfSeconds (number_value js (js.get_object_item spec (codes "end"))) e
          → IfWindow spec (window_from js num dict alloc copy_ts d e)
      from copy_ts none e p q = tt
      from copy_ts (some d) none p q = tt
      from copy_ts (some d) (some e) p q =
          if_elim (IfWindow spec) (d.is_positive && e.is_positive) none
            (some (record { duration = d; end = e; copy_ts = copy_ts })) (λ b. tt) (λ b. (p, q, b))

  -- A property of the output, if its options are accepted and it is parsed.
  options_then-IfParsed :
      (P : Out J D M → Type 0) (spec : J) (name : Bytes) (k : D → Parse (Out J D M))
      → ((d : D) → Holds spec name d → IfParsed P (k d))
      → IfParsed P (options_then js num dict alloc (member_options js num dict alloc spec name) k)
  options_then-IfParsed P spec name k f = on (member_options js num dict alloc spec name) refl
    where
      on :
          (r : Result D)
          → member_options js num dict alloc spec name ≡ r
          → IfParsed P (options_then js num dict alloc r k)
      on (err code) e = tt
      on (ok d) e = f d (
          IfOk-at
            (AllAssigned js dict same get is_dict
              (members js dict same get is_dict (js.get_object_item spec name)) dict.null)
            (member_options js num dict alloc spec name) d e
            (opts_from_json-AllAssigned js dict same get is_dict dict.null
              (js.get_object_item spec name)))

  out_with-IsOutput :
      (spec : J) (path : Bytes) (w : Window) (enc venc aenc senc fmt : D) (m : Option M)
      → alloc (string_value js (js.get_object_item spec (codes "format"))) path ≡ m
      → string_value js (js.get_object_item spec (codes "path")) ≡ some path
      → has_codec js num dict alloc (lanes_of js num dict alloc spec) ≡ true
      → IsWindow spec w
      → Holds spec (codes "options") enc
      → Holds spec (codes "video_options") venc
      → Holds spec (codes "audio_options") aenc
      → Holds spec (codes "subtitle_options") senc
      → Holds spec (codes "format_options") fmt
      → IfParsed (IsOutput spec) (out_with js num dict alloc spec path w enc venc aenc senc fmt m)
  unfolding lanes_of
  out_with-IsOutput spec path w enc venc aenc senc fmt none em p c iw h1 h2 h3 h4 h5 = tt
  out_with-IsOutput spec path w enc venc aenc senc fmt (some m) em p c iw h1 h2 h3 h4 h5 =
      (p, c, (refl, refl, refl, refl), iw, h1, h2, h3, h4, h5, em)

  parse_rest-IsOutput :
      (spec : J) (path : Bytes) (w : Window)
      → string_value js (js.get_object_item spec (codes "path")) ≡ some path
      → has_codec js num dict alloc (lanes_of js num dict alloc spec) ≡ true
      → IsWindow spec w
      → IfParsed (IsOutput spec) (parse_rest js num dict alloc spec path w)
  unfolding parse_rest
  parse_rest-IsOutput spec path w p c iw =
      let chosen = alloc (string_value js (js.get_object_item spec (codes "format"))) path in
      let P = IsOutput spec in
      options_then-IfParsed P spec (codes "options") _ (λ enc h1.
        options_then-IfParsed P spec (codes "video_options") _ (λ venc h2.
          options_then-IfParsed P spec (codes "audio_options") _ (λ aenc h3.
            options_then-IfParsed P spec (codes "subtitle_options") _ (λ senc h4.
              options_then-IfParsed P spec (codes "format_options") _ (λ fmt h5.
                out_with-IsOutput spec path w enc venc aenc senc fmt chosen refl p c iw h1 h2 h3 h4
                  h5)))))

  -- An output that parse_output accepts has the path, the codecs and the `map` of its description, one
  -- codec at least; a window with at most one of its two bounds set, each a finite number of seconds
  -- within range, as the description has it; in its five dictionaries the members of the five objects
  -- of options, each a named string within bounds; and the muxer of its format and path.
  pub parse_output-IsOutput :
      (spec : J) → IfParsed (IsOutput spec) (parse_output js num dict alloc spec)
  unfolding parse_output
  parse_output-IsOutput spec =
      on_path (string_value js (js.get_object_item spec (codes "path"))) refl
    where
      on_window :
          (path : Bytes) (w : Option Window)
          → IfWindow spec w
          → string_value js (js.get_object_item spec (codes "path")) ≡ some path
          → has_codec js num dict alloc (lanes_of js num dict alloc spec) ≡ true
          → IfParsed (IsOutput spec) (parse_window js num dict alloc spec path w)
      on_window path none iw p c = tt
      on_window path (some w) iw p c = parse_rest-IsOutput spec path w p c iw

      on_path :
          (path : Option Bytes)
          → string_value js (js.get_object_item spec (codes "path")) ≡ path
          → IfParsed (IsOutput spec) (parse_path js num dict alloc spec path)
      on_path none p = tt
      on_path (some path) p =
          if_elim (IfParsed (IsOutput spec))
            (has_codec js num dict alloc (lanes_of js num dict alloc spec))
            (parse_window js num dict alloc spec path (window_of js num dict alloc spec)) malformed
            (λ c. on_window path (window_of js num dict alloc spec) (window_of-IsWindow spec) p c)
            (λ c. tt)
