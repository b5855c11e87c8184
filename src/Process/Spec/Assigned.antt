-- ===== src/Process/Spec/Assigned.antt =====
-- src/process.c: what the dictionaries of options hold. `get` is av_dict_get and `same` its comparison
-- of keys; IsDictionary is what libav documents of them.
use ffmpeg_wasi.Base.{
  ◌≡◌, ◌<◌, ◌⊎◌, inl, inr, refl, sym, ap, ◌∙◌, ltb, arith, Bool-cases, if_true, if_false, Bool,
  true, false, List, [], ◌∷◌, Option, none, some, if◌then◌else◌, All,
}
use ffmpeg_wasi.Base.Text.{Bytes}
use ffmpeg_wasi.Av.{
  einval, Result, ok, err, IfOk, IfOk-bind, IfOk-weaken, IfOk-known, IfOk-any, IfOk-at,
}
use ffmpeg_wasi.SpecOpts.{spec_option_in_bounds}
use ffmpeg_wasi.Process.Spec.{Json, children_of, object_of}
use ffmpeg_wasi.Process.Spec.Options.{
  Dictionary, set_option, set_options, opts_from_json, consumed, open_encoder_opts,
}

abbrev pub otherwise : Option Bytes → Option Bytes → Option Bytes
otherwise none before = before
otherwise (some v) before = some v

pub record IsDictionary {D : Type 0} (dict : Dictionary D) (same : Bytes → Bytes → Bool)
    (get : D → Bytes → Option Bytes) : Type 0 where
  pub get-null : (q : Bytes) → get dict.null q ≡ none
  pub set_unnamed : (d e : D) (v : Bytes) → ¬ dict.dict_set d none v ≡ ok e
  pub get-set :
      (d e : D) (k v q : Bytes)
      → dict.dict_set d (some k) v ≡ ok e
      → get e q ≡ (if same k q then some v else get d q)
  pub get-copy : (d e : D) (q : Bytes) → get (dict.dict_copy d e) q ≡ otherwise (get e q) (get d q)

module _ {J T D : Type 0} (js : Json J T) (dict : Dictionary D) (same : Bytes → Bytes → Bool)
    (get : D → Bytes → Option Bytes) (is_dict : IsDictionary dict same get) where
  -- The string of the last member under a key, `before` where there is none.
  abbrev pub latest : Bytes → List (Option Bytes × J) → Option Bytes → Option Bytes
  latest q [] before = before
  latest q ((none, kv) ∷ kvs) before = latest q kvs before
  latest q ((some k, kv) ∷ kvs) before = latest q kvs (if same k q then js.string_of kv else before)

  -- A member that is a named string within bounds.
  abbrev pub IsOption : Option Bytes × J → Type 0
  IsOption (none, kv) = ⊥
  IsOption (some k, kv) =
      (v : Bytes) × (js.string_of kv ≡ some v) × (spec_option_in_bounds (some k) (some v) ≡ ok tt)

  -- The members that are looked at: those of an object.
  abbrev pub members : Option J → List (Option Bytes × J)
  members obj = if object_of js obj then children_of js obj else []

  abbrev pub Assigns : Option Bytes → J → D → D → Type 0
  Assigns key kv d e =
      IsOption (key, kv) × ((q : Bytes) → get e q ≡ latest q ((key, kv) ∷ []) (get d q))

  set_option-Assigns :
      (d : D) (key : Option Bytes) (kv : J) (v : Option Bytes)
      → js.string_of kv ≡ v
      → IfOk (Assigns key kv d) (set_option js dict d key v)
  unfolding set_option
  set_option-Assigns d key kv none h = tt
  set_option-Assigns d none kv (some v) h =
      IfOk-bind (λ (u : Unit {0}). Unit {0}) (Assigns none kv d)
        (spec_option_in_bounds none (some v)) (λ (u : Unit {0}). dict.dict_set d none v)
        (IfOk-any (spec_option_in_bounds none (some v)))
        (λ u _.
          IfOk-weaken (λ (e : D). dict.dict_set d none v ≡ ok e) (Assigns none kv d)
            (dict.dict_set d none v) (λ e p. absurd (is_dict.set_unnamed d e v p))
            (IfOk-known (dict.dict_set d none v)))
  set_option-Assigns d (some k) kv (some v) h =
      IfOk-bind (λ (u : Unit {0}). spec_option_in_bounds (some k) (some v) ≡ ok u)
        (Assigns (some k) kv d) (spec_option_in_bounds (some k) (some v))
        (λ (u : Unit {0}). dict.dict_set d (some k) v)
        (IfOk-known (spec_option_in_bounds (some k) (some v)))
        (λ u b.
          IfOk-weaken (λ (e : D). dict.dict_set d (some k) v ≡ ok e) (Assigns (some k) kv d)
            (dict.dict_set d (some k) v)
            (λ e p. (
              (v, h, b),
              λ q. is_dict.get-set d e k v q p ∙ ap (λ o. if same k q then o else get d q) (sym h),
            ))
            (IfOk-known (dict.dict_set d (some k) v)))

  abbrev pub AllAssigned : List (Option Bytes × J) → D → D → Type 0
  AllAssigned kvs d e = All IsOption kvs × ((q : Bytes) → get e q ≡ latest q kvs (get d q))

  latest_step :
      (key : Option Bytes) (kv : J) (kvs : List (Option Bytes × J)) (q : Bytes) (o : Option Bytes)
      → latest q kvs (latest q ((key, kv) ∷ []) o) ≡ latest q ((key, kv) ∷ kvs) o
  latest_step none kv kvs q o = refl
  latest_step (some k) kv kvs q o = refl

  set_options-AllAssigned :
      (kvs : List (Option Bytes × J)) (d : D) → IfOk (AllAssigned kvs d) (set_options js dict d kvs)
  unfolding set_options
  set_options-AllAssigned [] d = (tt, λ q. refl)
  set_options-AllAssigned ((key, kv) ∷ kvs) d =
      IfOk-bind (Assigns key kv d) (AllAssigned ((key, kv) ∷ kvs) d)
        (set_option js dict d key (js.string_of kv)) (λ (e : D). set_options js dict e kvs)
        (set_option-Assigns d key kv (js.string_of kv) refl)
        (λ e a.
          IfOk-weaken (AllAssigned kvs e) (AllAssigned ((key, kv) ∷ kvs) d)
            (set_options js dict e kvs)
            (λ f b. (
              (a.0, b.0),
              λ q. b.1 q ∙ ap (latest q kvs) (a.1 q) ∙ latest_step key kv kvs q (get d q),
            ))
            (set_options-AllAssigned kvs e))

  -- Options that are accepted are all named strings, and are all in the dictionary: under each key the
  -- string of the last member that has it, and what was there before under a key that no member has.
  pub opts_from_json-AllAssigned :
      (d : D) (obj : Option J) → IfOk (AllAssigned (members obj) d) (opts_from_json js dict d obj)
  unfolding opts_from_json
  opts_from_json-AllAssigned d obj = by_kind (object_of js obj)
    where
      by_kind :
          (b : Bool)
          → IfOk
              (AllAssigned (if b then children_of js obj else []) d)
              (if b then set_options js dict d (children_of js obj) else ok d)
      by_kind true = set_options-AllAssigned (children_of js obj) d
      by_kind false = (tt, λ q. refl)

  otherwise_branch :
      (t : Bool) (s a b : Option Bytes) (v : Bytes)
      → s ≡ some v
      → (if t then s else otherwise a b) ≡ otherwise (if t then s else a) b
  otherwise_branch true s a b v e = e ∙ ap (λ o. otherwise o b) (sym e)
  otherwise_branch false s a b v e = refl

  latest-otherwise :
      (q : Bytes) (kvs : List (Option Bytes × J)) (a b : Option Bytes)
      → All IsOption kvs
      → latest q kvs (otherwise a b) ≡ otherwise (latest q kvs a) b
  latest-otherwise q [] a b p = refl
  latest-otherwise q ((none, kv) ∷ kvs) a b p = absurd p.0
  latest-otherwise q ((some k, kv) ∷ kvs) a b ((v, e, _), ps) =
      ap (latest q kvs) (otherwise_branch (same k q) (js.string_of kv) a b v e)
      ∙ latest-otherwise q kvs (if same k q then js.string_of kv else a) b ps

  -- The dictionary that an encoder is opened with.
  abbrev pub offered : D → D → D
  offered common kind = dict.dict_copy (dict.dict_copy dict.null common) kind

  -- How the opening ends, by the answer of avcodec_open2: its error, or success if it took every option,
  -- or EINVAL if it left one.
  abbrev pub Strictly : {S : Type 0} → Result D × S → Result (Unit {0}) × S → Type 0
  Strictly (err code, w) o = o ≡ (err code, w)
  Strictly (ok left, w) o =
      ((dict.dict_count left ≡ 0) × (o ≡ (ok tt, w)))
      ⊎ ((0 < dict.dict_count left) × (o ≡ (err einval, w)))

  consumed-Strictly : {S : Type 0} (x : Result D × S) → Strictly x (consumed dict x)
  consumed-Strictly (err code, w) = refl
  consumed-Strictly (ok left, w) = elim (Bool-cases (ltb 0 (dict.dict_count left))) [
    | inl h ↦ inr (ground (arith, h), ap (λ (r : Result (Unit {0})). (r, w)) (if_true _ _ h))
    | inr h ↦ inl (ground (arith, h), ap (λ (r : Result (Unit {0})). (r, w)) (if_false _ _ h))
  ]

  -- For dictionaries as libav documents them, an encoder is opened with one that holds, of the options for every encoder and those for
  -- its kind, both accepted, under each key the string of the kind's last member that has it, or else
  -- of the last common one. The opening fails with the encoder's error, or with EINVAL if the encoder
  -- leaves an option of that dictionary, and succeeds if it takes them all.
  pub open_encoder_opts-kind_wins :
      {S : Type 0} (start : D → S → Result D × S) (w : S) (common kind : Option J) (c k : D)
      → opts_from_json js dict dict.null common ≡ ok c
      → opts_from_json js dict dict.null kind ≡ ok k
      → (d : D) × Strictly (start d w) (open_encoder_opts dict start c k w)
        × ((q : Bytes) → get d q ≡ latest q (members kind) (latest q (members common) none))
  unfolding open_encoder_opts
  open_encoder_opts-kind_wins start w common kind c k ec ek =
      let (_, gc) =
        IfOk-at (AllAssigned (members common) dict.null) (opts_from_json js dict dict.null common) c
          ec (opts_from_json-AllAssigned dict.null common) in
      let (ok_kind, gk) =
        IfOk-at (AllAssigned (members kind) dict.null) (opts_from_json js dict dict.null kind) k ek
          (opts_from_json-AllAssigned dict.null kind) in
      (
        offered c k,
        consumed-Strictly (start (offered c k) w),
        λ q.
            let get_c : get (dict.dict_copy dict.null c) q ≡ latest q (members common) none =
              is_dict.get-copy dict.null c q
              ∙ otherwise_none (get c q) (get dict.null q) (is_dict.get-null q)
              ∙ gc q
              ∙ ap (latest q (members common)) (is_dict.get-null q) in
            is_dict.get-copy (dict.dict_copy dict.null c) k q
            ∙ ap (λ o. otherwise (get k q) o) get_c
            ∙ ap (λ o. otherwise o (latest q (members common) none))
                (gk q ∙ ap (latest q (members kind)) (is_dict.get-null q))
            ∙ sym (latest-otherwise q (members kind) none (latest q (members common) none) ok_kind),
      )
    where
      otherwise_none : (a b : Option Bytes) → b ≡ none → otherwise a b ≡ a
      otherwise_none none b e = e
      otherwise_none (some v) b e = refl
