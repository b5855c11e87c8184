-- ===== src/Process/Mux/Sequence.antt =====
-- src/process.c: all the packets of one output, in the order in which pmux hands them on.
use ffmpeg_wasi.Base.{
  ℕ, zero, suc, ◌<◌, ◌≡◌, ◌≢◌, ◌⊎◌, inl, inr, refl, sym, ap, ◌∙◌, subst, true, false, ◌||◌, List,
  [], ◌∷◌, All, length, set, replicate, if◌then◌else◌, if_true, if_false, Bool-cases, ltb→lt, arith,
}
use ffmpeg_wasi.Base.Int.{
  ℤ, pos, pos_part, ◌==ℤ◌, ==ℤ_iff, ◌≤ℤ◌, ◌<ℤ◌, IsInt64, int64_max, leb_ℤ, ltb_ℤ,
}
use ffmpeg_wasi.Process.Timestamps.{nopts}
use ffmpeg_wasi.Process.Mux.{
  Packet, Format, Stream, is_set, is_clamped_type, fixup, last_at, mux_fixup_ts, max_mux_streams,
  floor_after,
}
use ffmpeg_wasi.Process.Mux.Accepts.{InRange, fixup_lem, floor_after_lem}

-- The packets of one output in order, each with its stream, after the fixups.
unfoldable pub mux_all : Format → List ℤ → List (Stream × Packet) → List (Stream × Packet)
mux_all fmt a [] = []
mux_all fmt a ((s, p) ∷ r) = let (a', p') = mux_fixup_ts fmt a s p in (s, p') ∷ mux_all fmt a' r

-- parse_output starts every entry at AV_NOPTS_VALUE.
abbrev pub fresh_last_dts : List ℤ
fresh_last_dts = replicate max_mux_streams nopts

-- The dts values of the packets of stream `i`.
abbrev pub dts_of : ℕ → List (Stream × Packet) → List ℤ
dts_of i [] = []
dts_of i ((s, p) ∷ r) = if s.index ==ℤ pos i then p.dts ∷ dts_of i r else dts_of i r

-- The same as `Rises` below, with its conditions as premises.
abbrev Climbs : Format → ℤ → List ℤ → Type 0
Climbs fmt last [] = Unit {0}
Climbs fmt last (t ∷ ts) =
    (is_set last ≡ true → (last ≤ℤ t) × (fmt.ts_nonstrict ≡ false → last <ℤ int64_max → last <ℤ t))
    × Climbs fmt t ts

-- A packet that one of the three lanes hands to pmux with a dts.
abbrev pub IsMuxable : Stream × Packet → Type 0
IsMuxable (s, p) =
    (pos 0 ≤ℤ s.index)
    × (s.index <ℤ pos max_mux_streams)
    × (is_clamped_type s.codec_type ≡ true)
    × InRange p
    × (is_set p.dts ≡ true)

last_at-set_self : (a : List ℤ) (i : ℕ) (t : ℤ) → i < length a → last_at (set a i t) i ≡ t
last_at-set_self [] i t h = absurd (omega arith)
last_at-set_self (x ∷ a) zero t h = refl
last_at-set_self (x ∷ a) (suc i) t h = last_at-set_self a i t (omega arith)

last_at-set_ne : (a : List ℤ) (i j : ℕ) (t : ℤ) → i ≢ j → last_at (set a i t) j ≡ last_at a j
last_at-set_ne [] i j t h = refl
last_at-set_ne (x ∷ a) zero zero t h = absurd (h refl)
last_at-set_ne (x ∷ a) zero (suc j) t h = refl
last_at-set_ne (x ∷ a) (suc i) zero t h = refl
last_at-set_ne (x ∷ a) (suc i) (suc j) t h = last_at-set_ne a i j t (λ e. h (ap suc e))

All-last_at : (a : List ℤ) (i : ℕ) → All IsInt64 a → IsInt64 (last_at a i)
All-last_at [] i h = omega arith
All-last_at (x ∷ a) zero (h, hs) = h
All-last_at (x ∷ a) (suc i) (h, hs) = All-last_at a i hs

All-set : (a : List ℤ) (i : ℕ) (t : ℤ) → All IsInt64 a → IsInt64 t → All IsInt64 (set a i t)
All-set [] i t h k = tt
All-set (x ∷ a) zero t (h, hs) k = (k, hs)
All-set (x ∷ a) (suc i) t (h, hs) k = (h, All-set a i t hs k)

length-set : (a : List ℤ) (i : ℕ) (t : ℤ) → length (set a i t) ≡ length a
length-set [] i t = refl
length-set (x ∷ a) zero t = refl
length-set (x ∷ a) (suc i) t = ap suc (length-set a i t)

last_at-replicate : (n i : ℕ) → last_at (replicate n nopts) i ≡ nopts
last_at-replicate zero i = refl
last_at-replicate (suc n) zero = refl
last_at-replicate (suc n) (suc i) = last_at-replicate n i

fresh-last_at : (i : ℕ) → last_at fresh_last_dts i ≡ nopts
fresh-last_at i = last_at-replicate 64 i

record IsTable (a : List ℤ) : Type 0 where
  full : length a ≡ max_mux_streams
  entries : All IsInt64 a

fresh-IsTable : IsTable fresh_last_dts
fresh-IsTable = record { full = refl; entries = omega arith }

-- The packet after the fixup.
abbrev out_packet : Format → List ℤ → Stream → Packet → Packet
out_packet fmt a s p = fixup fmt s.codec_type (last_at a (pos_part s.index)) p

mux_fixup_ts_inside :
    (fmt : Format) (a : List ℤ) (s : Stream) (p : Packet)
    → IsMuxable (s, p)
    → mux_fixup_ts fmt a s p
      ≡ (set a (pos_part s.index) (out_packet fmt a s p).dts, out_packet fmt a s p)
unfolding mux_fixup_ts
mux_fixup_ts_inside fmt a s p m =
    if_false {b = ltb_ℤ s.index (pos 0) || leb_ℤ (pos max_mux_streams) s.index} _ _
      (ground (arith, m))

module _ (fmt : Format) (ts : fmt.no_timestamps ≡ false) where
  step-IsTable :
      (a : List ℤ) (s : Stream) (p : Packet)
      → IsTable a
      → IsMuxable (s, p)
      → IsTable (set a (pos_part s.index) (out_packet fmt a s p).dts)
  step-IsTable a s p t (lo, hi, av, r, d) =
      let q =
        fixup_lem fmt s.codec_type (last_at a (pos_part s.index)) p ts av
          (All-last_at a (pos_part s.index) t.entries) r d in
      record {
        full = length-set a (pos_part s.index) _ ∙ t.full;
        entries = All-set a (pos_part s.index) _ t.entries q.0.1;
      }

  -- The packet rises past the entry of its stream.
  step-Climbs :
      (a : List ℤ) (s : Stream) (p : Packet)
      → IsTable a
      → IsMuxable (s, p)
      → let last = last_at a (pos_part s.index) in
        let t = (out_packet fmt a s p).dts in
        is_set last ≡ true
        → (last ≤ℤ t) × (fmt.ts_nonstrict ≡ false → last <ℤ int64_max → last <ℤ t)
  step-Climbs a s p t (lo, hi, av, r, d) e =
      let last : ℤ = last_at a (pos_part s.index) in
      let il : IsInt64 last = All-last_at a (pos_part s.index) t.entries in
      let (_, _, _, _, past) = fixup_lem fmt s.codec_type last p ts av il r d in
      let (_, above, strictly) = floor_after_lem fmt last il in
      let beyond : floor_after fmt last ≤ℤ (out_packet fmt a s p).dts = past e in
      (omega arith, λ n b. let far = strictly n b in omega arith)

  -- One more packet in front of a sequence that rises from the entry it leaves.
  extend-Climbs :
      (i : ℕ) (a : List ℤ) (s : Stream) (p : Packet) (rest : List ℤ)
      → IsTable a
      → IsMuxable (s, p)
      → Climbs fmt (last_at (set a (pos_part s.index) (out_packet fmt a s p).dts) i) rest
      → Climbs fmt
          (last_at a i)
          (if s.index ==ℤ pos i then (out_packet fmt a s p).dts ∷ rest else rest)
  extend-Climbs i a s p rest t m h = elim (Bool-cases (s.index ==ℤ pos i)) [
    | inl same ↦
        let e : pos_part s.index ≡ i = ap pos_part ((==ℤ_iff s.index (pos i)).0 same) in
        let room : pos_part s.index < length a = let full = t.full in ground (arith, m) in
        let d : ℤ = (out_packet fmt a s p).dts in
        let back : last_at (set a (pos_part s.index) d) i ≡ d =
          subst (λ k. last_at (set a (pos_part s.index) d) k ≡ d) e
            (last_at-set_self a (pos_part s.index) d room) in
        subst (Climbs fmt (last_at a i)) (sym (if_true (d ∷ rest) rest same)) (
          subst
              (λ k.
                is_set (last_at a k) ≡ true
                → (last_at a k ≤ℤ d)
                  × (fmt.ts_nonstrict ≡ false → last_at a k <ℤ int64_max → last_at a k <ℤ d))
              e (step-Climbs a s p t m),
          subst (λ k. Climbs fmt k rest) back h,
        )
    | inr other ↦
        let d : ℤ = (out_packet fmt a s p).dts in
        subst (Climbs fmt (last_at a i)) (sym (if_false (d ∷ rest) rest other)) (
          subst (λ k. Climbs fmt k rest)
            (last_at-set_ne a (pos_part s.index) i d (λ e. ground (arith, m))) h)
  ]

  rises_from :
      (i : ℕ) (ps : List (Stream × Packet)) (a : List ℤ)
      → IsTable a
      → All IsMuxable ps
      → Climbs fmt (last_at a i) (dts_of i (mux_all fmt a ps))
  unfolding mux_all
  rises_from i [] a t m = tt
  rises_from i ((s, p) ∷ r) a t (m, ms) =
      let a' = set a (pos_part s.index) (out_packet fmt a s p).dts in
      subst
        (λ (o : List ℤ × Packet).
          Climbs fmt (last_at a i) (dts_of i ((s, o.1) ∷ mux_all fmt o.0 r)))
        (sym (mux_fixup_ts_inside fmt a s p m))
        (extend-Climbs i a s p (dts_of i (mux_all fmt a' r)) t m
          (rises_from i r a' (step-IsTable a s p t m) ms))

-- A dts `t` after the dts `last` of the same stream, which is the first if `last` is not set.
abbrev pub Advances : Format → ℤ → ℤ → Type 0
Advances fmt last t =
    (is_set last ≡ false)
    ⊎ ((last ≤ℤ t) × ((fmt.ts_nonstrict ≡ true) ⊎ (int64_max ≤ℤ last) ⊎ (last <ℤ t)))

-- No dts falls, and on a strict format each is past the one before it, up to INT64_MAX.
abbrev pub Rises : Format → ℤ → List ℤ → Type 0
Rises fmt last [] = Unit {0}
Rises fmt last (t ∷ ts) = Advances fmt last t × Rises fmt t ts

advances :
    (fmt : Format) (last t : ℤ)
    → (is_set last ≡ true
        → (last ≤ℤ t) × (fmt.ts_nonstrict ≡ false → last <ℤ int64_max → last <ℤ t))
    → Advances fmt last t
advances fmt last t h = elim (Bool-cases (is_set last)) [
  | inr e ↦ inl e
  | inl e ↦
      let (up, strict) = h e in
      elim (Bool-cases fmt.ts_nonstrict) [
        | inl n ↦ inr (up, inl n)
        | inr n ↦ elim (Bool-cases (ltb_ℤ last int64_max)) [
          | inl b ↦ inr (up, inr (inr (strict n (ltb→lt _ _ b))))
          | inr b ↦ inr (up, inr (inl (ground (arith, b))))
        ]
      ]
]

Climbs-Rises : (fmt : Format) (last : ℤ) (ts : List ℤ) → Climbs fmt last ts → Rises fmt last ts
Climbs-Rises fmt last [] c = tt
Climbs-Rises fmt last (t ∷ ts) (a, c) = (advances fmt last t a, Climbs-Rises fmt t ts c)

-- Whatever dts values the lanes hand to pmux for one output, in whatever order of its streams, the
-- muxer sees each audio, video or subtitle stream with dts values that never fall, and that strictly
-- rise up to INT64_MAX on a format that refuses a repeated dts. The packets carry a dts, their
-- streams lie below MAX_MUX_STREAMS, and the format has timestamps.
pub mux_all-Rises :
    (fmt : Format) (i : ℕ) (ps : List (Stream × Packet))
    → fmt.no_timestamps ≡ false
    → All IsMuxable ps
    → Rises fmt nopts (dts_of i (mux_all fmt fresh_last_dts ps))
mux_all-Rises fmt i ps ts m = Climbs-Rises fmt nopts (dts_of i (mux_all fmt fresh_last_dts ps)) (
    subst (λ t. Climbs fmt t (dts_of i (mux_all fmt fresh_last_dts ps))) (fresh-last_at i)
      (rises_from fmt ts i ps fresh_last_dts fresh-IsTable m))
