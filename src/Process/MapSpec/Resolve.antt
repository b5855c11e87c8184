-- ===== src/Process/MapSpec/Resolve.antt =====
-- src/process.c: the stream that resolve_map_stream picks.
use ffmpeg_wasi.Base.{
  ℕ, suc, ◌+◌, ◌≤◌, ◌<◌, ◌≡◌, refl, ap, ◌⊎◌, inl, inr, true, List, [], ◌∷◌, some, ◌==◌, length,
  take, count, get_elem?, arith, Bool-cases,
}
use ffmpeg_wasi.Av.{
  MediaType, unknown, video, audio, data_stream, subtitle, attachment, eq_type, Result, ok, err,
  stream_not_found,
}
use ffmpeg_wasi.Process.MapSpec.{kth_of_type, resolve_map_stream}

abbrev pub of_type : MediaType → List MediaType → ℕ
of_type t ts = count (λ x. eq_type x t) ts

eq_type_lem : (a b : MediaType) → eq_type a b ≡ true → a ≡ b
eq_type_lem a b h = ground arith

-- The two ends of a search for the stream of type `t` with `k` others of the type before it.
abbrev pub Picks : (r : Result ℕ) → MediaType → List MediaType → ℕ → Type 0
Picks (ok i) t ts k = (get_elem? ts i ≡ some t) × (of_type t (take i ts) ≡ k)
Picks (err e) t ts k = (e ≡ stream_not_found) × (of_type t ts ≤ k)

kth_of_type_lem :
    (t : MediaType) (k i c : ℕ) (ts : List MediaType)
    → c ≤ k
    → ((j : ℕ) × (kth_of_type t k i c ts ≡ ok (i + j))
        × (get_elem? ts j ≡ some t)
        × (c + of_type t (take j ts) ≡ k))
      ⊎ ((kth_of_type t k i c ts ≡ err stream_not_found) × (c + of_type t ts ≤ k))
unfolding kth_of_type
kth_of_type_lem t k i c [] h = inr (refl, omega arith)
kth_of_type_lem t k i c (x ∷ ts) h = elim (Bool-cases (eq_type x t)) [
  | inr e ↦ elim (kth_of_type_lem t k (suc i) c ts h) [
    | inl (j, f, g, n) ↦ inl (suc j, ground (arith, e, f), g, ground (arith, e, n))
    | inr (f, n) ↦ inr (ground (arith, e, f), ground (arith, e, n))
  ]
  | inl e ↦ elim (Bool-cases (c == k)) [
    | inl q ↦ inl (0, ground (arith, e, q), ap some (eq_type_lem x t e), ground (arith, q))
    | inr q ↦ elim (kth_of_type_lem t k (suc i) (suc c) ts (ground (arith, q, h))) [
      | inl (j, f, g, n) ↦ inl (suc j, ground (arith, e, q, f), g, ground (arith, e, n))
      | inr (f, n) ↦ inr (ground (arith, e, q, f), ground (arith, e, n))
    ]
  ]
]

kth-Picks : (t : MediaType) (k : ℕ) (ts : List MediaType) → Picks (kth_of_type t k 0 0 ts) t ts k
kth-Picks t k ts = ground (arith, kth_of_type_lem t k 0 0 ts (omega arith))

-- For a type and an index K of the type, resolve_map_stream answers with the stream of the type
-- that has exactly K streams of the type before it, or, where there are at most K streams
-- of the type, with AVERROR_STREAM_NOT_FOUND. For an absolute index it answers with the index
-- itself where the input has such a stream, and with the same error where it has not.
pub resolve_map_stream-Picks :
    (best : MediaType → Result ℕ) (ts : List MediaType) (t : MediaType) (k : ℕ)
    → ((t ≡ unknown)
        × (((k < length ts) × (resolve_map_stream best ts t (some k) ≡ ok k))
            ⊎ ((length ts ≤ k) × (resolve_map_stream best ts t (some k) ≡ err stream_not_found))))
      ⊎ Picks (resolve_map_stream best ts t (some k)) t ts k
unfolding resolve_map_stream
resolve_map_stream-Picks best ts unknown k = inl (refl, ground arith)
resolve_map_stream-Picks best ts video k = inr (kth-Picks video k ts)
resolve_map_stream-Picks best ts audio k = inr (kth-Picks audio k ts)
resolve_map_stream-Picks best ts data_stream k = inr (kth-Picks data_stream k ts)
resolve_map_stream-Picks best ts subtitle k = inr (kth-Picks subtitle k ts)
resolve_map_stream-Picks best ts attachment k = inr (kth-Picks attachment k ts)
