-- ===== src/Meta/Tests.antt =====
-- Concrete flags for src/meta.c: a set as the list of its rows.
use ffmpeg_wasi.Base.{ℕ, ◌≡◌, refl, ◌&&◌, List, [], ◌∷◌, some, map, any, ltb, ◌==◌}
use ffmpeg_wasi.Meta.{Flags, meta_add_disposition, meta_disposition_from_json}
use ffmpeg_wasi.Meta.RoundTrip.{meta_disposition-round_trip}

abbrev rows : Flags (List ℕ)
rows = record {
  no_flags = [];
  with_flag = λ f i. i ∷ f;
  has_flag = λ f j. any (λ i. i == j) f;
  has_flag-no_flags = λ i. refl;
  has_flag-with_flag = λ f i j. refl;
}

-- A default stream that is an attached picture, with a flag of no row.
meta_disposition-round_trip_example :
    rows.has_flag
      (meta_disposition_from_json rows
        (some (map some (meta_add_disposition rows (0 ∷ 10 ∷ 40 ∷ [])))))
      10
    ≡ (ltb 10 16 && rows.has_flag (0 ∷ 10 ∷ 40 ∷ []) 10)
meta_disposition-round_trip_example = meta_disposition-round_trip rows (0 ∷ 10 ∷ 40 ∷ []) 10
